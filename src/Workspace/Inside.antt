-- ===== src/Workspace/Inside.antt =====
-- sqlagent/workspace.py: which paths _safe_path lets pass.
use text.Mathlib.TextEquality.{eq_iff}
use text.Mathlib.TextPositions.{eq_refl}
use po_c_sqlagent.Base.{
  ap, ◌↔◌, String, true, ◌≡◌, refl, sym, ◌∙◌, List, [], ◌∷◌, ◌++◌, ok, arith, guard-eq-ok,
  ok-injective, subst,
}
use po_c_sqlagent.Workspace.Paths.{resolve, is_under, safe_path}

under-append : (root rest : List String) → is_under root (root ++ rest) ≡ true
unfolding is_under
under-append [] rest = refl
under-append (x ∷ root) rest = ground (arith, eq_refl x, under-append root rest)

is_under-prefix :
    (root path : List String)
    → is_under root path ≡ true
    → (rest : List String) × (path ≡ root ++ rest)
unfolding is_under
is_under-prefix [] path h = (path, refl)
is_under-prefix (x ∷ root) [] h = absurd (cc h)
is_under-prefix (x ∷ root) (y ∷ path) h =
    let (rest, e) = is_under-prefix root path (ground arith) in
    let same : x ≡ y = (eq_iff x y).0 (ground arith) in (rest, cc)

-- The path is the root or lies below it.
abbrev pub Inside : List String → List String → Type 0
Inside root path = (rest : List String) × (path ≡ root ++ rest)

-- Whatever the links of the file system lead to: a relative path passes with the place that it leads
-- to, and exactly where that place is the root or lies below it.
pub safe_path-Inside :
    (links : List String → List String) (root : List String) (relative : String)
    (path : List String)
    → (safe_path links root relative ≡ ok path)
      ↔ ((resolve links root relative ≡ path) × Inside root path)
unfolding safe_path
safe_path-Inside links root relative path = (
  λ h.
      let place = resolve links root relative in
      let (under, h₁) = guard-eq-ok (is_under root place) _ _ h in
      (ok-injective h₁, subst (Inside root) (ok-injective h₁) (is_under-prefix root place under)),
  λ (e, (rest, below)).
      let under : is_under root (resolve links root relative) ≡ true =
        subst (λ p. is_under root p ≡ true) (sym (e ∙ below)) (under-append root rest) in
      rw under (ap ok e),
)
