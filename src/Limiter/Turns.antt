-- ===== src/Limiter/Turns.antt =====
-- Who gets a slot: the first of the line, and only while fewer calls than the limit run.
use po_c_sqlagent.Base.{
  if◌then◌else◌, ◌&&◌, ltb, ltb→lt, lt→ltb, ◌≤◌, ◌<◌, Bool, true, false, ◌≡◌, refl, none, some,
  List, [], ◌∷◌, arith, All, In, inl, inr, Option-cases, Bool-cases, ◌⊎◌, ◌↔◌, subst,
  some-injective, sym, ap,
}
use po_c_sqlagent.Limiter.Slots.{
  Waiter, Limiter, Turn, before, same, selected, grant, abandon, turn, granted, timed_out, waiting,
  is_selected, first_of,
}

-- No one stands before `w`: those of lower priority numbers go first, then those that came first.
abbrev pub NotBefore : Waiter → Waiter → Type 0
NotBefore w v = (w.priority < v.priority) ⊎ ((w.priority ≡ v.priority) × (w.sequence ≤ v.sequence))

selected-none : (ws : List Waiter) → selected ws ≡ none → ws ≡ []
unfolding selected
selected-none [] h = refl
selected-none (w ∷ ws) h = absurd (cc h)

NotBefore-trans : (u v w : Waiter) → NotBefore u v → NotBefore v w → NotBefore u w
NotBefore-trans u v w h h' = grind (arith, h, h')

first_of-NotBefore :
    (w u : Waiter) → NotBefore (first_of w (some u)) w × NotBefore (first_of w (some u)) u
first_of-NotBefore w u = elim (Bool-cases (before u w)) [
  | inl hit ↦ rw hit (ground (arith, hit), inr (refl, omega arith))
  | inr miss ↦ rw miss (inr (refl, omega arith), ground (arith, miss))
]

NotBefore-weaken :
    (v w : Waiter) (ws : List Waiter) → NotBefore v w → All (NotBefore w) ws → All (NotBefore v) ws
NotBefore-weaken v w [] h all = tt
NotBefore-weaken v w (x ∷ xs) h all =
    (NotBefore-trans v w x h all.0, NotBefore-weaken v w xs h all.1)

pub selected-first : (ws : List Waiter) (v : Waiter) → selected ws ≡ some v → All (NotBefore v) ws
unfolding selected
selected-first [] v h = absurd (cc h)
selected-first (w ∷ ws) v h = elim (Option-cases (selected ws)) [
  | inl last ↦ ground (arith, last, selected-none ws last)
  | inr (u, e) ↦
      let (nw, nu) = first_of-NotBefore w u in
      subst (λ x. All (NotBefore x) (w ∷ ws)) (some-injective (rw e at h))
        (nw, NotBefore-weaken (first_of w (some u)) u ws nu (selected-first ws u e))
]

choice-In :
    (b : Bool) (w u : Waiter) (ws : List Waiter) → In u ws → In (if b then u else w) (w ∷ ws)
choice-In true w u ws m = inr m
choice-In false w u ws m = inl refl

pub selected-In : (ws : List Waiter) (v : Waiter) → selected ws ≡ some v → In v ws
unfolding selected
selected-In [] v h = absurd (cc h)
selected-In (w ∷ ws) v h = elim (Option-cases (selected ws)) [
  | inl last ↦ inl (some-injective (rw last at h))
  | inr (u, e) ↦
      subst (λ x. In x (w ∷ ws)) (some-injective (rw e at h))
        (choice-In (before u w) w u ws (selected-In ws u e))
]

same-fields :
    (v w : Waiter) → same v w ≡ true → (v.priority ≡ w.priority) × (v.sequence ≡ w.sequence)
same-fields v w h = ground arith

pub same-eq : (v w : Waiter) → same v w ≡ true → v ≡ w
same-eq v w h = let (p, t) = same-fields v w h in cc (p, t)

same_refl : (w : Waiter) → same w w ≡ true
same_refl w = ground arith

pub All-In : (P : Waiter → Type 0) (ws : List Waiter) (v : Waiter) → All P ws → In v ws → P v
All-In P [] v h m = elim m [ ]
All-In P (w ∷ ws) v h (inl e) = subst P e h.0
All-In P (w ∷ ws) v h (inr m) = All-In P ws v h.1 m

-- Two of the line that none stands before are the same.
NotBefore-same : (v w : Waiter) → NotBefore v w → NotBefore w v → same v w ≡ true
NotBefore-same v w h h' = grind (arith, h, h')

-- The selected one is the one of the line that none stands before.
is_selected-first :
    (ws : List Waiter) (w : Waiter)
    → is_selected w (selected ws) ≡ true
    → In w ws × All (NotBefore w) ws
is_selected-first ws w h = elim (Option-cases (selected ws)) [
  | inl last ↦ absurd (cc (rw last at h))
  | inr (v, e) ↦
      let v_is : v ≡ w = same-eq v w (rw e at h) in
      (
        subst (λ x. In x ws) v_is (selected-In ws v e),
        subst (λ x. All (NotBefore x) ws) v_is (selected-first ws v e),
      )
]

first-is_selected :
    (ws : List Waiter) (w : Waiter)
    → In w ws
    → All (NotBefore w) ws
    → is_selected w (selected ws) ≡ true
first-is_selected ws w m first = elim (Option-cases (selected ws)) [
  | inl last ↦ elim (subst (In w) (selected-none ws last) m) [ ]
  | inr (v, e) ↦ rw e (
      NotBefore-same v w (All-In (NotBefore v) ws w (selected-first ws v e) m)
        (All-In (NotBefore w) ws v first (selected-In ws v e)))
]

and-both : (a b : Bool) → a && b ≡ true → (a ≡ true) × (b ≡ true)
and-both a b h = ground arith

refused :
    (w : Waiter) (is_late : Bool) (l l' : Limiter)
    → (if is_late then timed_out (abandon w l) else waiting l) ≡ granted l'
    → ⊥
refused w true l l' e = cc e
refused w false l l' e = cc e

turn-selected :
    (w : Waiter) (is_late : Bool) (l l' : Limiter)
    → turn w is_late l ≡ granted l'
    → is_selected w (selected l.waiters) && ltb l.in_flight l.limit ≡ true
unfolding turn
turn-selected w is_late l l' e =
    elim (Bool-cases (is_selected w (selected l.waiters) && ltb l.in_flight l.limit)) [
      | inl hit ↦ hit
      | inr miss ↦ absurd (refused w is_late l l' (rw miss at e))
    ]

-- The next turn of a caller grants a slot exactly where it stands in the line, no one stands before
-- it, and fewer calls run than the limit; the time left does not matter.
pub turn-granted :
    (w : Waiter) (is_late : Bool) (l : Limiter)
    → ((l' : Limiter) × (turn w is_late l ≡ granted l'))
      ↔ (In w l.waiters × All (NotBefore w) l.waiters × (l.in_flight < l.limit))
unfolding turn
turn-granted w is_late l = (
  λ (l', e).
      let (is_first, below) = and-both _ _ (turn-selected w is_late l l' e) in
      let (m, first) = is_selected-first l.waiters w is_first in
      (m, first, ltb→lt l.in_flight l.limit below),
  λ (m, first, below). (
    grant w l,
    rw (first-is_selected l.waiters w m first) (rw (lt→ltb l.in_flight l.limit below) refl),
  ),
)

-- What a turn leaves behind.
turn_as : Turn → Limiter → Limiter
turn_as (granted l) k = l
turn_as (timed_out l) k = l
turn_as (waiting l) k = k

pub turn-granted_is :
    (w : Waiter) (is_late : Bool) (l l' : Limiter) → turn w is_late l ≡ granted l' → l' ≡ grant w l
unfolding turn turn_as
turn-granted_is w is_late l l' e =
    ap (λ t. turn_as t l) (sym (rw (turn-selected w is_late l l' e) at e))

late_is :
    (w : Waiter) (is_late : Bool) (l l' : Limiter)
    → (if is_late then timed_out (abandon w l) else waiting l) ≡ timed_out l'
    → l' ≡ abandon w l
unfolding turn_as
late_is w true l l' e = ap (λ t. turn_as t l) (sym e)
late_is w false l l' e = absurd (cc e)

pub turn-timed_out_is :
    (w : Waiter) (is_late : Bool) (l l' : Limiter)
    → turn w is_late l ≡ timed_out l'
    → l' ≡ abandon w l
unfolding turn
turn-timed_out_is w is_late l l' e =
    elim (Bool-cases (is_selected w (selected l.waiters) && ltb l.in_flight l.limit)) [
      | inl hit ↦ absurd (cc (rw hit at e))
      | inr miss ↦ late_is w is_late l l' (rw miss at e)
    ]
