-- ===== src/Limiter/Reached.antt =====
-- The limiter after any sequence of its callers' steps.
use po_c_sqlagent.Base.{
  if◌then◌else◌, false, ℕ, suc, ◌+◌, ◌-◌, ◌≤◌, ◌<◌, String, Bool, true, ◌≡◌, refl, Option, none,
  some, List, [], ◌∷◌, ◌++◌, arith, All, ok, sym, ◌∙◌, ltb, Bool-cases, inl, inr, subst,
  ok-injective, leb, ◌&&◌,
}
use po_c_sqlagent.Limiter.Slots.{
  Waiter, Limiter, create, enter, remove, same, turn, granted, timed_out, grant, abandon, release,
  record_success, record_pressure, is_pressure, leave,
}
use po_c_sqlagent.Limiter.Turns.{turn-granted, turn-granted_is, turn-timed_out_is}

-- The limiter with the number of calls that hold a slot.
pub data History : ℕ → Limiter → Type 0 where
  created :
      {l : Limiter}
      → (initial minimum maximum stable_window : ℕ)
      → create initial minimum maximum stable_window ≡ ok l
      → History 0 l
  entered : {n : ℕ} {l : Limiter} → History n l → (priority : ℕ) → History n (enter priority l).0
  got_slot :
      {n : ℕ} {l l' : Limiter}
      → History n l
      → (w : Waiter) (is_late : Bool) → turn w is_late l ≡ granted l'
      → History (suc n) l'
  gave_up :
      {n : ℕ} {l l' : Limiter}
      → History n l
      → (w : Waiter) (is_late : Bool) → turn w is_late l ≡ timed_out l'
      → History n l'
  left :
      {n : ℕ} {l l' : Limiter}
      → History (suc n) l
      → (exc : Option String) → leave exc l ≡ ok l'
      → History n l'

-- The line in the order of arrival.
abbrev pub InOrder : List Waiter → Type 0
InOrder [] = Unit
InOrder (w ∷ ws) = All (λ (v : Waiter). w.sequence < v.sequence) ws × InOrder ws

abbrev pub UpTo : ℕ → List Waiter → Type 0
UpTo n ws = All (λ (v : Waiter). v.sequence ≤ n) ws

pub record IsBounded (n : ℕ) (l : Limiter) : Type 0 where
  pub bounds : (1 ≤ l.minimum) × (l.minimum ≤ l.limit) × (l.limit ≤ l.maximum) × (l.maximum ≤ 12)
  pub counted : l.in_flight ≡ n
  pub few : n ≤ l.maximum
  pub window : 1 ≤ l.stable_window
  pub line : InOrder l.waiters × UpTo l.sequence l.waiters

in_range :
    (initial minimum maximum : ℕ)
    → leb 1 minimum && (leb minimum initial && (leb initial maximum && leb maximum 12)) ≡ true
    → (1 ≤ minimum) × (minimum ≤ initial) × (initial ≤ maximum) × (maximum ≤ 12)
in_range initial minimum maximum h = ground arith

create-IsBounded :
    (initial minimum maximum stable_window : ℕ) (l : Limiter)
    → create initial minimum maximum stable_window ≡ ok l
    → IsBounded 0 l
unfolding create
create-IsBounded initial minimum maximum stable_window l e =
    elim (Bool-cases
      (leb 1 minimum && (leb minimum initial && (leb initial maximum && leb maximum 12)))) [
        | inl hit ↦ subst (IsBounded 0) (ok-injective (rw hit at e)) (record {
          bounds = in_range initial minimum maximum hit;
          counted = refl;
          few = omega arith;
          window = omega arith;
          line = (tt, tt);
        })
        | inr miss ↦ absurd (cc (rw miss at e))
      ]

All-weaken : (m n : ℕ) (ws : List Waiter) → m ≤ n → UpTo m ws → UpTo n ws
All-weaken m n [] h all = tt
All-weaken m n (w ∷ ws) h all = (omega (arith, all.0), All-weaken m n ws h all.1)

UpTo-snoc :
    (n : ℕ) (ws : List Waiter) (w : Waiter) → UpTo n ws → w.sequence ≤ n → UpTo n (ws ++ w ∷ [])
UpTo-snoc n [] w all h = (h, tt)
UpTo-snoc n (v ∷ vs) w all h = (all.0, UpTo-snoc n vs w all.1 h)

After-snoc :
    (n : ℕ) (ws : List Waiter) (w : Waiter)
    → All (λ (v : Waiter). n < v.sequence) ws
    → n < w.sequence
    → All (λ (v : Waiter). n < v.sequence) (ws ++ w ∷ [])
After-snoc n [] w all h = (h, tt)
After-snoc n (v ∷ vs) w all h = (all.0, After-snoc n vs w all.1 h)

InOrder-snoc :
    (n : ℕ) (ws : List Waiter) (w : Waiter)
    → InOrder ws
    → UpTo n ws
    → n < w.sequence
    → InOrder (ws ++ w ∷ [])
InOrder-snoc n [] w order all h = (tt, tt)
InOrder-snoc n (v ∷ vs) w order all h =
    (After-snoc v.sequence vs w order.0 (omega (arith, all.0)), InOrder-snoc n vs w order.1 all.1 h)

enter-IsBounded : (n priority : ℕ) (l : Limiter) → IsBounded n l → IsBounded n (enter priority l).0
unfolding enter
enter-IsBounded n priority l b = record {
  bounds = b.bounds;
  counted = b.counted;
  few = b.few;
  window = b.window;
  line = (
    InOrder-snoc l.sequence l.waiters _ b.line.0 b.line.1 (omega arith),
    UpTo-snoc (suc l.sequence) l.waiters _
        (All-weaken l.sequence (suc l.sequence) l.waiters (omega arith) b.line.1) (omega arith),
  );
}

All-remove : (P : Waiter → Type 0) (w : Waiter) (ws : List Waiter) → All P ws → All P (remove w ws)
unfolding remove
All-remove P w [] all = tt
All-remove P w (v ∷ vs) all = elim (Bool-cases (same v w)) [
  | inl hit ↦ rw hit all.1
  | inr miss ↦ rw miss (all.0, All-remove P w vs all.1)
]

InOrder-remove : (w : Waiter) (ws : List Waiter) → InOrder ws → InOrder (remove w ws)
unfolding remove
InOrder-remove w [] order = tt
InOrder-remove w (v ∷ vs) order = elim (Bool-cases (same v w)) [
  | inl hit ↦ rw hit order.1
  | inr miss ↦ rw miss (All-remove _ w vs order.0, InOrder-remove w vs order.1)
]

abandon-IsBounded : (n : ℕ) (w : Waiter) (l : Limiter) → IsBounded n l → IsBounded n (abandon w l)
unfolding abandon
abandon-IsBounded n w l b = record {
  bounds = b.bounds;
  counted = b.counted;
  few = b.few;
  window = b.window;
  line = (InOrder-remove w l.waiters b.line.0, All-remove _ w l.waiters b.line.1);
}

grant-IsBounded :
    (n : ℕ) (w : Waiter) (l : Limiter)
    → l.in_flight < l.limit
    → IsBounded n l
    → IsBounded (suc n) (grant w l)
unfolding grant
grant-IsBounded n w l below b = record {
  bounds = b.bounds;
  counted = omega (arith, b.counted);
  few = omega (arith, b.counted, b.bounds.2, below);
  window = b.window;
  line = (InOrder-remove w l.waiters b.line.0, All-remove _ w l.waiters b.line.1);
}

success-IsBounded : (n : ℕ) (l : Limiter) → IsBounded n l → IsBounded n (record_success l)
unfolding record_success
success-IsBounded n l b =
    elim (Bool-cases (leb l.stable_window (l.successes + 1) && ltb l.limit l.maximum)) [
      | inl hit ↦ rw hit (record {
        bounds = (b.bounds.0, omega (arith, b.bounds.1), ground (arith, hit), b.bounds.3);
        counted = b.counted;
        few = b.few;
        window = b.window;
        line = b.line;
      })
      | inr miss ↦ rw miss (record {
        bounds = b.bounds;
        counted = b.counted;
        few = b.few;
        window = b.window;
        line = b.line;
      })
    ]

pressure-IsBounded : (n : ℕ) (l : Limiter) → IsBounded n l → IsBounded n (record_pressure l)
unfolding record_pressure
pressure-IsBounded n l b = record {
  bounds = (b.bounds.0, omega arith, omega (arith, b.bounds.1, b.bounds.2), b.bounds.3);
  counted = b.counted;
  few = b.few;
  window = b.window;
  line = b.line;
}

release-IsBounded :
    (n : ℕ) (l : Limiter)
    → IsBounded (suc n) l
    → (l' : Limiter) × (release l ≡ ok l') × IsBounded n l'
unfolding release
release-IsBounded n l b = (
  record l { in_flight = l.in_flight - 1 },
  ground (arith, b.counted),
  record {
    bounds = b.bounds;
    counted = omega (arith, b.counted);
    few = omega (arith, b.few);
    window = b.window;
    line = b.line;
  },
)

leave-IsBounded :
    (n : ℕ) (exc : Option String) (l : Limiter)
    → IsBounded (suc n) l
    → (l' : Limiter) × (leave exc l ≡ ok l') × IsBounded n l'
unfolding leave
leave-IsBounded n none l b = release-IsBounded n (record_success l) (success-IsBounded (suc n) l b)
leave-IsBounded n (some message) l b = elim (Bool-cases (is_pressure message)) [
  | inl hit ↦ rw hit (release-IsBounded n (record_pressure l) (pressure-IsBounded (suc n) l b))
  | inr miss ↦ rw miss (release-IsBounded n l b)
]

-- After any sequence of steps in which `n` calls hold a slot: the limit stands between its bounds,
-- none above 12; exactly `n` calls are counted, no more than the maximum; and the line is in the
-- order of arrival, no number standing twice.
pub History-IsBounded : {n : ℕ} {l : Limiter} → History n l → IsBounded n l
History-IsBounded (created {l = l} initial minimum maximum stable_window e) =
    create-IsBounded initial minimum maximum stable_window l e
History-IsBounded (entered {n = n} {l = l} h priority) =
    enter-IsBounded n priority l (History-IsBounded h)
History-IsBounded (got_slot {n = n} {l = l} {l' = l'} h w is_late e) =
    let (m, first, below) = (turn-granted w is_late l).0 (l', e) in
    subst (IsBounded (suc n)) (sym (turn-granted_is w is_late l l' e))
      (grant-IsBounded n w l below (History-IsBounded h))
History-IsBounded (gave_up {n = n} {l = l} {l' = l'} h w is_late e) =
    subst (IsBounded n) (sym (turn-timed_out_is w is_late l l' e))
      (abandon-IsBounded n w l (History-IsBounded h))
History-IsBounded (left {n = n} {l = l} {l' = l'} h exc e) =
    let (l'', e', b) = leave-IsBounded n exc l (History-IsBounded h) in
    subst (IsBounded n) (ok-injective (sym e' ∙ e)) b

pressure_frame :
    (b : Bool) (l : Limiter)
    → ((if b then record_pressure l else l).in_flight ≡ l.in_flight)
      × ((if b then record_pressure l else l).waiters ≡ l.waiters)
unfolding record_pressure
pressure_frame true l = (refl, refl)
pressure_frame false l = (refl, refl)

success_frame :
    (l : Limiter)
    → ((record_success l).in_flight ≡ l.in_flight) × ((record_success l).waiters ≡ l.waiters)
unfolding record_success
success_frame l =
    elim (Bool-cases (leb l.stable_window (l.successes + 1) && ltb l.limit l.maximum)) [
      | inl full ↦ rw full (refl, refl)
      | inr short ↦ rw short (refl, refl)
    ]

release_frame :
    (l l' : Limiter)
    → release l ≡ ok l'
    → (suc l'.in_flight ≡ l.in_flight) × (l'.waiters ≡ l.waiters)
unfolding release
release_frame l l' h = elim (Bool-cases (leb l.in_flight 0)) [
  | inl none_held ↦ absurd (cc (rw none_held at h))
  | inr held ↦
      subst (λ (k : Limiter). (suc k.in_flight ≡ l.in_flight) × (k.waiters ≡ l.waiters))
        (ok-injective (rw held at h)) (ground arith, refl)
]

leave_frame :
    (exc : Option String) (l l' : Limiter)
    → leave exc l ≡ ok l'
    → (suc l'.in_flight ≡ l.in_flight) × (l'.waiters ≡ l.waiters)
unfolding leave
leave_frame none l l' h =
    let (count, line) = release_frame (record_success l) l' h in
    (count ∙ (success_frame l).0, line ∙ (success_frame l).1)
leave_frame (some message) l l' h =
    let b = is_pressure message in
    let (count, line) = release_frame (if b then record_pressure l else l) l' h in
    (count ∙ (pressure_frame b l).0, line ∙ (pressure_frame b l).1)

-- A call that holds a slot always gives it up without an error, whatever its body raised: one call
-- fewer is counted, the line is as it was, and the limit stays between its bounds.
pub History-leave :
    {n : ℕ} {l : Limiter}
    → History (suc n) l
    → (exc : Option String)
    → (l' : Limiter) × (leave exc l ≡ ok l')
      × (suc l'.in_flight ≡ l.in_flight)
      × (l'.waiters ≡ l.waiters)
      × IsBounded n l'
History-leave {n} {l} h exc =
    let (l', e, b) = leave-IsBounded n exc l (History-IsBounded h) in
    let (count, line) = leave_frame exc l l' e in (l', e, count, line, b)
