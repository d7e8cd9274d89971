-- ===== src/Limiter/Recovery.antt =====
-- How the limit grows back after pressure: by one for each stable window, up to the maximum.
use po_c_sqlagent.Base.{
  ◌-◌, subst, ltb→lt, ℕ, zero, suc, ◌+◌, ◌≤◌, ◌<◌, ◌/◌, min, max, ◌≡◌, refl, arith, sym, ap, ◌∙◌,
  ltb, Bool-cases, inl, inr,
}
use po_c_sqlagent.Limiter.Slots.{Limiter, record_success, record_pressure}

-- A number of successes in a row.
unfoldable pub successes : ℕ → Limiter → Limiter
successes zero l = l
successes (suc n) l = successes n (record_success l)

-- A number of stable windows of them.
unfoldable pub windows : ℕ → Limiter → Limiter
unfolding successes
windows zero l = l
windows (suc k) l = windows k (successes l.stable_window l)

-- The last success of a window, the one that raises the limit, and those before it.
raises :
    (l : Limiter)
    → l.stable_window ≤ l.successes + 1
    → l.limit < l.maximum
    → record_success l ≡ record l { limit = l.limit + 1; successes = 0 }
unfolding record_success
raises l h below = ground (arith, h, below)

counts :
    (l : Limiter)
    → l.successes + 1 < l.stable_window
    → record_success l ≡ record l { successes = l.successes + 1 }
unfolding record_success
counts l h = ground (arith, h)

window-raises :
    (n : ℕ) (l : Limiter)
    → l.successes + suc n ≡ l.stable_window
    → l.limit < l.maximum
    → successes (suc n) l ≡ record l { limit = l.limit + 1; successes = 0 }
unfolding successes
window-raises zero l h below = raises l (omega (arith, h)) below
window-raises (suc n) l h below =
    rw (counts l (omega (arith, h)))
      (window-raises n (record l { successes = l.successes + 1 }) (omega (arith, h)) below)

success-full : (l : Limiter) → l.limit ≡ l.maximum → (record_success l).limit ≡ l.maximum
unfolding record_success
success-full l full = ground (arith, full)

success-maximum : (l : Limiter) → (record_success l).maximum ≡ l.maximum
unfolding record_success
success-maximum l = ground arith

-- At the maximum it stays.
successes-full : (n : ℕ) (l : Limiter) → l.limit ≡ l.maximum → (successes n l).limit ≡ l.maximum
unfolding successes
successes-full zero l full = full
successes-full (suc n) l full =
    successes-full n (record_success l) (success-full l full ∙ sym (success-maximum l))
    ∙ success-maximum l

successes-maximum : (n : ℕ) (l : Limiter) → (successes n l).maximum ≡ l.maximum
unfolding successes
successes-maximum zero l = refl
successes-maximum (suc n) l = successes-maximum n (record_success l) ∙ success-maximum l

windows-full : (k : ℕ) (l : Limiter) → l.limit ≡ l.maximum → (windows k l).limit ≡ l.maximum
unfolding windows
windows-full zero l full = full
windows-full (suc k) l full =
    windows-full k (successes l.stable_window l)
      (successes-full l.stable_window l full ∙ sym (successes-maximum l.stable_window l))
    ∙ successes-maximum l.stable_window l

window-raises_one :
    (l : Limiter)
    → l.successes ≡ 0
    → 1 ≤ l.stable_window
    → l.limit < l.maximum
    → successes l.stable_window l ≡ record l { limit = l.limit + 1; successes = 0 }
window-raises_one l fresh window below =
    let step : suc (l.stable_window - 1) ≡ l.stable_window = omega (arith, window) in
    subst (λ n. successes n l ≡ record l { limit = l.limit + 1; successes = 0 }) step
      (window-raises (l.stable_window - 1) l (omega (arith, fresh, window)) below)

-- From a fresh count, `k` windows of successes raise the limit by `k`, up to the maximum.
windows-raise :
    (k : ℕ) (l : Limiter)
    → l.successes ≡ 0
    → 1 ≤ l.stable_window
    → l.limit ≤ l.maximum
    → (windows k l).limit ≡ min l.maximum (l.limit + k)
unfolding windows
windows-raise zero l fresh window bound = omega (arith, bound)
windows-raise (suc k) l fresh window bound = elim (Bool-cases (ltb l.limit l.maximum)) [
  | inl below ↦
      let lt = ltb→lt l.limit l.maximum below in
      ap (λ (x : Limiter). (windows k x).limit) (window-raises_one l fresh window lt)
      ∙ windows-raise k (record l { limit = l.limit + 1; successes = 0 }) refl window
          (omega (arith, lt))
      ∙ omega arith
  | inr at_maximum ↦
      let full : l.limit ≡ l.maximum = ground (arith, at_maximum, bound) in
      windows-full (suc k) l full ∙ omega (arith, full)
]

-- After pressure has lowered the limit, `k` stable windows of successes raise it by `k`, and never
-- above the maximum, where the window is not empty and the bounds are in order.
pub pressure-recovers :
    (k : ℕ) (l : Limiter)
    → 1 ≤ l.stable_window
    → l.minimum ≤ l.maximum
    → l.limit ≤ l.maximum
    → (windows k (record_pressure l)).limit ≡ min l.maximum (max l.minimum (l.limit / 2) + k)
unfolding record_pressure
pressure-recovers k l window ordered bound =
    windows-raise k (record_pressure l) refl window (omega arith)
