-- ===== src/Limiter/Slots.antt =====
-- sqlagent/concurrency.py, AdaptiveLimiter: its fields and its operations. Each operation is what
-- runs between taking the lock and giving it up. A priority is a natural number: 0 for interactive
-- traffic, 10 for the learner.
use po_c_sqlagent.Base.{
  ℕ, suc, ◌+◌, ◌-◌, ◌/◌, max, String, Bool, false, ◌&&◌, ◌||◌, Option, none, some, List, [], ◌∷◌,
  ◌++◌, ltb, leb, ◌==◌, if◌then◌else◌, any, ok, err,
}
use po_c_sqlagent.Text.{contains, lower}
use po_c_sqlagent.Python.{Py, value_error, runtime_error}

pub record Waiter : Type 0 where
  pub priority : ℕ
  pub sequence : ℕ

pub record Limiter : Type 0 where
  pub minimum : ℕ
  pub maximum : ℕ
  pub stable_window : ℕ
  pub limit : ℕ
  pub in_flight : ℕ
  pub successes : ℕ
  pub reductions : ℕ
  pub sequence : ℕ
  pub waiters : List Waiter

unfoldable pub create : (initial minimum maximum stable_window : ℕ) → Py Limiter
create initial minimum maximum stable_window =
    if leb 1 minimum && (leb minimum initial && (leb initial maximum && leb maximum 12))
    then ok record {
      minimum = minimum;
      maximum = maximum;
      stable_window = max 1 stable_window;
      limit = initial;
      in_flight = 0;
      successes = 0;
      reductions = 0;
      sequence = 0;
      waiters = [];
    }
    else err (value_error "adaptive limiter requires 1 <= min <= initial <= max <= 12")

-- The order of tuples.
abbrev pub before : Waiter → Waiter → Bool
before a b = ltb a.priority b.priority || (a.priority == b.priority && ltb a.sequence b.sequence)

abbrev pub same : Waiter → Waiter → Bool
same a b = a.priority == b.priority && a.sequence == b.sequence

-- `min(self._waiters) if self._waiters else None`.
abbrev pub first_of : Waiter → Option Waiter → Waiter
first_of w none = w
first_of w (some v) = if before v w then v else w

unfoldable pub selected : List Waiter → Option Waiter
selected [] = none
selected (w ∷ ws) = some (first_of w (selected ws))

-- `deque.remove`: the first item that equals it.
unfoldable pub remove : Waiter → List Waiter → List Waiter
remove w [] = []
remove w (v ∷ vs) = let rest = remove w vs in if same v w then vs else v ∷ rest

abbrev pub is_selected : Waiter → Option Waiter → Bool
is_selected w none = false
is_selected w (some v) = same v w

-- acquire, until its loop: the caller stands in the line with the next number.
unfoldable pub enter : ℕ → Limiter → Limiter × Waiter
enter priority l =
    let w : Waiter = record { priority = priority; sequence = suc l.sequence } in
    (record l { sequence = suc l.sequence; waiters = l.waiters ++ w ∷ [] }, w)

-- What one turn of the loop of acquire comes to.
pub data Turn : Type 0 where
  granted : Limiter → Turn
  timed_out : Limiter → Turn
  waiting : Limiter → Turn

unfoldable pub grant : Waiter → Limiter → Limiter
unfolding remove
grant w l = record l { waiters = remove w l.waiters; in_flight = l.in_flight + 1 }

unfoldable pub abandon : Waiter → Limiter → Limiter
unfolding remove
abandon w l = record l { waiters = remove w l.waiters }

-- One turn of the loop: the slot is granted, or the time is up, or the caller waits. `is_late` says
-- that there is a deadline and nothing remains of it.
unfoldable pub turn : Waiter → (is_late : Bool) → Limiter → Turn
unfolding selected grant abandon
turn w is_late l =
    if is_selected w (selected l.waiters) && ltb l.in_flight l.limit
    then granted (grant w l)
    else if is_late
    then timed_out (abandon w l)
    else waiting l

unfoldable pub release : Limiter → Py Limiter
release l =
    if leb l.in_flight 0
    then err (runtime_error "adaptive limiter released without acquire")
    else ok record l { in_flight = l.in_flight - 1 }

unfoldable pub record_success : Limiter → Limiter
record_success l =
    if leb l.stable_window (l.successes + 1) && ltb l.limit l.maximum
    then record l { limit = l.limit + 1; successes = 0 }
    else record l { successes = l.successes + 1 }

unfoldable pub record_pressure : Limiter → Limiter
record_pressure l = record l {
  limit = max l.minimum (l.limit / 2);
  successes = 0;
  reductions = l.reductions + 1;
}

-- The texts that mean an overloaded service.
abbrev pub markers : List String
markers = "429" ∷ "timeout" ∷ "timed out" ∷ "pool" ∷ "saturation" ∷ []

unfoldable pub is_pressure : String → Bool
unfolding any contains lower
is_pressure message = let text = lower message in any (λ marker. contains marker text) markers

-- The end of `slot`: the body raised, with this text, or came to its end; the slot is released
-- either way.
unfoldable pub leave : Option String → Limiter → Py Limiter
unfolding release record_success record_pressure is_pressure
leave none l = release (record_success l)
leave (some message) l = release (if is_pressure message then record_pressure l else l)
