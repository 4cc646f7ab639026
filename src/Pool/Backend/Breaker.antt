-- ===== src/Pool/Backend/Breaker.antt =====
-- How the circuit breaker of backend.go trips, refuses and lets traffic through again.
use go_multi_warp.Prelude.{
  ℕ, suc, ◌+◌, pos, leb_ℤ, ◌≤ℤ◌, ◌<ℤ◌, ◌≡◌, refl, ◌⊎◌, inl, inr, true, ◌&&◌, List, [], ◌∷◌, length,
  Bytes, arith, if◌then◌else◌,
}
use go_multi_warp.Pool.Backend.{
  Backend, degraded, circuit_open, in_pool, has_capacity, has_elapsed, is_selectable, try_acquire,
  mark_success, mark_failure, mark_probe_fail,
}

-- One failure after another, each at its own time.
unfoldable pub mark_failures : List (ℕ × Bytes) → Backend → Backend
mark_failures [] b = b
mark_failures ((now, reason) ∷ fs) b = mark_failures fs (mark_failure now reason b)

-- A backend that counts failures: short of the threshold it is degraded, from there on it is open.
abbrev Counting : Backend → Type 0
Counting b =
    ((b.state ≡ degraded) × (pos b.fails <ℤ b.max_fails))
    ⊎ ((b.state ≡ circuit_open) × (b.max_fails ≤ℤ pos b.fails))

mark_failure-Counting :
    (now : ℕ) (reason : Bytes) (b : Backend) → Counting b → Counting (mark_failure now reason b)
unfolding mark_failure
mark_failure-Counting now reason b (inl c) = ground arith
mark_failure-Counting now reason b (inr c) = ground arith

mark_failures-Counting :
    (fs : List (ℕ × Bytes)) (b : Backend) → Counting b → Counting (mark_failures fs b)
unfolding mark_failures
mark_failures-Counting [] b c = c
mark_failures-Counting ((now, reason) ∷ fs) b c =
    mark_failures-Counting fs (mark_failure now reason b) (mark_failure-Counting now reason b c)

-- Nothing but the count, and never the threshold, tells the two apart.
fails-mark_failures :
    (fs : List (ℕ × Bytes)) (b : Backend)
    → ((mark_failures fs b).fails ≡ length fs + b.fails)
      × ((mark_failures fs b).max_fails ≡ b.max_fails)
unfolding mark_failures mark_failure
fails-mark_failures [] b = (omega arith, refl)
fails-mark_failures ((now, reason) ∷ fs) b =
    ground (arith, fails-mark_failures fs (mark_failure now reason b))

mark_success-Counting :
    (t now : ℕ) (reason : Bytes) (b : Backend)
    → Counting (mark_failure now reason (mark_success t b))
unfolding mark_failure mark_success
mark_success-Counting t now reason b = ground arith

-- After a success, a row of failures leaves the circuit open exactly when it is at least as long as
-- the threshold, and the backend degraded when it is shorter.
pub mark_failures-mark_success :
    (t now : ℕ) (reason : Bytes) (fs : List (ℕ × Bytes)) (b : Backend)
    → (mark_failures ((now, reason) ∷ fs) (mark_success t b)).state
      ≡ (if leb_ℤ b.max_fails (pos (suc (length fs))) then circuit_open else degraded)
unfolding mark_failures mark_success mark_failure
mark_failures-mark_success t now reason fs b =
    let c = mark_failure now reason (mark_success t b) in
    ground (
      arith,
      mark_failures-Counting fs c (mark_success-Counting t now reason b),
      fails-mark_failures fs c,
    )

-- A failure that reaches the threshold takes an admitted backend out of service until `open_after`
-- has passed; from then on a slot is given out as far as there is capacity.
try_acquire-mark_failure :
    (t now : ℕ) (reason : Bytes) (b : Backend)
    → b.admit ≡ in_pool
    → b.max_fails ≤ℤ pos (suc b.fails)
    → (try_acquire now (mark_failure t reason b)).1
      ≡ (has_elapsed now t b.open_after && has_capacity b)
unfolding try_acquire is_selectable mark_failure
try_acquire-mark_failure t now reason b a h = ground arith

-- A backend that was found selectable stays so, unchanged, at every later poll.
is_selectable-stable :
    (now later : ℕ) (b : Backend)
    → (is_selectable now b).1 ≡ true
    → is_selectable later (is_selectable now b).0 ≡ ((is_selectable now b).0, true)
unfolding is_selectable
is_selectable-stable now later b h = ground arith

-- A second poll at the same reading gives the same answer and changes nothing.
pub is_selectable_idem :
    (now : ℕ) (b : Backend)
    → is_selectable now (is_selectable now b).0 ≡ ((is_selectable now b).0, (is_selectable now b).1)
unfolding is_selectable
is_selectable_idem now b = ground arith

-- The last branch of MarkProbeFail never runs: a failed probe does to the backend just what a
-- failed request does.
mark_probe_fail-mark_failure :
    (now : ℕ) (reason : Bytes) (b : Backend)
    → mark_probe_fail now reason b ≡ mark_failure now reason b
unfolding mark_probe_fail mark_failure
mark_probe_fail-mark_failure now reason b = ground arith
