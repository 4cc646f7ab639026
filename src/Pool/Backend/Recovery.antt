-- ===== src/Pool/Backend/Recovery.antt =====
-- What holds of a backend of backend.go after any history, and that it never stays out for good.
use go_multi_warp.Prelude.{
  ℕ, ◌+◌, ◌≤◌, ℤ, pos, pos_part, ◌≤ℤ◌, ◌≡◌, ◌≢◌, ◌⊎◌, refl, true, List, [], ◌∷◌, Bytes, Option,
  some, none, arith,
}
use go_multi_warp.Pool.Backend.{
  Backend, healthy, circuit_open, in_pool, new_backend, is_selectable, try_acquire, release,
  mark_success, mark_failure, mark_probe_ok, mark_probe_fail, force_state, set_admit,
  inc_unique_attempt,
}
use go_multi_warp.Pool.Backend.History.{
  Event, polls, acquires, failing, probe_fails, forced, apply, run, Within,
}

-- The opening time of an open circuit is known and past.
abbrev pub OpenedBy : ℕ → Option ℕ → Type 0
OpenedBy now none = ⊥
OpenedBy now (some t) = t ≤ now

pub record IsWellFormed (now : ℕ) (b : Backend) : Type 0 where
  pub changed : b.last_change ≤ now
  pub opened : (b.state ≢ circuit_open) ⊎ OpenedBy now b.opened_at
  pub closed : (b.state ≢ healthy) ⊎ ((b.fails ≡ 0) × (b.opened_at ≡ none))
  pub threshold : pos 1 ≤ℤ b.max_fails

new_backend-IsWellFormed :
    (now : ℕ) (id : ℤ) (addr : Bytes) (max_fails fail_timeout open_after max_inflight : ℤ)
    → IsWellFormed now (new_backend now id addr max_fails fail_timeout open_after max_inflight)
unfolding new_backend
new_backend-IsWellFormed now id addr max_fails fail_timeout open_after max_inflight = ground arith

later-IsWellFormed :
    (now later : ℕ) (b : Backend) → now ≤ later → IsWellFormed now b → IsWellFormed later b
later-IsWellFormed now later b h w = ground arith

apply-IsWellFormed :
    (now : ℕ) (e : Event) (b : Backend) → IsWellFormed now b → IsWellFormed now (apply now e b)
unfolding apply is_selectable try_acquire release mark_success mark_failure mark_probe_ok
    mark_probe_fail force_state set_admit inc_unique_attempt
apply-IsWellFormed now polls b w = ground arith
apply-IsWellFormed now acquires b w = ground arith
apply-IsWellFormed now (forced s) b w = ground arith
apply-IsWellFormed now (failing r) b w = ground arith
apply-IsWellFormed now (probe_fails r) b w = ground arith
apply-IsWellFormed now e b w = ground arith

-- Any history from a well-formed backend on ends in a well-formed one.
pub run-IsWellFormed :
    (start end : ℕ) (es : List (ℕ × Event)) (b : Backend)
    → Within start end es
    → IsWellFormed start b
    → IsWellFormed end (run es b)
unfolding run
run-IsWellFormed start end [] b o w = later-IsWellFormed start end b o w
run-IsWellFormed start end ((now, e) ∷ es) b o w =
    run-IsWellFormed now end es (apply now e b) o.1
      (apply-IsWellFormed now e b (later-IsWellFormed start now b o.0 w))

-- An admitted backend is selectable once both timeouts have passed with no further call.
is_selectable_later :
    (now later : ℕ) (b : Backend)
    → IsWellFormed now b
    → b.admit ≡ in_pool
    → now + pos_part b.fail_timeout ≤ later
    → now + pos_part b.open_after ≤ later
    → (is_selectable later b).1 ≡ true
unfolding is_selectable
is_selectable_later now later b w a h k = ground arith

apply_timeouts :
    (now : ℕ) (e : Event) (b : Backend)
    → ((apply now e b).fail_timeout ≡ b.fail_timeout) × ((apply now e b).open_after ≡ b.open_after)
unfolding apply is_selectable try_acquire release mark_success mark_failure mark_probe_ok
    mark_probe_fail force_state set_admit inc_unique_attempt
apply_timeouts now polls b = ground arith
apply_timeouts now e b = ground arith

run_timeouts :
    (es : List (ℕ × Event)) (b : Backend)
    → ((run es b).fail_timeout ≡ b.fail_timeout) × ((run es b).open_after ≡ b.open_after)
unfolding run
run_timeouts [] b = (refl, refl)
run_timeouts ((now, e) ∷ es) b =
    ground (arith, run_timeouts es (apply now e b), apply_timeouts now e b)

-- Whatever its history, an admitted backend is selectable again as soon as both timeouts have passed
-- since the last call: no circuit stays open for good.
pub is_selectable-run :
    (start end later : ℕ) (id : ℤ) (addr : Bytes)
    (max_fails fail_timeout open_after max_inflight : ℤ) (es : List (ℕ × Event))
    → Within start end es
    → (run es (new_backend start id addr max_fails fail_timeout open_after max_inflight)).admit
      ≡ in_pool
    → end + pos_part fail_timeout ≤ later
    → end + pos_part open_after ≤ later
    → (is_selectable later
        (run es (new_backend start id addr max_fails fail_timeout open_after max_inflight))).1
      ≡ true
is_selectable-run start end later id addr max_fails fail_timeout open_after max_inflight es o a h
      k =
    let fresh = new_backend start id addr max_fails fail_timeout open_after max_inflight in
    let t = run_timeouts es fresh in
    is_selectable_later end later (run es fresh)
      (run-IsWellFormed start end es fresh o
        (new_backend-IsWellFormed start id addr max_fails fail_timeout open_after max_inflight))
      a (rw t.0 (unfold new_backend in h)) (rw t.1 (unfold new_backend in k))
