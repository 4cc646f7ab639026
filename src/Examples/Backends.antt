-- ===== src/Examples/Backends.antt =====
-- One backend of internal/pool/backend.go at work.
use go_multi_warp.Prelude.{ℕ, pos, ◌≡◌, refl, true, List, [], ◌∷◌, none, codes, arith, inl}
use go_multi_warp.Pool.Backend.{
  Backend, degraded, circuit_open, in_pool, new_backend, is_selectable, try_acquire, release,
  mark_success, mark_failure, set_admit,
}
use go_multi_warp.Pool.Backend.History.{Event, acquires, releases, failing, admitted, apply, run}
use go_multi_warp.Pool.Backend.Breaker.{mark_failures, mark_failures-mark_success}
use go_multi_warp.Pool.Backend.Recovery.{IsWellFormed, run-IsWellFormed, is_selectable-run}
use go_multi_warp.Pool.Backend.Capacity.{use_all, Accounted, use_all-inflight}

-- An admitted backend with two failures behind it: three open its circuit.
abbrev pub sample : Backend
sample = record {
  id = pos 0;
  addr = codes "127.0.0.1:40000";
  max_fails = pos 3;
  fail_timeout = pos 15;
  open_after = pos 10;
  max_inflight = pos 2;
  inflight = pos 1;
  success_total = 0;
  fail_total = 2;
  state = degraded;
  admit = in_pool;
  egress_ipv4 = [];
  unique_tries = 0;
  fails = 2;
  last_error = [];
  last_probe = none;
  last_change = 1;
  opened_at = none;
}

abbrev history : List (ℕ × Event)
history =
    (1, admitted in_pool [])
    ∷ (2, acquires)
    ∷ (3, failing (codes "eof"))
    ∷ (4, releases)
    ∷ (5, failing (codes "eof"))
    ∷ []

history_opens :
    (run history (new_backend 0 (pos 0) [] (pos 2) (pos 15) (pos 10) (pos 8))).state ≡ circuit_open
unfolding run apply new_backend set_admit mark_failure try_acquire is_selectable release
history_opens = refl

mark_failures-mark_success_example :
    (mark_failures ((10, []) ∷ (11, []) ∷ (12, []) ∷ []) (mark_success 5 sample)).state
    ≡ circuit_open
mark_failures-mark_success_example =
    mark_failures-mark_success 5 10 [] ((11, []) ∷ (12, []) ∷ []) sample

run-IsWellFormed_example : IsWellFormed 9 (run history sample)
run-IsWellFormed_example = run-IsWellFormed 1 9 history sample (omega arith) (record {
  changed = omega arith;
  opened = inl (λ e. cc);
  closed = inl (λ e. cc);
  threshold = omega arith;
})

is_selectable-run_example :
    (is_selectable 30 (run history (new_backend 0 (pos 0) [] (pos 2) (pos 15) (pos 10) (pos 8)))).1
    ≡ true
is_selectable-run_example =
    is_selectable-run 0 6 30 (pos 0) [] (pos 2) (pos 15) (pos 10) (pos 8) history (omega arith)
      (unfold run apply new_backend set_admit mark_failure try_acquire is_selectable release in
        refl)
      (omega arith) (omega arith)

use_all-inflight_example :
    Accounted (use_all history (new_backend 0 (pos 0) [] (pos 2) (pos 15) (pos 10) (pos 8), 0))
use_all-inflight_example =
    use_all-inflight 0 (pos 0) [] (pos 2) (pos 15) (pos 10) (pos 8) history (omega arith)
