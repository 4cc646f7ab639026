-- ===== src/Examples/Pools.antt =====
-- A pool of internal/pool/pool.go with two backends.
use go_multi_warp.Prelude.{ℕ, pos, ◌≡◌, refl, List, [], ◌∷◌, Option, some, codes, arith}
use go_multi_warp.Config.{round_robin}
use go_multi_warp.Pool.Backend.{Backend, healthy, is_selectable, try_acquire}
use go_multi_warp.Pool.Registry.{Pool, healthy_from}
use go_multi_warp.Pool.Select.{
  panic, done, Selection, acquire_at, least_loop, pick_rr, pick_least_conn, pick_sticky, select,
}
use go_multi_warp.Pool.Select.Slots.{taken, places}
use go_multi_warp.Pool.Select.RoundRobin.{pick_rr_turn}
use go_multi_warp.Pool.Select.Lightest.{NoLighter, pick_least_conn-NoLighter}
use go_multi_warp.Pool.Select.Sticky.{StickyAnswers, pick_sticky-StickyAnswers, pick_sticky-panic}
use go_multi_warp.Pool.Select.Polls.{Promised}
use go_multi_warp.Pool.Select.Outcomes.{select-Promised}
use go_multi_warp.Examples.Backends.{sample}

abbrev second : Backend
second = record sample {
  id = pos 1;
  addr = codes "127.0.0.1:40001";
  inflight = pos 0;
  state = healthy;
  fails = 0;
}

abbrev pair : List Backend
pair = sample ∷ second ∷ []

abbrev pub small_pool : Pool
small_pool = record {
  backends = pair;
  index = (pos 1, 1) ∷ (pos 0, 0) ∷ [];
  strategy = round_robin;
  sticky_ttl = pos 600;
  sticky = [];
  rr = 1;
  selects = 1;
  select_fail = 0;
  success = 0;
  failure = 0;
}

-- The first backend is busy in its time of failure: at 3 the second gets the request.
least_conn_run : (pick_least_conn 30 pair).1 ≡ some 1
unfolding pick_least_conn healthy_from is_selectable least_loop acquire_at try_acquire
least_conn_run = refl

select-Promised_example :
    (q : Pool) × (s : Selection) × (select 30 7 small_pool ≡ done (q, s))
    × Promised 30 pair q.backends s
select-Promised_example = select-Promised 30 7 small_pool (omega arith) (omega arith)

pick_rr_turn_example : pick_rr 30 1 pair ≡ done ((sample ∷ taken second ∷ [], some 1), 2)
unfolding is_selectable
pick_rr_turn_example =
    pick_rr_turn 30 1 1 pair second (omega arith) (unfold places is_selectable in refl) refl
      (unfold is_selectable in refl)

pick_least_conn-NoLighter_example : NoLighter 30 pair second
pick_least_conn-NoLighter_example =
    pick_least_conn-NoLighter 30 1 pair second (omega arith, (omega arith, tt)) least_conn_run refl

pick_sticky-StickyAnswers_example :
    (q : List Backend × Option ℕ) × (pick_sticky 30 7 pair ≡ done q) × StickyAnswers 30 7 pair q
pick_sticky-StickyAnswers_example = pick_sticky-StickyAnswers 30 7 pair (omega arith)

pick_sticky-panic_example : pick_sticky 30 0xcbf29ce484222325 pair ≡ panic
pick_sticky-panic_example =
    pick_sticky-panic 30 0xcbf29ce484222325 pair (omega arith) (omega arith)
      (unfold places is_selectable in omega arith) (unfold places is_selectable in omega arith)
