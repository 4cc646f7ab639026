-- ===== src/Examples/Interleavings.antt =====
-- Goroutines at once: two calls of TryAcquire on one slot, an Acquire of the limiter, and shutdowns.
use go_multi_warp.Prelude.{
  ℕ, ◌<◌, ℤ, pos, false, ◌≡◌, refl, [], ◌∷◌, some, Bytes, codes, arith, total, to_int32, to_int64,
}
use go_multi_warp.Pool.Backend.Race.{
  System, resting, holding, ask, load, swap, lose, full, pick, Reach, start, later, Exact,
  Reach-Exact,
}
use go_multi_warp.Pool.Limiter.Race
use go_multi_warp.Pool.Limiter.Race.Bounded.{fresh, idle, Honoured, Reach-Honoured}
use go_multi_warp.Config.{Config, default_config}
use go_multi_warp.Proxy.Listen.{
  Drained, drain_timeout, drain, main_exit, serve, accepted, accept_failed, ended, closed,
}
use go_multi_warp.Proxy.Listen.Draining.{Justified, drain-Justified, drain-main_exit}

abbrev two_at_rest : System
two_at_rest = record { inflight = pos 0; threads = resting ∷ resting ∷ [] }

abbrev one_in : System
one_in = record { inflight = pos 1; threads = holding ∷ resting ∷ [] }

-- Both load 0; the first swaps, the second loses, loads again and finds the backend full.
one_wins : Reach (pos 1) two_at_rest one_in
unfolding to_int32
one_wins =
    later
      (later
        (later
          (later
            (later
              (later (later (later start (pick 0 refl ask)) (pick 0 refl load)) (pick 1 refl ask))
              (pick 1 refl load))
            (pick 0 refl (swap refl refl)))
          (pick 1 refl (lose refl (ground arith))))
        (pick 1 refl load))
      (pick 1 refl (full refl))

Reach-Exact_example : Exact (pos 1) one_in
unfolding total
Reach-Exact_example = Reach-Exact (omega arith) (refl, omega arith) one_wins

abbrev limits : Race.Limits
limits = record { max_global = pos 1; max_per_ip = pos 1; max_rps = pos 0 }

abbrev peer : Bytes
peer = codes "10.0.0.1"

-- The first goroutine has counted itself at both counters and is let in, the second one finds the global
-- counter at two and is on its way back.
abbrev one_back : Race.System
one_back = record {
  counters = record { global = pos 2; conns = Race.update (λ ip. pos 0) peer (pos 1) };
  threads = Race.holding peer ∷ Race.back ∷ [];
}

two_arrive : Race.Reach limits (fresh 2) one_back
unfolding idle to_int64
two_arrive =
    Race.later
      (Race.later
        (Race.later
          (Race.later
            (Race.later
              (Race.later (Race.later Race.start (Race.pick 0 refl (Race.arrive peer)))
                (Race.pick 0 refl (Race.pass_global refl refl)))
              (Race.pick 1 refl (Race.arrive peer)))
            (Race.pick 0 refl Race.count_ip))
          (Race.pick 1 refl (Race.refuse_global refl)))
        (Race.pick 0 refl (Race.pass_ip refl)))
      (Race.pick 0 refl Race.admit)

Reach-Honoured_example : Honoured limits peer one_back
Reach-Honoured_example = Reach-Honoured 2 peer (omega arith) two_arrive

abbrev settings : Config
settings = default_config [] []

-- A session that never ends.
abbrev always : ℕ → ℤ
always t = pos 1

drain-Justified_example :
    (d : Drained) × (t : ℕ) × (drain always (λ k. false) settings ≡ some (d, t))
    × Justified always (drain_timeout settings) d t
drain-Justified_example = drain-Justified always (λ k. false) settings

default_drain : drain_timeout settings ≡ 30000000000
unfolding drain_timeout default_config
default_drain = refl

drain-main_exit_example :
    (d : Drained) × (t : ℕ) × (drain always (λ k. false) settings ≡ some (d, t)) × (main_exit < t)
drain-main_exit_example =
    drain-main_exit always (λ k. false) settings (rw default_drain (omega arith)) (λ j l. refl)

serve_run : serve (accepted ∷ accept_failed ∷ accepted ∷ ended ∷ closed ∷ []) (pos 0) ≡ some (pos 1)
unfolding serve to_int64
serve_run = refl
