-- ===== src/Program/Tickers.antt =====
-- The tickers of the parts that main.go starts: Run of health.go and runReconnectLoop of supervisor.go. A
-- goroutine that panics ends the program.
use go_multi_warp.Prelude.{
  ℕ, ◌*◌, ◌≤◌, ℤ, pos, pos_part, ◌+ℤ◌, ◌≤ℤ◌, leb_ℤ, ltb_ℤ, to_int64, ◌≡◌, arith, if◌then◌else◌,
  Bool-cases, inl, inr,
}
use go_multi_warp.Config.{Config, second}
use go_multi_warp.Pool.Select.{Outcome, panic, done}

-- time.NewTicker: the time between two ticks.
abbrev pub new_ticker : ℤ → Outcome ℕ
new_ticker d = if leb_ℤ d (pos 0) then panic else done (pos_part d)

unfoldable pub run_prober : Config → Outcome ℕ
run_prober c = new_ticker c.probe_every

unfoldable pub reconnect_interval : Config → ℤ
reconnect_interval c =
    let interval = to_int64 (c.probe_every +ℤ c.probe_every) in
    if ltb_ℤ interval (pos (5 * second)) then pos (5 * second) else interval

unfoldable pub run_reconnect_loop : Config → Outcome ℕ
unfolding reconnect_interval
run_reconnect_loop c = new_ticker (reconnect_interval c)

reconnect_interval_le : (c : Config) → pos 5000000000 ≤ℤ reconnect_interval c
unfolding reconnect_interval
reconnect_interval_le c =
    elim (Bool-cases (ltb_ℤ (to_int64 (c.probe_every +ℤ c.probe_every)) (pos (5 * second)))) [
      | inl t ↦ rw (t, if◌then◌else◌) (omega arith)
      | inr f ↦ rw (f, if◌then◌else◌) (ground arith)
    ]

ticks_from : (d : ℤ) (n : ℕ) → pos n ≤ℤ d → 1 ≤ n → (m : ℕ) × (new_ticker d ≡ done m) × (n ≤ m)
ticks_from d n l p = (pos_part d, ground arith, ground arith)

-- The supervisor's ticker does not panic, and it ticks no more often than every five seconds, whatever the
-- probe interval.
run_reconnect_loop_le : (c : Config) → (m : ℕ) × (run_reconnect_loop c ≡ done m) × (5000000000 ≤ m)
unfolding run_reconnect_loop
run_reconnect_loop_le c =
    ticks_from (reconnect_interval c) 5000000000 (reconnect_interval_le c) (omega arith)
