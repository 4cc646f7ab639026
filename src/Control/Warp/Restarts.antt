-- ===== src/Control/Warp/Restarts.antt =====
-- internal/control/warpctl_linux.go: StartOne and Restart return.
use go_multi_warp.Prelude.{
  ℕ, ◌+◌, ◌*◌, ◌≤◌, ℤ, pos_part, ◌+ℤ◌, ◌≡◌, refl, sym, ap, subst, Bool, Option, none, some, arith,
}
use go_multi_warp.Config.{Config}
use go_multi_warp.Control.Warp.{
  Host, Machine, unspawned, Command, disconnect, wcli, sleep, millis, configure_proxy_mode,
  after_wait, wait_ready, wait_rounds, write_mdm, start_one, restart,
}
use go_multi_warp.Control.Warp.Waiting.{EndsBy, EndsBy-if, wait_ready-EndsBy, wait_rounds_lem}
use go_multi_warp.Control.Warp.Bounded.{wcli-clock, configure_proxy_mode-clock}

module _ (h : Host) (longest : ℕ)
    (quick : (m : Machine) (c : Command) → h.takes m c ≤ longest) where
  after_wait-EndsBy :
      (c : Config) (forced : Bool) (id : ℤ) (limit : ℕ) (o : Option (Machine × Bool))
      → EndsBy limit o
      → EndsBy (limit + 482000000000 + 18 * longest) (after_wait h c forced id o)
  after_wait-EndsBy c forced id limit none (m, ready, e, l) = absurd (cc)
  after_wait-EndsBy c forced id limit (some (n, ready)) (m, r, e, l) =
      let same : n ≡ m = ground (arith, e) in
      let by = configure_proxy_mode-clock h longest quick c forced id (c.base_port +ℤ id) n in
      let at : n.clock ≡ m.clock = ap (λ k. k.clock) same in
      (
        (configure_proxy_mode h c forced id (c.base_port +ℤ id) n).0,
        (configure_proxy_mode h c forced id (c.base_port +ℤ id) n).1,
        refl,
        omega arith,
      )

  wait-EndsBy :
      (timeout : ℤ) (m : Machine)
      → EndsBy
          (m.clock + pos_part timeout + 800000000 + longest)
          (wait_ready h timeout (wait_rounds timeout) m.clock m)
  wait-EndsBy timeout m =
      let (k, e, l) = wait_rounds_lem timeout in
      subst
        (λ r.
          EndsBy (m.clock + pos_part timeout + 800000000 + longest)
            (wait_ready h timeout r m.clock m))
        (sym e) (wait_ready-EndsBy h longest quick timeout m.clock k m (omega arith) (omega arith))

  pub start_one-EndsBy :
      (c : Config) (forced : Bool) (id : ℤ) (m : Machine)
      → EndsBy
          (m.clock + pos_part c.control.warp_conn_timeout + 483200000000 + 19 * longest)
          (start_one h c forced id m)
  unfolding start_one
  start_one-EndsBy c forced id m =
      let timeout = c.control.warp_conn_timeout in
      let m1 = sleep (millis 400) (write_mdm c (c.base_port +ℤ id) m) in
      let at : m1.clock ≡ m.clock + 400000000 = ground arith in
      EndsBy-if (m.clock + pos_part timeout + 483200000000 + 19 * longest) (h.spawns m1) _ _
        (λ t.
          let (n, f, e, l) =
            after_wait-EndsBy c forced id (m1.clock + pos_part timeout + 800000000 + longest)
              (wait_ready h timeout (wait_rounds timeout) m1.clock m1) (wait-EndsBy timeout m1) in
          (n, f, e, omega arith))
        (λ t. (m1, some unspawned, refl, omega arith))

  -- If no command takes longer than `longest`, Restart returns, within the time that waitReady is given,
  -- 483.7 seconds and the time of 20 commands, whatever the processes answer: the rounds of waitReady
  -- that are modelled are enough.
  pub restart-EndsBy :
      (c : Config) (forced : Bool) (id : ℤ) (m : Machine)
      → EndsBy
          (m.clock + pos_part c.control.warp_conn_timeout + 483700000000 + 20 * longest)
          (restart h c forced id m)
  unfolding restart
  restart-EndsBy c forced id m =
      let m1 = sleep (millis 500) (wcli h disconnect m).0 in
      let one = wcli-clock h longest quick disconnect m in
      let (n, f, e, l) = start_one-EndsBy c forced id m1 in (n, f, e, omega arith)
