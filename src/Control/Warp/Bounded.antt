-- ===== src/Control/Warp/Bounded.antt =====
-- internal/control/warpctl_linux.go: how long the calls of the controller last.
use go_multi_warp.Prelude.{
  ℕ, zero, suc, ◌+◌, ◌*◌, ◌≤◌, ℤ, ◌+ℤ◌, ◌≡◌, refl, Bool, true, false, Option, none, some, Bytes,
  arith,
}
use go_multi_warp.Config.{Config, license_key_for}
use go_multi_warp.Control.Warp.{
  Host, Machine, Failure, Command, mode_proxy, proxy_port, connect, qlog_disable, registration_new,
  registration_license, registration_delete, disconnect, wcli, or_fail, disable_qlog, connect_last,
  set_port, set_proxy, register, start_backoff, rereg_backoff, apply_license, keep_key,
  after_register, reregister, sleep, millis, remove_key, remove_reg, drop_old, drop_changed,
  register_anew, configure_proxy_mode,
}

-- The delays after `left` attempts from `attempt` on, with `longest` for each command.
unfoldable delays : (ℕ → ℕ) → ℕ → ℕ → ℕ → ℕ
delays backoff longest zero attempt = 0
delays backoff longest (suc left) attempt =
    longest + backoff attempt + delays backoff longest left (suc attempt)

-- No command takes longer than `longest`.
module _ (h : Host) (longest : ℕ)
    (quick : (m : Machine) (c : Command) → h.takes m c ≤ longest) where
  pub wcli-clock : (c : Command) (m : Machine) → (wcli h c m).0.clock ≤ m.clock + longest
  unfolding wcli
  wcli-clock c m = let brief = quick m c in omega arith

  register-clock :
      (backoff : ℕ → ℕ) (left attempt : ℕ) (m : Machine)
      → (register h backoff left attempt m).0.clock ≤ m.clock + delays backoff longest left attempt
  unfolding register delays wcli
  register-clock backoff zero attempt m = omega arith
  register-clock backoff (suc left) attempt m =
      let brief = quick m registration_new in
      let rest =
        register-clock backoff left (suc attempt)
          (sleep (backoff attempt) (wcli h registration_new m).0) in
      ground arith

  apply_license-clock :
      (want : Bytes) (m : Machine) → (apply_license h want m).clock ≤ m.clock + longest
  unfolding apply_license wcli
  apply_license-clock want m =
      let brief = quick m (registration_license want) in
      let kept = keep (h.answers m (registration_license want)) in ground arith
    where
      keep :
          (o : Option Bytes)
          → (keep_key want ((wcli h (registration_license want) m).0, o)).clock
            ≡ m.clock + h.takes m (registration_license want)
      keep none = refl
      keep (some out) = refl

  or_fail-clock :
      (limit : ℕ) (c : Command) (next : Machine → Machine × Option Failure) (m : Machine)
      → m.clock + longest ≤ limit
      → ((n : Machine) → n.clock ≤ m.clock + longest → (next n).0.clock ≤ limit)
      → (or_fail c next (wcli h c m)).0.clock ≤ limit
  or_fail-clock limit c next m l f = step ((wcli h c m).0) ((wcli h c m).1) (wcli-clock c m)
    where
      step :
          (n : Machine) (o : Option Bytes)
          → n.clock ≤ m.clock + longest
          → (or_fail c next (n, o)).0.clock ≤ limit
      step n none b = omega arith
      step n (some out) b = f n b

  set_proxy-clock : (port : ℤ) (m : Machine) → (set_proxy h port m).0.clock ≤ m.clock + 4 * longest
  unfolding set_proxy
  set_proxy-clock port m =
      or_fail-clock (m.clock + 4 * longest) mode_proxy (set_port h port) m (omega arith) (λ m1 b1.
        or_fail-clock (m.clock + 4 * longest) (proxy_port port) (connect_last h) m1 (omega arith)
          (λ m2 b2.
            or_fail-clock (m.clock + 4 * longest) connect (disable_qlog h) m2 (omega arith)
              (λ m3 b3. let b4 = wcli-clock qlog_disable m3 in omega arith)))

  after_register-clock :
      (c : Config) (id : ℤ) (r : Machine × Bool)
      → (after_register h c id r).0.clock ≤ r.0.clock + 5 * longest
  after_register-clock c id (m, false) = omega arith
  after_register-clock c id (m, true) =
      let one = apply_license-clock (license_key_for id c) m in
      let two = set_proxy-clock (c.base_port +ℤ id) (apply_license h (license_key_for id c) m) in
      omega arith

  reregister_delays : delays rereg_backoff longest 8 1 ≡ 72000000000 + 8 * longest
  unfolding delays rereg_backoff
  reregister_delays = omega arith

  start_delays : delays start_backoff longest 12 1 ≡ 482000000000 + 12 * longest
  unfolding delays start_backoff
  start_delays = omega arith

  -- If no command takes longer than `longest`, Reregister returns within 72.5 seconds and the time of 15
  -- commands: so long it holds the mutex of the uniqueness engine at most.
  reregister-clock :
      (c : Config) (id : ℤ) (m : Machine)
      → (reregister h c id m).0.clock ≤ m.clock + 72500000000 + 15 * longest
  unfolding reregister
  reregister-clock c id m =
      let m1 = (wcli h disconnect m).0 in
      let m2 = sleep (millis 500) (remove_key (remove_reg (wcli h registration_delete m1).0)) in
      let one = wcli-clock disconnect m in
      let two = wcli-clock registration_delete m1 in
      let three = register-clock rereg_backoff 8 1 m2 in
      let four = after_register-clock c id (register h rereg_backoff 8 1 m2) in
      let five = reregister_delays in omega arith

  drop_old-clock :
      (forced : Bool) (want : Bytes) (m : Machine)
      → (drop_old h forced want m).clock ≤ m.clock + longest
  unfolding drop_old
  drop_old-clock forced want m =
      let one = wcli-clock registration_delete (remove_key (remove_reg m)) in
      let two = changed m.key_file in ground arith
    where
      changed : (o : Option Bytes) → (drop_changed h want o m).clock ≤ m.clock + longest
      changed none = omega arith
      changed (some prev) = let one = wcli-clock registration_delete (remove_reg m) in ground arith

  register_anew-clock :
      (want : Bytes) (m : Machine)
      → (register_anew h want m).clock ≤ m.clock + 482000000000 + 13 * longest
  register_anew-clock want m =
      let one = register-clock start_backoff 12 1 m in
      let two = apply_license-clock want (register h start_backoff 12 1 m).0 in
      let three = start_delays in ground arith

  pub configure_proxy_mode-clock :
      (c : Config) (forced : Bool) (id port : ℤ) (m : Machine)
      → (configure_proxy_mode h c forced id port m).0.clock ≤ m.clock + 482000000000 + 18 * longest
  unfolding configure_proxy_mode
  configure_proxy_mode-clock c forced id port m =
      let m1 = drop_old h forced (license_key_for id c) m in
      let m2 = register_anew h (license_key_for id c) m1 in
      let one = wcli-clock connect m in
      let two = wcli-clock qlog_disable (wcli h connect m).0 in
      let three = drop_old-clock forced (license_key_for id c) m in
      let four = register_anew-clock (license_key_for id c) m1 in
      let five = set_proxy-clock port m2 in ground arith
