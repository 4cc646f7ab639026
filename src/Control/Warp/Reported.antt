-- ===== src/Control/Warp/Reported.antt =====
-- internal/control/warpctl_linux.go: what the commands that configure the proxy mode report.
use go_multi_warp.Prelude.{
  ℤ, ◌≡◌, refl, ap, Bool, true, false, List, [], ◌∷◌, ◌++◌, Option, none, some, Bytes, ◌+ℤ◌,
}
use go_multi_warp.Config.{Config, license_key_for}
use go_multi_warp.Control.Warp.{
  Host, Machine, Failure, unspawned, unregistered, refused, Command, mode_proxy, proxy_port,
  connect, qlog_disable, registration_delete, disconnect, wcli, or_fail, disable_qlog, connect_last,
  set_port, set_proxy, register, rereg_backoff, apply_license, after_register, reregister, sleep,
  millis, remove_key, remove_reg,
}

-- Without an error, the last commands set the proxy mode with this port; and a command that was refused
-- is the last one.
abbrev pub Reported : ℤ → Machine × Option Failure → Type 0
Reported port (m, none) =
    (earlier : List Command) × (m.calls
      ≡ earlier ++ (mode_proxy ∷ proxy_port port ∷ connect ∷ qlog_disable ∷ []))
Reported port (m, some (refused c)) = (earlier : List Command) × (m.calls ≡ earlier ++ (c ∷ []))
Reported port (m, some unspawned) = Unit {0}
Reported port (m, some unregistered) = Unit {0}

or_fail-Reported :
    (port : ℤ) (c : Command) (next : Machine → Machine × Option Failure) (h : Host) (m : Machine)
    → Reported port (next (wcli h c m).0)
    → Reported port (or_fail c next (wcli h c m))
unfolding wcli
or_fail-Reported port c next h m r = step (h.answers m c)
  where
    step : (o : Option Bytes) → Reported port (or_fail c next ((wcli h c m).0, o))
    step none = (m.calls, refl)
    step (some out) = r

append_four :
    (cs : List Command) (a b c d : Command)
    → (((cs ++ (a ∷ [])) ++ (b ∷ [])) ++ (c ∷ [])) ++ (d ∷ []) ≡ cs ++ (a ∷ b ∷ c ∷ d ∷ [])
append_four [] a b c d = refl
append_four (e ∷ cs) a b c d = ap (λ ds. e ∷ ds) (append_four cs a b c d)

pub set_proxy-Reported : (h : Host) (port : ℤ) (m : Machine) → Reported port (set_proxy h port m)
unfolding set_proxy wcli
set_proxy-Reported h port m =
    let m1 = (wcli h mode_proxy m).0 in
    let m2 = (wcli h (proxy_port port) m1).0 in
    let m3 = (wcli h connect m2).0 in
    let last : Reported port ((wcli h qlog_disable m3).0, none) =
      (m.calls, append_four m.calls mode_proxy (proxy_port port) connect qlog_disable) in
    or_fail-Reported port mode_proxy (set_port h port) h m (
      or_fail-Reported port (proxy_port port) (connect_last h) h m1
        (or_fail-Reported port connect (disable_qlog h) h m2 last))

after_register-Reported :
    (h : Host) (c : Config) (id : ℤ) (r : Machine × Bool)
    → Reported (c.base_port +ℤ id) (after_register h c id r)
after_register-Reported h c id (m, false) = tt
after_register-Reported h c id (m, true) =
    set_proxy-Reported h (c.base_port +ℤ id) (apply_license h (license_key_for id c) m)

-- If Reregister gives no error, its last four commands set the proxy mode, with the port of the
-- instance, and connect; and if a command was refused, it stops there.
reregister-Reported :
    (h : Host) (c : Config) (id : ℤ) (m : Machine)
    → Reported (c.base_port +ℤ id) (reregister h c id m)
unfolding reregister
reregister-Reported h c id m = after_register-Reported h c id (
    register h rereg_backoff 8 1 (
      sleep (millis 500)
        (remove_key (remove_reg (wcli h registration_delete (wcli h disconnect m).0).0))))
