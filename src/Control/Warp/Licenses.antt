-- ===== src/Control/Warp/Licenses.antt =====
-- internal/control/warpctl_linux.go: the license that is applied to a registration.
use go_multi_warp.Prelude.{
  ℕ, zero, suc, ℤ, ◌≡◌, refl, ◌∙◌, Bool, true, false, Option, none, some, Bytes, is_empty, arith,
  ◌+ℤ◌,
}
use go_multi_warp.Config.{Config, license_key_for}
use go_multi_warp.Control.Warp.{
  Host, Machine, Failure, Command, registration_new, registration_license, registration_delete,
  disconnect, mode_proxy, connect, proxy_port, wcli, or_fail, disable_qlog, connect_last, set_port,
  set_proxy, register, rereg_backoff, apply_license, after_register, reregister, sleep, millis,
  remove_key, remove_reg, drop_old, configure_proxy_mode,
}

register-key_file :
    (h : Host) (backoff : ℕ → ℕ) (left attempt : ℕ) (m : Machine)
    → (register h backoff left attempt m).0.key_file ≡ m.key_file
unfolding register wcli
register-key_file h backoff zero attempt m = refl
register-key_file h backoff (suc left) attempt m =
    let rest =
      register-key_file h backoff left (suc attempt)
        (sleep (backoff attempt) (wcli h registration_new m).0) in
    ground arith

or_fail-key_file :
    (h : Host) (c : Command) (next : Machine → Machine × Option Failure) (m : Machine)
    → (next (wcli h c m).0).0.key_file ≡ m.key_file
    → (or_fail c next (wcli h c m)).0.key_file ≡ m.key_file
unfolding wcli
or_fail-key_file h c next m r = step (h.answers m c)
  where
    step : (o : Option Bytes) → (or_fail c next ((wcli h c m).0, o)).0.key_file ≡ m.key_file
    step none = refl
    step (some out) = r

set_proxy-key_file :
    (h : Host) (port : ℤ) (m : Machine) → (set_proxy h port m).0.key_file ≡ m.key_file
unfolding set_proxy wcli
set_proxy-key_file h port m =
    let m1 = (wcli h mode_proxy m).0 in
    let m2 = (wcli h (proxy_port port) m1).0 in
    or_fail-key_file h mode_proxy (set_port h port) m (
      or_fail-key_file h (proxy_port port) (connect_last h) m1
        (or_fail-key_file h connect (disable_qlog h) m2 refl))

-- The registration of a Reregister: the machine at which it applies the license, if it succeeded.
abbrev pub registration : Host → Machine → Machine × Bool
registration h m = register h rereg_backoff 8 1 (
    sleep (millis 500)
      (remove_key (remove_reg (wcli h registration_delete (wcli h disconnect m).0).0)))

-- The one call of a Reregister that applies this license ends with an error.
abbrev pub IsRefused : Host → Machine → Bytes → Type 0
IsRefused h m want = h.answers (registration h m).0 (registration_license want) ≡ none

apply_license-key_file :
    (h : Host) (want : Bytes) (m : Machine)
    → h.answers m (registration_license want) ≡ none
    → (apply_license h want m).key_file ≡ m.key_file
unfolding apply_license wcli
apply_license-key_file h want m refusal = ground arith

after_register-key_file :
    (h : Host) (c : Config) (id : ℤ) (r : Machine × Bool)
    → h.answers r.0 (registration_license (license_key_for id c)) ≡ none
    → (after_register h c id r).0.key_file ≡ r.0.key_file
after_register-key_file h c id (m, false) refusal = refl
after_register-key_file h c id (m, true) refusal =
    set_proxy-key_file h (c.base_port +ℤ id) (apply_license h (license_key_for id c) m)
    ∙ apply_license-key_file h (license_key_for id c) m refusal

reregister-key_file :
    (h : Host) (c : Config) (id : ℤ) (m : Machine)
    → IsRefused h m (license_key_for id c)
    → (reregister h c id m).0.key_file ≡ none
unfolding reregister
reregister-key_file h c id m refusal =
    let m1 =
      sleep (millis 500)
        (remove_key (remove_reg (wcli h registration_delete (wcli h disconnect m).0).0)) in
    after_register-key_file h c id (registration h m) refusal
    ∙ register-key_file h rereg_backoff 8 1 m1

configure_registered :
    (h : Host) (c : Config) (id port : ℤ) (m : Machine)
    → is_empty c.control.org ≡ true
    → m.reg_file ≡ true
    → m.key_file ≡ none
    → configure_proxy_mode h c false id port m ≡ set_proxy h port m
unfolding configure_proxy_mode drop_old
configure_registered h c id port m o r k = ground arith

-- A Reregister in which the one call that applies the license is refused, and which leaves a registration:
-- the next time that an instance is configured with what it leaves, unless it is forced to register
-- again or there is an organisation, only the proxy mode is set. The license is not tried, even if
-- warp-cli would take it by then (`later`).
pub reregister-configure_proxy_mode :
    (h later : Host) (c : Config) (id port : ℤ) (m : Machine)
    → IsRefused h m (license_key_for id c)
    → is_empty c.control.org ≡ true
    → (reregister h c id m).0.reg_file ≡ true
    → configure_proxy_mode later c false id port (reregister h c id m).0
      ≡ set_proxy later port (reregister h c id m).0
reregister-configure_proxy_mode h later c id port m refusal o r =
    configure_registered later c id port (reregister h c id m).0 o r
      (reregister-key_file h c id m refusal)
