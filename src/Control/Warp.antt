-- ===== src/Control/Warp.antt =====
-- internal/control/warpctl_linux.go: the controller of one instance. Processes are the parameter `host`:
-- what warp-cli answers to a command on the machine as it is, how long it takes, and if it leaves a
-- reg.json. The directories are made, and files are written and removed, without error.
pub mod Waiting
pub mod Bounded
pub mod Reported
pub mod Restarts
pub mod Licenses
pub mod Fleet
use go_multi_warp.Prelude.{
  ℕ, zero, suc, ◌+◌, ◌-◌, ◌*◌, ◌/◌, ◌^◌, ℤ, pos, pos_part, ◌+ℤ◌, sub_ℕ, ltb_ℤ, ltb, Bool, true,
  false, not, ◌&&◌, ◌||◌, List, [], ◌∷◌, ◌++◌, Option, none, some, Bytes, bytes_eq, is_empty, codes,
  if◌then◌else◌,
}
use go_multi_warp.Std.{has_prefix, trim_space, itoa}
use go_multi_warp.Config.{Config, license_key_for}

-- The arguments of warp-cli.
pub data Command : Type 0 where
  status connect disconnect qlog_disable registration_new registration_delete mode_proxy : Command
  registration_license : Bytes → Command
  proxy_port : ℤ → Command

-- One instance: the files in its data directory, the commands that were sent to it, and the clock.
pub record Machine : Type 0 where
  pub reg_file : Bool
  pub key_file : Option Bytes
  pub mdm : Option Bytes
  pub calls : List Command
  pub clock : ℕ

pub record Host : Type 0 where
  pub answers : Machine → Command → Option Bytes  -- the output, if there is no error
  pub registered : Machine → Command → Bool
  pub takes : Machine → Command → ℕ
  pub spawns : Machine → Bool  -- warp-svc starts

pub data Failure : Type 0 where
  unspawned unregistered : Failure
  refused : Command → Failure

unfoldable pub wcli : Host → Command → Machine → Machine × Option Bytes
wcli h c m = (
  record m {
    reg_file = h.registered m c;
    calls = m.calls ++ (c ∷ []);
    clock = m.clock + h.takes m c;
  },
  h.answers m c,
)

abbrev pub sleep : ℕ → Machine → Machine
sleep ns m = record m { clock = m.clock + ns }

abbrev pub millis : ℕ → ℕ
millis k = k * 1000000

abbrev pub second : ℕ
second = 1000000000

-- 1<<attempt seconds, at most 60
unfoldable pub start_backoff : ℕ → ℕ
start_backoff attempt =
    if ltb (60 * second) (2 ^ attempt * second) then 60 * second else 2 ^ attempt * second

-- 2 * attempt seconds, at most 20
unfoldable pub rereg_backoff : ℕ → ℕ
rereg_backoff attempt =
    if ltb (20 * second) (attempt * (2 * second)) then 20 * second else attempt * (2 * second)

abbrev pub is_ok : Option Bytes → Bool
is_ok none = false
is_ok (some out) = true

-- The loop of `registration new` from `attempt` on, with `left` rounds to go.
unfoldable pub register : Host → (ℕ → ℕ) → ℕ → ℕ → Machine → Machine × Bool
unfolding wcli
register h backoff zero attempt m = (m, false)
register h backoff (suc left) attempt m =
    let (m1, out) = wcli h registration_new m in
    let rest = register h backoff left (suc attempt) (sleep (backoff attempt) m1) in
    if is_ok out then (m1, true) else rest

abbrev pub keep_key : Bytes → Machine × Option Bytes → Machine
keep_key want (m, none) = m
keep_key want (m, some out) = record m { key_file = some (want ++ codes "\n") }

unfoldable pub apply_license : Host → Bytes → Machine → Machine
apply_license h want m =
    if is_empty want then m else keep_key want (wcli h (registration_license want) m)

-- if _, err := w.wcli(...); err != nil { return err }
abbrev pub or_fail :
    Command
    → (Machine → Machine × Option Failure)
    → Machine × Option Bytes
    → Machine × Option Failure
or_fail c next (m, none) = (m, some (refused c))
or_fail c next (m, some out) = next m

abbrev pub disable_qlog : Host → Machine → Machine × Option Failure
disable_qlog h m = ((wcli h qlog_disable m).0, none)

abbrev pub connect_last : Host → Machine → Machine × Option Failure
connect_last h m = or_fail connect (disable_qlog h) (wcli h connect m)

abbrev pub set_port : Host → ℤ → Machine → Machine × Option Failure
set_port h port m = or_fail (proxy_port port) (connect_last h) (wcli h (proxy_port port) m)

unfoldable pub set_proxy : Host → ℤ → Machine → Machine × Option Failure
unfolding wcli
set_proxy h port m = or_fail mode_proxy (set_port h port) (wcli h mode_proxy m)

abbrev pub remove_reg : Machine → Machine
remove_reg m = record m { reg_file = false }

abbrev pub remove_key : Machine → Machine
remove_key m = record m { key_file = none }

abbrev pub drop_changed : Host → Bytes → Option Bytes → Machine → Machine
drop_changed h want none m = m
drop_changed h want (some prev) m =
    if bytes_eq (trim_space prev) want then m else (wcli h registration_delete (remove_reg m)).0

-- Drops the registration if that is forced, or if another license was applied.
unfoldable pub drop_old : Host → Bool → Bytes → Machine → Machine
unfolding wcli
drop_old h forced want m =
    if forced
    then (wcli h registration_delete (remove_key (remove_reg m))).0
    else if not (is_empty want)
    then drop_changed h want m.key_file m
    else m

abbrev pub register_anew : Host → Bytes → Machine → Machine
register_anew h want m =
    if m.reg_file then m else apply_license h want (register h start_backoff 12 1 m).0

unfoldable pub configure_proxy_mode :
    Host → Config → Bool → ℤ → ℤ → Machine → Machine × Option Failure
unfolding drop_old register apply_license set_proxy
configure_proxy_mode h c forced id port m =
    if not (is_empty c.control.org)
    then ((wcli h qlog_disable (wcli h connect m).0).0, none)
    else set_proxy h port
        (register_anew h (license_key_for id c) (drop_old h forced (license_key_for id c) m))

abbrev pub after_register : Host → Config → ℤ → Machine × Bool → Machine × Option Failure
after_register h c id (m, false) = (m, some unregistered)
after_register h c id (m, true) =
    set_proxy h (c.base_port +ℤ id) (apply_license h (license_key_for id c) m)

unfoldable pub reregister : Host → Config → ℤ → Machine → Machine × Option Failure
unfolding register apply_license set_proxy
reregister h c id m = after_register h c id (
    register h rereg_backoff 8 1 (
      sleep (millis 500)
        (remove_key (remove_reg (wcli h registration_delete (wcli h disconnect m).0).0))))

-- strings.Contains(s, sub)
unfoldable pub contains : Bytes → Bytes → Bool
contains [] sub = is_empty sub
contains (c ∷ s) sub = let rest = contains s sub in has_prefix sub (c ∷ s) || rest

abbrev pub is_ready : Option Bytes → Bool
is_ready none = false
is_ready (some out) =
    contains out (codes "Status")
    || (contains out (codes "Connected") || contains out (codes "Connecting"))

-- The loop of waitReady since `start`, for at most `rounds` rounds: if the instance got ready.
unfoldable pub wait_ready : Host → ℤ → ℕ → ℕ → Machine → Option (Machine × Bool)
unfolding wcli contains
wait_ready h timeout zero start m = none
wait_ready h timeout (suc rounds) start m =
    let (m1, out) = wcli h status m in
    let rest = wait_ready h timeout rounds start (sleep (millis 800) m1) in
    if ltb_ℤ timeout (sub_ℕ m.clock start)
    then some (m, false)
    else if is_ready out
    then some (m1, true)
    else rest

-- A round lasts 800 ms at least.
unfoldable pub wait_rounds : ℤ → ℕ
wait_rounds timeout = pos_part timeout / 800000000 + 2

unfoldable pub mdm_body : Config → ℤ → Bytes
mdm_body c port =
    codes "<dict>\n  <key>organization</key>\n  <string>"
    ++ (c.control.org
        ++ (codes "</string>\n  <key>auth_client_id</key>\n  <string>"
            ++ (c.control.auth_client_id
                ++ (codes "</string>\n  <key>auth_client_secret</key>\n  <string>"
                    ++ (c.control.auth_client_secret
                        ++ (codes
                              "</string>\n  <key>service_mode</key>\n  <string>proxy</string>\n  <key>proxy_port</key>\n  <integer>"
                            ++ (itoa port
                                ++ codes
                                    "</integer>\n  <key>auto_connect</key>\n  <integer>1</integer>\n  <key>switch_locked</key>\n  <true/>\n  <key>onboarding</key>\n  <false/>\n</dict>\n")))))))

abbrev pub write_mdm : Config → ℤ → Machine → Machine
write_mdm c port m = if is_empty c.control.org then m else record m { mdm = some (mdm_body c port) }

abbrev pub after_wait :
    Host → Config → Bool → ℤ → Option (Machine × Bool) → Option (Machine × Option Failure)
after_wait h c forced id none = none
after_wait h c forced id (some (m, ready)) =
    some (configure_proxy_mode h c forced id (c.base_port +ℤ id) m)

unfoldable pub start_one : Host → Config → Bool → ℤ → Machine → Option (Machine × Option Failure)
unfolding configure_proxy_mode wait_ready mdm_body
start_one h c forced id m =
    let m1 = sleep (millis 400) (write_mdm c (c.base_port +ℤ id) m) in
    if h.spawns m1
    then after_wait h c forced id (
        wait_ready h c.control.warp_conn_timeout (wait_rounds c.control.warp_conn_timeout) m1.clock
          m1)
    else some (m1, some unspawned)

unfoldable pub restart : Host → Config → Bool → ℤ → Machine → Option (Machine × Option Failure)
unfolding start_one
restart h c forced id m = start_one h c forced id (sleep (millis 500) (wcli h disconnect m).0)

unfoldable pub reconnect : Host → Machine → Machine × Option Failure
unfolding wcli
reconnect h m = or_fail connect (λ m1. (m1, none)) (wcli h connect m)
