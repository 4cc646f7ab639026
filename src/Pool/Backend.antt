-- ===== src/Pool/Backend.antt =====
-- internal/pool/backend.go: a backend's circuit breaker, its admission phase and its in-flight count.
-- A method takes the clock's reading `now` (nanoseconds) where the source calls time.Now, once for
-- each call, and returns the new state. The fields of `innerState` stand in the record itself.
-- `fails` and `unique_tries` count one event each and are left unbounded.
pub mod History
pub mod Race
pub mod Breaker
pub mod Recovery
pub mod Capacity
use go_multi_warp.Prelude.{
  ℕ, suc, ◌+◌, ℤ, pos, negsuc, sub_ℕ, leb_ℤ, ltb_ℤ, quot, add32, inc_u64, Bool, true, false, ◌&&◌,
  ◌||◌, Option, none, some, [], Bytes, codes, is_empty, if◌then◌else◌,
}

pub data State : Type 0 where
  unknown healthy degraded unhealthy circuit_open : State

abbrev pub state_string : State → Bytes
state_string healthy = codes "healthy"
state_string degraded = codes "degraded"
state_string unhealthy = codes "unhealthy"
state_string circuit_open = codes "circuit_open"
state_string unknown = codes "unknown"

abbrev pub state_is : State → State → Bool
state_is unknown unknown = true
state_is healthy healthy = true
state_is degraded degraded = true
state_is unhealthy unhealthy = true
state_is circuit_open circuit_open = true
state_is _ _ = false

pub record ProbeInfo : Type 0 where
  pub warp : Bytes
  pub ip : Bytes
  pub loc : Bytes
  pub latency_ms : ℤ

pub data AdmitPhase : Type 0 where
  warming in_pool parked : AdmitPhase

abbrev pub admit_string : AdmitPhase → Bytes
admit_string in_pool = codes "in_pool"
admit_string parked = codes "parked"
admit_string warming = codes "warming"

abbrev pub is_in_pool : AdmitPhase → Bool
is_in_pool in_pool = true
is_in_pool _ = false

pub record Backend : Type 0 where
  pub id : ℤ
  pub addr : Bytes
  pub max_fails : ℤ
  pub fail_timeout : ℤ  -- time.Duration
  pub open_after : ℤ  -- time.Duration
  pub max_inflight : ℤ  -- int32
  pub inflight : ℤ  -- int32
  pub success_total : ℕ  -- uint64
  pub fail_total : ℕ  -- uint64
  pub state : State
  pub admit : AdmitPhase
  pub egress_ipv4 : Bytes
  pub unique_tries : ℕ
  pub fails : ℕ
  pub last_error : Bytes
  pub last_probe : Option ProbeInfo
  pub last_change : ℕ
  pub opened_at : Option ℕ

-- A configured value below 1 counts as 1.
abbrev pub at_least_one : ℤ → ℤ
at_least_one n = if ltb_ℤ n (pos 1) then pos 1 else n

unfoldable pub new_backend : ℕ → ℤ → Bytes → ℤ → ℤ → ℤ → ℤ → Backend
new_backend now id addr max_fails fail_timeout open_after max_inflight = record {
  id = id;
  addr = addr;
  max_fails = at_least_one max_fails;
  fail_timeout = fail_timeout;
  open_after = open_after;
  max_inflight = at_least_one max_inflight;
  inflight = pos 0;
  success_total = 0;
  fail_total = 0;
  state = unknown;
  admit = warming;
  egress_ipv4 = [];
  unique_tries = 0;
  fails = 0;
  last_error = [];
  last_probe = none;
  last_change = now;
  opened_at = none;
}

abbrev pub has_capacity : Backend → Bool
has_capacity b = ltb_ℤ b.inflight b.max_inflight

-- time.Since(t) >= d
abbrev pub has_elapsed : ℕ → ℕ → ℤ → Bool
has_elapsed now t d = leb_ℤ d (sub_ℕ now t)

abbrev pub opened_elapsed : ℕ → Option ℕ → ℤ → Bool
opened_elapsed now none d = false
opened_elapsed now (some t) d = has_elapsed now t d

-- The `switch` of IsSelectable.
selectable_in : ℕ → State → Backend → Backend × Bool
selectable_in now healthy b = (b, true)
selectable_in now degraded b = (b, true)
selectable_in now unknown b = (b, true)
selectable_in now unhealthy b =
    if has_elapsed now b.last_change b.fail_timeout
    then (record b { state = degraded; last_change = now }, true)
    else (b, false)
selectable_in now circuit_open b =
    if opened_elapsed now b.opened_at b.open_after
    then (record b { state = degraded; fails = 0; last_change = now; opened_at = none }, true)
    else (b, false)

unfoldable pub is_selectable : ℕ → Backend → Backend × Bool
unfolding selectable_in
is_selectable now b = if is_in_pool b.admit then selectable_in now b.state b else (b, false)

-- The compare-and-swap loop of TryAcquire, run with no other thread at work.
abbrev acquire_slot : Backend × Bool → Backend × Bool
acquire_slot (b, ok) =
    if ok
    then if leb_ℤ b.max_inflight b.inflight
      then (b, false)
      else (record b { inflight = add32 b.inflight (pos 1) }, true)
    else (b, false)

unfoldable pub try_acquire : ℕ → Backend → Backend × Bool
try_acquire now b = acquire_slot (is_selectable now b)

unfoldable pub release : Backend → Backend
release b = record b { inflight = add32 b.inflight (negsuc 0) }

unfoldable pub mark_success : ℕ → Backend → Backend
mark_success now b = record b {
  success_total = inc_u64 b.success_total;
  fails = 0;
  state = healthy;
  last_change = if state_is b.state healthy then b.last_change else now;
  last_error = [];
  opened_at = none;
}

mark_failure_locked : ℕ → Bytes → Backend → Backend
mark_failure_locked now reason b =
    let c : Backend = record b {
      fail_total = inc_u64 b.fail_total;
      fails = suc b.fails;
      last_error = reason;
      last_change = now;
    } in
    if leb_ℤ b.max_fails (pos (suc b.fails))
    then record c { state = circuit_open; opened_at = some now }
    else if state_is b.state healthy || state_is b.state unknown
    then record c { state = degraded }
    else c

unfoldable pub mark_failure : ℕ → Bytes → Backend → Backend
unfolding mark_failure_locked
mark_failure now reason b = mark_failure_locked now reason b

unfoldable pub mark_probe_ok : ℕ → ProbeInfo → Backend → Backend
mark_probe_ok now info b = record b {
  success_total = inc_u64 b.success_total;
  fails = 0;
  state = healthy;
  last_probe = some info;
  last_error = [];
  last_change = now;
  opened_at = none;
}

unfoldable pub mark_probe_fail : ℕ → Bytes → Backend → Backend
unfolding mark_failure_locked
mark_probe_fail now reason b =
    let c = mark_failure_locked now reason b in
    if state_is c.state degraded && leb_ℤ c.max_fails (pos c.fails)
    then record c { state = unhealthy }
    else c

unfoldable pub force_state : ℕ → State → Backend → Backend
force_state now s b =
    let c : Backend = record b { state = s; last_change = now } in
    let d : Backend = if state_is s circuit_open then record c { opened_at = some now } else c in
    if state_is s healthy then record d { fails = 0; opened_at = none } else d

unfoldable pub set_admit : ℕ → AdmitPhase → Bytes → Backend → Backend
set_admit now phase egress b = record b {
  admit = phase;
  egress_ipv4 = if is_empty egress then b.egress_ipv4 else egress;
  last_change = now;
}

unfoldable pub inc_unique_attempt : Backend → Backend × ℕ
inc_unique_attempt b = (record b { unique_tries = suc b.unique_tries }, suc b.unique_tries)

pub record Snapshot : Type 0 where
  pub id : ℤ
  pub addr : Bytes
  pub state : Bytes
  pub admit : Bytes
  pub egress_ipv4 : Bytes
  pub unique_tries : ℕ
  pub fails : ℕ
  pub inflight : ℤ
  pub success_total : ℕ
  pub fail_total : ℕ
  pub last_probe : Option ProbeInfo
  pub last_error : Bytes
  pub last_change_ago : ℤ  -- milliseconds

unfoldable pub snapshot : ℕ → Backend → Snapshot
snapshot now b = record {
  id = b.id;
  addr = b.addr;
  state = state_string b.state;
  admit = admit_string b.admit;
  egress_ipv4 = b.egress_ipv4;
  unique_tries = b.unique_tries;
  fails = b.fails;
  inflight = b.inflight;
  success_total = b.success_total;
  fail_total = b.fail_total;
  last_probe = b.last_probe;
  last_error = b.last_error;
  last_change_ago = quot (sub_ℕ now b.last_change) 1000000;
}
