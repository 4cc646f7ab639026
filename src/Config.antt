-- ===== src/Config.antt =====
-- internal/config/config.go: the configuration, its defaults, and what is derived from it. A Go int
-- and a time.Duration (nanoseconds) are a ℤ; the sums of ports and ids stay far below their range.
pub mod Env
pub mod Load
pub mod Durations
pub mod Keys
pub mod Addrs
pub mod Accepted
use go_multi_warp.Prelude.{
  ℕ, zero, suc, ◌+◌, ℤ, pos, negsuc, pos_part, rem, leb_ℤ, ltb_ℤ, ◌+ℤ◌, Bool, true, false, not,
  ◌&&◌, ◌||◌, List, [], ◌∷◌, ◌++◌, Option, none, some, Bytes, codes, bytes_eq, is_empty,
  if◌then◌else◌, length, get_elem?,
}
use go_multi_warp.Std.{to_lower, trim_space, split, itoa}

pub data RunMode : Type 0 where
  managed attach : RunMode
  other_mode : Bytes → RunMode

pub data PoolStrategy : Type 0 where
  round_robin least_conn sticky : PoolStrategy
  other_strategy : Bytes → PoolStrategy

pub record Listen : Type 0 where
  pub socks5 : Bytes
  pub http : Bytes
  pub admin : Bytes

pub record Auth : Type 0 where
  pub username : Bytes
  pub password : Bytes

pub record PoolSettings : Type 0 where
  pub strategy : PoolStrategy
  pub max_fails : ℤ
  pub fail_timeout : ℤ
  pub open_after : ℤ
  pub max_inflight_per_be : ℤ
  pub sticky_ttl : ℤ

pub record Limits : Type 0 where
  pub max_conn_global : ℤ
  pub max_conn_per_ip : ℤ
  pub max_rps_per_ip : ℤ
  pub dial_timeout : ℤ
  pub io_timeout : ℤ

pub record Streaming : Type 0 where
  pub idle_timeout : ℤ
  pub max_stream_duration : ℤ

pub record Http2 : Type 0 where
  pub enabled : Bool

pub record Control : Type 0 where
  pub warp_conn_timeout : ℤ
  pub start_stagger : ℤ
  pub reconnect_fails : ℤ
  pub hard_restart_fails : ℤ
  pub license_keys : List Bytes
  pub org : Bytes
  pub drain_timeout : ℤ
  pub auth_client_id : Bytes
  pub auth_client_secret : Bytes
  pub data_root : Bytes
  pub runtime_root : Bytes

pub record Uniqueness : Type 0 where
  pub enabled : Bool
  pub max_instances : ℤ
  pub max_attempts : ℤ
  pub probe_url : Bytes
  pub strict : Bool
  pub retry_backoff : ℤ
  pub max_concurrent_reg : ℤ
  pub stagger : ℤ
  pub recheck_every : ℤ
  pub recheck_max : ℤ

pub record Logging : Type 0 where
  pub level : Bytes
  pub json : Bool

pub record BackendAddr : Type 0 where
  pub id : ℤ
  pub addr : Bytes

pub record Config : Type 0 where
  pub listen : Listen
  pub auth : Auth
  pub mode : RunMode
  pub instances : ℤ
  pub base_port : ℤ
  pub conn_to : ℤ
  pub probe_every : ℤ
  pub probe_url : Bytes
  pub require_warp : Bool
  pub pool : PoolSettings
  pub limits : Limits
  pub streaming : Streaming
  pub http2 : Http2
  pub control : Control
  pub uniqueness : Uniqueness
  pub logging : Logging
  pub backends : List BackendAddr

abbrev pub millisecond : ℕ
millisecond = 1000000

abbrev pub second : ℕ
second = 1000000000

-- The two directories depend on the system: they are given.
unfoldable pub default_config : Bytes → Bytes → Config
default_config data_root runtime_root = record {
  listen = record {
    socks5 = codes "0.0.0.0:11080";
    http = codes "0.0.0.0:18080";
    admin = codes "0.0.0.0:9090";
  };
  auth = record { username = []; password = [] };
  mode = attach;
  instances = pos 10;
  base_port = pos 40000;
  conn_to = pos 5000000000;
  probe_every = pos 5000000000;
  probe_url = codes "https://cloudflare.com/cdn-cgi/trace";
  require_warp = true;
  pool = record {
    strategy = round_robin;
    max_fails = pos 3;
    fail_timeout = pos 15000000000;
    open_after = pos 10000000000;
    max_inflight_per_be = pos 512;
    sticky_ttl = pos 300000000000;
  };
  limits = record {
    max_conn_global = pos 20000;
    max_conn_per_ip = pos 500;
    max_rps_per_ip = pos 0;
    dial_timeout = pos 8000000000;
    io_timeout = pos 120000000000;
  };
  streaming = record { idle_timeout = pos 300000000000; max_stream_duration = pos 0 };
  http2 = record { enabled = true };
  control = record {
    warp_conn_timeout = pos 60000000000;
    start_stagger = pos 3000000000;
    reconnect_fails = pos 2;
    hard_restart_fails = pos 6;
    license_keys = [];
    org = [];
    drain_timeout = pos 30000000000;
    auth_client_id = [];
    auth_client_secret = [];
    data_root = data_root;
    runtime_root = runtime_root;
  };
  uniqueness = record {
    enabled = true;
    max_instances = pos 20;
    max_attempts = pos 8;
    probe_url = codes "https://api.ipify.org";
    strict = false;
    retry_backoff = pos 8000000000;
    max_concurrent_reg = pos 2;
    stagger = pos 3000000000;
    recheck_every = pos 60000000000;
    recheck_max = pos 3;
  };
  logging = record { level = codes "info"; json = false };
  backends = [];
}

abbrev pub keep_nonempty : List Bytes → List Bytes
keep_nonempty [] = []
keep_nonempty (p ∷ ps) =
    let rest = keep_nonempty ps in if is_empty (trim_space p) then rest else trim_space p ∷ rest

unfoldable pub split_csv : Bytes → List Bytes
split_csv s = keep_nonempty (split b',' s)

-- One of the labels of a `case`.
abbrev pub one_of : Bytes → List Bytes → Bool
one_of s [] = false
one_of s (l ∷ ls) = bytes_eq s l || one_of s ls

unfoldable pub parse_bool : Bytes → Bool → Bool
parse_bool s default =
    let v = to_lower (trim_space s) in
    if one_of v (codes "1" ∷ codes "true" ∷ codes "yes" ∷ codes "on" ∷ [])
    then true
    else if one_of v (codes "0" ∷ codes "false" ∷ codes "no" ∷ codes "off" ∷ [])
    then false
    else default

unfoldable pub unique_effort_active : Config → Bool
unique_effort_active c =
    let max =
      if leb_ℤ c.uniqueness.max_instances (pos 0) then pos 20 else c.uniqueness.max_instances in
    let n = if leb_ℤ c.instances (pos 0) then pos (length c.backends) else c.instances in
    if c.uniqueness.enabled then ltb_ℤ (pos 0) n && leb_ℤ n max else false

-- The loop of BackendAddrs, with `n` rounds left from `i` on.
unfoldable pub local_addrs : ℤ → ℕ → ℕ → List BackendAddr
local_addrs base i zero = []
local_addrs base i (suc n) =
    record { id = pos i; addr = codes "127.0.0.1:" ++ itoa (base +ℤ pos i) }
    ∷ local_addrs base (suc i) n

unfoldable pub backend_addrs : Config → List BackendAddr
unfolding local_addrs
backend_addrs c =
    if is_empty c.backends then local_addrs c.base_port 0 (pos_part c.instances) else c.backends

unfoldable pub auth_enabled : Config → Bool
auth_enabled c = not (is_empty c.auth.username) && not (is_empty c.auth.password)

abbrev key_or_empty : Option Bytes → Bytes
key_or_empty none = []
key_or_empty (some k) = k

-- The remainder of the corrected id is never negative and below the number of keys.
unfoldable pub license_key_for : ℤ → Config → Bytes
license_key_for id c =
    let at = if ltb_ℤ id (pos 0) then pos 0 else id in
    if is_empty c.control.license_keys
    then []
    else key_or_empty
        (get_elem? c.control.license_keys (pos_part (rem at (length c.control.license_keys))))

-- os.Getenv, as `getenv`
unfoldable pub force_reregister : (Bytes → Bytes) → Bool
force_reregister getenv =
    one_of (to_lower (trim_space (getenv (codes "MULTI_WARP_FORCE_REREGISTER"))))
      (codes "1" ∷ codes "true" ∷ codes "yes" ∷ [])
