-- ===== src/Pool/Limiter.antt =====
-- internal/pool/pool.go, ConnLimiter: the global count, the count of each IP and its token bucket. Each
-- call runs with no other at work. `now` is time.Now().UnixNano(), an int64. The product of floats
-- that fills a bucket, int64(elapsed.Seconds() * float64(maxRPS)), is given as `refill`.
pub mod Counts
pub mod Effects
pub mod Calls
pub mod Releases
pub mod Accounting
pub mod Tokens
pub mod Race
use go_multi_warp.Prelude.{
  ℕ, zero, suc, ℤ, pos, negsuc, ◌-ℤ◌, add64, to_int64, ltb_ℤ, Bool, true, false, ◌&&◌, List, [],
  ◌∷◌, Option, none, some, Bytes, bytes_eq, is_empty, if◌then◌else◌,
}

pub data LimitError : Type 0 where
  global_conn_limit per_ip_conn_limit per_ip_rps_limit : LimitError

pub record IpState : Type 0 where
  pub conns : ℤ  -- int64
  pub tokens : ℤ  -- int64
  pub last_at : ℤ  -- int64

pub record ConnLimiter : Type 0 where
  pub global : ℤ  -- int64
  pub max_global : ℤ
  pub max_per_ip : ℤ
  pub max_rps : ℤ
  pub per_ip : List (Bytes × IpState)

unfoldable pub new_conn_limiter : ℤ → ℤ → ℤ → ConnLimiter
new_conn_limiter max_global max_per_ip max_rps = record {
  global = pos 0;
  max_global = max_global;
  max_per_ip = max_per_ip;
  max_rps = max_rps;
  per_ip = [];
}

-- The lease names its IP; the limiter is the one that gave it.
pub record ConnLease : Type 0 where
  pub ip : Bytes

pub data Acquired : Type 0 where
  admitted : ConnLease → Acquired
  rejected : LimitError → Acquired

abbrev pub fresh : IpState
fresh = record { conns = pos 0; tokens = pos 0; last_at = pos 0 }

-- perIP.Load
unfoldable pub find_ip : Bytes → List (Bytes × IpState) → Option IpState
find_ip ip [] = none
find_ip ip ((k, st) ∷ m) = if bytes_eq k ip then some st else find_ip ip m

-- The entry of an IP with what it now holds; a new one goes to the end.
unfoldable pub put_ip : Bytes → IpState → List (Bytes × IpState) → List (Bytes × IpState)
put_ip ip st [] = (ip, st) ∷ []
put_ip ip st ((k, old) ∷ m) = if bytes_eq k ip then (k, st) ∷ m else (k, old) ∷ put_ip ip st m

abbrev pub or_fresh : Option IpState → IpState
or_fresh none = fresh
or_fresh (some st) = st

abbrev pub inc : ℤ → ℤ
inc n = add64 n (pos 1)

abbrev pub dec : ℤ → ℤ
dec n = add64 n (negsuc 0)

-- The tokens of a bucket at `now`, before one is taken.
abbrev pub refilled : (ℤ → ℤ → ℤ) → ℤ → ℤ → IpState → ℤ
refilled refill now max_rps st =
    let tokens = add64 st.tokens (refill (to_int64 (now -ℤ st.last_at)) max_rps) in
    if ltb_ℤ max_rps tokens then max_rps else tokens

-- The bucket's part of Acquire, at a state whose `conns` is counted up already.
take_token : (ℤ → ℤ → ℤ) → ℤ → Bytes → IpState → ConnLimiter → ConnLimiter × Acquired
take_token refill now ip st l =
    let tokens = refilled refill now l.max_rps st in
    if ltb_ℤ tokens (pos 1)
    then (
      record l {
        global = dec l.global;
        per_ip = put_ip ip (record st { conns = dec st.conns }) l.per_ip;
      },
      rejected per_ip_rps_limit,
    )
    else (
      record l {
        per_ip = put_ip ip (record st { tokens = tokens -ℤ pos 1; last_at = now }) l.per_ip;
      },
      admitted (record { ip = ip }),
    )

-- The part of Acquire for one IP, with the global count up already.
acquire_ip : (ℤ → ℤ → ℤ) → ℤ → Bytes → IpState → ConnLimiter → ConnLimiter × Acquired
unfolding take_token
acquire_ip refill now ip old l =
    let st : IpState = record old { conns = inc old.conns } in
    if ltb_ℤ (pos 0) l.max_per_ip && ltb_ℤ l.max_per_ip st.conns
    then (
      record l {
        global = dec l.global;
        per_ip = put_ip ip (record st { conns = dec st.conns }) l.per_ip;
      },
      rejected per_ip_conn_limit,
    )
    else if ltb_ℤ (pos 0) l.max_rps
    then take_token refill now ip st l
    else (record l { per_ip = put_ip ip st l.per_ip }, admitted (record { ip = ip }))

unfoldable pub acquire : (ℤ → ℤ → ℤ) → ℤ → Bytes → ConnLimiter → ConnLimiter × Acquired
unfolding acquire_ip
acquire refill now ip l =
    let up : ConnLimiter = record l { global = inc l.global } in
    if ltb_ℤ (pos 0) l.max_global && ltb_ℤ l.max_global up.global
    then (record up { global = dec up.global }, rejected global_conn_limit)
    else if is_empty ip
    then (up, admitted (record { ip = [] }))
    else acquire_ip refill now ip (or_fresh (find_ip ip l.per_ip)) up

abbrev dec_conns : Bytes → Option IpState → List (Bytes × IpState) → List (Bytes × IpState)
dec_conns ip none m = m
dec_conns ip (some st) m = put_ip ip (record st { conns = dec st.conns }) m

unfoldable pub release : ConnLease → ConnLimiter → ConnLimiter
release c l =
    let down : ConnLimiter = record l { global = dec l.global } in
    if is_empty c.ip
    then down
    else record down { per_ip = dec_conns c.ip (find_ip c.ip l.per_ip) l.per_ip }

unfoldable pub active : ConnLimiter → ℤ
active l = l.global

-- net.SplitHostPort's host, and net.ParseIP with String.
pub record Net : Type 0 where
  pub split_host : Bytes → Option Bytes
  pub parse_ip : Bytes → Option Bytes

abbrev or_bytes : Option Bytes → Bytes → Bytes
or_bytes none s = s
or_bytes (some t) s = t

abbrev host_key : Net → Bytes → Option Bytes → Bytes
host_key net s none = s
host_key net s (some host) = or_bytes (net.parse_ip host) host

-- A peer is its String, if it is not nil.
unfoldable pub peer_key : Net → Option Bytes → Bytes
peer_key net none = []
peer_key net (some s) = host_key net s (net.split_host s)

-- StickyKey, a uint64; `fnv` is the 64-bit FNV-1a hash.
unfoldable sticky_key : (Bytes → ℕ) → Net → Option Bytes → ℕ
unfolding peer_key
sticky_key fnv net peer = let ip = peer_key net peer in if is_empty ip then 0 else fnv ip
