-- ===== src/Config/Env.antt =====
-- internal/config/config.go, applyEnv: the environment's overrides, in the order of the source.
-- MULTI_WARP_FORCE_REREGISTER changes no field there and is read by `force_reregister`.
use go_multi_warp.Prelude.{
  ℕ, suc, ◌*◌, ℤ, pos, pos_part, to_int64, leb_ℤ, ltb_ℤ, Bool, true, List, [], ◌∷◌, Option, none,
  some, Bytes, codes, bytes_eq, is_empty, if◌then◌else◌, ◌||◌,
}
use go_multi_warp.Std.{to_lower, trim_space, split, atoi}
use go_multi_warp.Config.{
  Config, RunMode, managed, attach, PoolStrategy, round_robin, least_conn, sticky, BackendAddr,
  split_csv, parse_bool,
}

-- An override: what a variable that is set and not empty does.
abbrev pub Override : Type 0
Override = Bytes → Config → Config

unfoldable pub with_env : (Bytes → Bytes) → Bytes → Override → Config → Config
with_env getenv name change c = let v = getenv name in if is_empty v then c else change v c

-- A value that Atoi refuses or that the guard does not pass changes nothing.
abbrev on_number : (ℤ → Bool) → (ℤ → Config → Config) → Option ℤ → Config → Config
on_number guard change none c = c
on_number guard change (some n) c = if guard n then change n c else c

unfoldable pub number : (ℤ → Bool) → (ℤ → Config → Config) → Override
number guard change v c = on_number guard change (atoi v) c

abbrev any : ℤ → Bool
any n = true

abbrev positive : ℤ → Bool
positive n = ltb_ℤ (pos 0) n

abbrev natural : ℤ → Bool
natural n = leb_ℤ (pos 0) n

-- time.Duration(n) * time.Millisecond, for n ≥ 0
abbrev pub millis : ℤ → ℤ
millis n = to_int64 (pos (pos_part n * 1000000))

mode_of : Bytes → RunMode → RunMode
mode_of v m =
    if bytes_eq v (codes "managed")
    then managed
    else if bytes_eq v (codes "attach")
    then attach
    else m

strategy_of : Bytes → PoolStrategy → PoolStrategy
strategy_of v s =
    if bytes_eq v (codes "round_robin") || bytes_eq v (codes "rr")
    then round_robin
    else if bytes_eq v (codes "least_conn") || bytes_eq v (codes "least-conn")
    then least_conn
    else if bytes_eq v (codes "sticky")
    then sticky
    else s

-- The ids count the parts, the empty ones too.
unfoldable pub numbered : ℕ → List Bytes → List BackendAddr
numbered i [] = []
numbered i (p ∷ ps) =
    let rest = numbered (suc i) ps in
    if is_empty (trim_space p) then rest else record { id = pos i; addr = trim_space p } ∷ rest

-- Each variable of the environment with its override.
overrides : List (Bytes × Override)
unfolding mode_of strategy_of
overrides =
    (codes "WARP_INSTANCES", number any (λ n c. record c { instances = n }))
    ∷ (codes "MULTI_WARP_INSTANCES", number any (λ n c. record c { instances = n }))
    ∷ (codes "MULTI_WARP_BASE_PORT", number any (λ n c. record c { base_port = n }))
    ∷ (codes "MULTI_WARP_MODE", λ v c. record c { mode = mode_of (to_lower v) c.mode })
    ∷ (codes "PROXY_USER", λ v c. record c { auth = record c.auth { username = v } })
    ∷ (codes "PROXY_PASS", λ v c. record c { auth = record c.auth { password = v } })
    ∷ (
      codes "PROXY_MAX_CONN",
      number any (λ n c. record c { limits = record c.limits { max_conn_per_ip = n } }),
    )
    ∷ (codes "MULTI_WARP_SOCKS", λ v c. record c { listen = record c.listen { socks5 = v } })
    ∷ (codes "MULTI_WARP_HTTP", λ v c. record c { listen = record c.listen { http = v } })
    ∷ (codes "MULTI_WARP_ADMIN", λ v c. record c { listen = record c.listen { admin = v } })
    ∷ (
      codes "WARP_LICENSE_KEY",
      λ v c. record c { control = record c.control { license_keys = split_csv v } },
    )
    ∷ (
      codes "WARP_LICENSE_KEYS",
      λ v c. record c { control = record c.control { license_keys = split_csv v } },
    )
    ∷ (codes "WARP_ORG", λ v c. record c { control = record c.control { org = v } })
    ∷ (
      codes "WARP_AUTH_CLIENT_ID",
      λ v c. record c { control = record c.control { auth_client_id = v } },
    )
    ∷ (
      codes "WARP_AUTH_CLIENT_SECRET",
      λ v c. record c { control = record c.control { auth_client_secret = v } },
    )
    ∷ (
      codes "MULTI_WARP_STRATEGY",
      λ v c. record c {
        pool = record c.pool { strategy = strategy_of (to_lower (trim_space v)) c.pool.strategy };
      },
    )
    ∷ (
      codes "MULTI_WARP_STREAM_IDLE_TIMEOUT_MS",
      number positive
          (λ n c. record c { streaming = record c.streaming { idle_timeout = millis n } }),
    )
    ∷ (
      codes "MULTI_WARP_STREAM_MAX_DURATION_MS",
      number natural
          (λ n c. record c { streaming = record c.streaming { max_stream_duration = millis n } }),
    )
    ∷ (
      codes "MULTI_WARP_HTTP2_ENABLED",
      λ v c. record c { http2 = record { enabled = parse_bool v c.http2.enabled } },
    )
    ∷ (
      codes "MULTI_WARP_DRAIN_TIMEOUT_MS",
      number positive (λ n c. record c { control = record c.control { drain_timeout = millis n } }),
    )
    ∷ (
      codes "MULTI_WARP_UNIQUE_IPV4",
      λ v c. record c {
        uniqueness = record c.uniqueness { enabled = parse_bool v c.uniqueness.enabled };
      },
    )
    ∷ (
      codes "MULTI_WARP_UNIQUE_IPV4_MAX",
      number positive (λ n c. record c { uniqueness = record c.uniqueness { max_instances = n } }),
    )
    ∷ (
      codes "MULTI_WARP_UNIQUE_ATTEMPTS",
      number positive (λ n c. record c { uniqueness = record c.uniqueness { max_attempts = n } }),
    )
    ∷ (
      codes "MULTI_WARP_UNIQUE_PROBE_URL",
      λ v c. record c { uniqueness = record c.uniqueness { probe_url = v } },
    )
    ∷ (
      codes "MULTI_WARP_UNIQUE_STRICT",
      λ v c. record c {
        uniqueness = record c.uniqueness { strict = parse_bool v c.uniqueness.strict };
      },
    )
    ∷ (
      codes "MULTI_WARP_UNIQUE_BACKOFF_MS",
      number positive
          (λ n c. record c { uniqueness = record c.uniqueness { retry_backoff = millis n } }),
    )
    ∷ (
      codes "MULTI_WARP_UNIQUE_MAX_CONCURRENT_REG",
      number positive
          (λ n c. record c { uniqueness = record c.uniqueness { max_concurrent_reg = n } }),
    )
    ∷ (
      codes "MULTI_WARP_UNIQUE_STAGGER_MS",
      number natural (λ n c. record c { uniqueness = record c.uniqueness { stagger = millis n } }),
    )
    ∷ (
      codes "MULTI_WARP_UNIQUE_RECHECK_MS",
      number positive
          (λ n c. record c { uniqueness = record c.uniqueness { recheck_every = millis n } }),
    )
    ∷ (
      codes "MULTI_WARP_UNIQUE_RECHECK_MAX",
      number natural (λ n c. record c { uniqueness = record c.uniqueness { recheck_max = n } }),
    )
    ∷ (codes "RUST_LOG", λ v c. record c { logging = record c.logging { level = v } })
    ∷ (
      codes "MULTI_WARP_BACKENDS",
      λ v c. record c {
        backends =
            if is_empty (numbered 0 (split b',' v)) then c.backends else numbered 0 (split b',' v);
      },
    )
    ∷ []

unfoldable pub apply_all : (Bytes → Bytes) → List (Bytes × Override) → Config → Config
apply_all getenv [] c = c
apply_all getenv ((name, change) ∷ os) c = apply_all getenv os (with_env getenv name change c)

unfoldable pub apply_env : (Bytes → Bytes) → Config → Config
unfolding overrides apply_all with_env
apply_env getenv c = apply_all getenv overrides c
