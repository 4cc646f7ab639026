-- ===== src/Examples/Proxies.antt =====
-- Dialling and authentication of internal/proxy.
use go_multi_warp.Prelude.{
  ℕ, zero, suc, ◌≡◌, ◌↔◌, refl, true, false, ◌∷◌, ◌++◌, Option, some, none, Bytes, bytes_eq, codes,
  arith,
}
use go_multi_warp.Std.{trim_space, to_lower, has_prefix, cut_prefix, cut}
use go_multi_warp.Std.Split.{has_byte}
use go_multi_warp.Pool.Registry.{Pool}
use go_multi_warp.Pool.Select.{done}
use go_multi_warp.Pool.Select.Polls.{inflights}
use go_multi_warp.Proxy.Dial.{Dialler, Dialled, dial_via_socks}
use go_multi_warp.Proxy.Dial.Balance.{Balanced, dial_via_socks-Balanced}
use go_multi_warp.Proxy.Auth.{
  passed, auth_failed, new_proxy_auth, drop, check, check_http_header, check_http_header-passed,
}
use go_multi_warp.Examples.Pools.{small_pool}

-- The first attempt fails, the second one connects.
abbrev connect_second : ℕ → Bytes → Option Bytes
connect_second zero addr = some (codes "connection refused")
connect_second (suc k) addr = none

abbrev dialler : Dialler
dialler = record { selected_at = λ k. 30; dialled_at = λ k. 31; connect = connect_second }

dial_via_socks-Balanced_example :
    (q : Pool) × (o : Dialled) × (dial_via_socks dialler 7 small_pool ≡ done (q, o))
    × Balanced (inflights small_pool.backends) (inflights q.backends) o
dial_via_socks-Balanced_example =
    dial_via_socks-Balanced dialler 7 small_pool (omega arith) (omega arith)
      ((omega arith, omega arith), ((omega arith, omega arith), tt))

-- A decoder of this one text.
abbrev decode_user : Bytes → Option Bytes
decode_user s = some (codes "user:pass")

check_http_header-passed_example :
    (check_http_header decode_user
        (codes "Basic dXNlcjpwYXNz")
        (new_proxy_auth (codes "user") (codes "pass"))
      ≡ passed)
    ↔ ((has_prefix (codes "basic ") (to_lower (trim_space (codes "Basic dXNlcjpwYXNz"))) ≡ true)
        × (decode_user (trim_space (drop 6 (trim_space (codes "Basic dXNlcjpwYXNz"))))
            ≡ some (codes "user" ++ b':' ∷ codes "pass"))
        × (has_byte b':' (codes "user") ≡ false))
check_http_header-passed_example =
    check_http_header-passed decode_user (codes "Basic dXNlcjpwYXNz") (codes "user") (codes "pass")
      refl refl refl

basic_header :
    check_http_header decode_user
      (codes " Basic dXNlcjpwYXNz")
      (new_proxy_auth (codes "user") (codes "pass"))
    ≡ passed
unfolding check_http_header new_proxy_auth drop cut_prefix to_lower trim_space cut bytes_eq check
basic_header = refl

digest_header :
    check_http_header decode_user (codes "Digest x") (new_proxy_auth (codes "user") (codes "pass"))
    ≡ auth_failed
unfolding check_http_header new_proxy_auth drop cut_prefix to_lower trim_space cut bytes_eq check
digest_header = refl
