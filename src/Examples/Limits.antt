-- ===== src/Examples/Limits.antt =====
-- A limiter of internal/pool/pool.go at work.
use go_multi_warp.Prelude.{ℤ, pos, ◌≡◌, refl, List, [], ◌∷◌, codes, arith, bytes_eq, to_int64}
use go_multi_warp.Pool.Limiter.{acquire, release, find_ip, put_ip, active, new_conn_limiter}
use go_multi_warp.Pool.Limiter.Calls.{Call, acquires, releases, serve, serve_all, IsAccounted}
use go_multi_warp.Pool.Limiter.Accounting.{serve_all-IsAccounted}
use go_multi_warp.Pool.Limiter.Tokens.{Levels, serve_all-Levels}

-- A refill of five tokens, whatever the time.
abbrev five_tokens : ℤ → ℤ → ℤ
five_tokens elapsed rate = pos 5

abbrev calls : List Call
calls =
    acquires (pos 1000) (codes "10.0.0.1")
    ∷ acquires (pos 2000) (codes "10.0.0.1")
    ∷ acquires (pos 3000) (codes "10.0.0.2")
    ∷ releases 0
    ∷ []

-- The second call of the first peer is over its limit, and one lease is left.
calls_run :
    active (serve_all five_tokens calls (new_conn_limiter (pos 2) (pos 1) (pos 5), [])).0 ≡ pos 1
unfolding serve_all serve new_conn_limiter acquire release find_ip put_ip active to_int64 bytes_eq
calls_run = refl

serve_all-IsAccounted_example :
    IsAccounted
      (pos 2)
      (pos 1)
      (serve_all five_tokens calls (new_conn_limiter (pos 2) (pos 1) (pos 5), []))
serve_all-IsAccounted_example =
    serve_all-IsAccounted five_tokens (pos 2) (pos 1) (pos 5) calls (omega arith)

serve_all-Levels_example :
    Levels
      (pos 5)
      (serve_all five_tokens calls (new_conn_limiter (pos 2) (pos 1) (pos 5), [])).0.per_ip
serve_all-Levels_example = serve_all-Levels five_tokens (pos 2) (pos 1) (pos 5) calls (omega arith)
