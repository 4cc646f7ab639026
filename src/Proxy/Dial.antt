-- ===== src/Proxy/Dial.antt =====
-- internal/proxy/tunnel.go, DialViaSocks: up to three backends are tried. The SOCKS5 client, which
-- gives an error or a connection, is the parameter `connect`, by the number of the attempt and the
-- backend's address; an attempt reads the clock when it selects and again after it has dialled.
pub mod Slots
pub mod Balance
use go_multi_warp.Prelude.{ℕ, zero, suc, Option, none, some, Bytes, [], get_elem?}
use go_multi_warp.Pool.Backend.{Backend}
use go_multi_warp.Pool.Registry.{Pool, lease_success, lease_failure, lease_release}
use go_multi_warp.Pool.Select.{Outcome, done, ◌>>=◌, Selection, lease, refused, select}

-- A connection through the backend at a place, whose lease is kept; Select's error; or the last error
-- of connecting, `none` for nil.
pub data Dialled : Type 0 where
  connected : ℕ → Dialled
  no_backend : Dialled
  failed : Option Bytes → Dialled

abbrev pub addr_at : Option Backend → Bytes
addr_at none = []
addr_at (some b) = b.addr

pub record Dialler : Type 0 where
  pub selected_at : ℕ → ℕ
  pub dialled_at : ℕ → ℕ
  pub connect : ℕ → Bytes → Option Bytes

-- The loop, with `n` attempts left from attempt `k` on.
unfoldable pub dial_loop : Dialler → ℕ → ℕ → ℕ → Option Bytes → Pool → Outcome (Pool × Dialled)
dial_loop d key zero k last p = done (p, failed last)
dial_loop d key (suc n) k last p = do
  (q, s) ← select (d.selected_at k) key p
  elim s [
    | lease i ↦ elim (d.connect k (addr_at (get_elem? q.backends i))) [
      | none ↦ done (lease_success (d.dialled_at k) i q, connected i)
      | some e ↦
          dial_loop d key n (suc k) (some e)
            (lease_release i (lease_failure (d.dialled_at k) e i q))
    ]
    | refused e ↦ done (q, no_backend)
  ]

unfoldable pub dial_via_socks : Dialler → ℕ → Pool → Outcome (Pool × Dialled)
unfolding dial_loop
dial_via_socks d key p = dial_loop d key 3 0 none p
