-- ===== src/Pool/Limiter/Calls.antt =====
-- Sequences of calls of the limiter of pool.go, and its counters against the leases that are out.
use go_multi_warp.Prelude.{
  ℕ, ℤ, pos, ◌≡◌, ◌⊎◌, true, List, [], ◌∷◌, Option, none, some, Bytes, length, get_elem?, is_empty,
}
use go_multi_warp.Pool.Limiter.{ConnLimiter, Acquired, admitted, rejected, acquire, release}
use go_multi_warp.Pool.Limiter.Counts.{count, remove}
use go_multi_warp.Pool.Limiter.Effects.{conns_of, Respects}

-- A call of the limiter's users: an Acquire at a time for a peer, or the Release of the k-th lease out.
pub data Call : Type 0 where
  acquires : ℤ → Bytes → Call
  releases : ℕ → Call

-- The limiter and the IPs of the leases that are out, the newest first.
abbrev pub State : Type 0
State = ConnLimiter × List Bytes

abbrev pub add_lease : Acquired → List Bytes → List Bytes
add_lease (admitted c) held = c.ip ∷ held
add_lease (rejected e) held = held

abbrev pub release_at : Option Bytes → ℕ → State → State
release_at none k s = s
release_at (some ip) k (l, held) = (release (record { ip = ip }) l, remove k held)

unfoldable pub serve : (ℤ → ℤ → ℤ) → Call → State → State
serve refill (acquires now ip) (l, held) =
    let (m, r) = acquire refill now ip l in (m, add_lease r held)
serve refill (releases k) (l, held) = release_at (get_elem? held k) k (l, held)

unfoldable pub serve_all : (ℤ → ℤ → ℤ) → List Call → State → State
serve_all refill [] s = s
serve_all refill (c ∷ cs) s = serve_all refill cs (serve refill c s)

-- The count of an IP, unless the peer has no name.
abbrev pub CountedAt : State → Bytes → Type 0
CountedAt (l, held) ip =
    (is_empty ip ≡ true)
    ⊎ ((conns_of ip l ≡ pos (count ip held)) × Respects (count ip held) l.max_per_ip)

-- The counters are the numbers of leases that are out, within the limits.
pub record IsAccounted (max_global max_per_ip : ℤ) (s : State) : Type 0 where
  pub total : s.0.global ≡ pos (length s.1)
  pub within : Respects (length s.1) max_global
  pub same_global : s.0.max_global ≡ max_global
  pub same_ip : s.0.max_per_ip ≡ max_per_ip
  pub each : (ip : Bytes) → CountedAt s ip
