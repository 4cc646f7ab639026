-- ===== src/Pool/Limiter/Releases.antt =====
-- The counters of the limiter of pool.go after a lease is released.
use go_multi_warp.Prelude.{
  ℕ, suc, pos, ◌≡◌, refl, ap, ◌∙◌, inl, inr, true, false, List, some, Bytes, bytes_eq, bytes_eq_iff,
  arith, length, get_elem?, is_empty, if◌then◌else◌, Bool-cases, Option-cases,
}
use go_multi_warp.Pool.Limiter.{ConnLimiter, ConnLease, find_ip, dec, release}
use go_multi_warp.Pool.Limiter.Counts.{count, remove, count-remove, count-le-length}
use go_multi_warp.Pool.Limiter.Effects.{conns_of, Small, Respects, dec-suc, conns_of-put_known}
use go_multi_warp.Pool.Limiter.Calls.{CountedAt}

release_named :
    (l : ConnLimiter) (ip j : Bytes) (n : ℕ)
    → is_empty ip ≡ false
    → Small n
    → conns_of ip l ≡ pos (suc n)
    → conns_of j (release (record { ip = ip }) l) ≡ (if bytes_eq ip j then pos n else conns_of j l)
unfolding release
release_named l ip j n named small e = elim (Option-cases (find_ip ip l.per_ip)) [
  | inl missing ↦ absurd (ground arith)
  | inr (st, found) ↦
      let here : st.conns ≡ pos (suc n) = ground arith in
      rw (named, if◌then◌else◌, found)
        (conns_of-put_known ip j (record st { conns = dec st.conns }) l (pos n)
          (ap dec here ∙ dec-suc n small))
]

pub release_keeps :
    (c : ConnLease) (l : ConnLimiter)
    → ((release c l).global ≡ dec l.global)
      × ((release c l).max_global ≡ l.max_global)
      × ((release c l).max_per_ip ≡ l.max_per_ip)
unfolding release
release_keeps c l = ground arith

release_unnamed :
    (l : ConnLimiter) (ip j : Bytes)
    → is_empty ip ≡ true
    → conns_of j (release (record { ip = ip }) l) ≡ conns_of j l
unfolding release
release_unnamed l ip j e = rw (e, if◌then◌else◌)

release_each_unnamed :
    (l : ConnLimiter) (held : List Bytes) (k : ℕ) (ip j : Bytes)
    → get_elem? held k ≡ some ip
    → is_empty ip ≡ true
    → CountedAt (l, held) j
    → CountedAt (release (record { ip = ip }) l, remove k held) j
release_each_unnamed l held k ip j at unnamed a = ground (
  arith,
  release_unnamed l ip j unnamed,
  release_keeps (record { ip = ip }) l,
  count-remove k ip j held at,
  bytes_eq_iff ip j,
)

release_each_named :
    (l : ConnLimiter) (held : List Bytes) (k : ℕ) (ip j : Bytes)
    → Small (length held)
    → get_elem? held k ≡ some ip
    → is_empty ip ≡ false
    → conns_of ip l ≡ pos (count ip held)
    → Respects (count ip held) l.max_per_ip
    → CountedAt (l, held) j
    → CountedAt (release (record { ip = ip }) l, remove k held) j
release_each_named l held k ip j small at named e r a =
    let n = count ip (remove k held) in
    let one : count ip held ≡ suc n =
      ground (arith, count-remove k ip ip held at, (bytes_eq_iff ip ip).1 refl) in
    let bound : Small n = omega (arith, count-le-length ip held) in
    let after = release_named l ip j n named bound (e ∙ ap pos one) in
    let keeps = (release_keeps (record { ip = ip }) l).2 in
    elim (Bool-cases (bytes_eq ip j)) [
      | inl s ↦
          let same : ip ≡ j = (bytes_eq_iff ip j).0 s in
          inr (
            after ∙ rw (s, if◌then◌else◌) (ap (λ x. pos (count x (remove k held))) same),
            ground (arith, ap (λ x. count x (remove k held)) same),
          )
      | inr d ↦ ground (arith, count-remove k ip j held at)
    ]

pub release_each :
    (l : ConnLimiter) (held : List Bytes) (k : ℕ) (ip j : Bytes)
    → Small (length held)
    → get_elem? held k ≡ some ip
    → CountedAt (l, held) ip
    → CountedAt (l, held) j
    → CountedAt (release (record { ip = ip }) l, remove k held) j
release_each l held k ip j small at (inl unnamed) a =
    release_each_unnamed l held k ip j at unnamed a
release_each l held k ip j small at (inr (e, r)) a = elim (Bool-cases (is_empty ip)) [
  | inl unnamed ↦ release_each_unnamed l held k ip j at unnamed a
  | inr named ↦ release_each_named l held k ip j small at named e r a
]
