-- ===== src/Pool/Limiter/Accounting.antt =====
-- The counters of the limiter of pool.go against the leases that are out, over any sequence of calls.
use go_multi_warp.Prelude.{
  ℕ, suc, ◌+◌, ◌≤◌, ℤ, pos, ◌≡◌, refl, sym, ap, ◌∙◌, subst, ◌⊎◌, inl, inr, true, false, List, [],
  ◌∷◌, Option, none, some, Bytes, bytes_eq, bytes_eq_iff, arith, length, get_elem?, is_empty,
  if◌then◌else◌, Bool-cases,
}
use go_multi_warp.Pool.Limiter.{
  ConnLimiter, Acquired, admitted, rejected, find_ip, dec, acquire, new_conn_limiter,
}
use go_multi_warp.Pool.Limiter.Counts.{count, remove, length-remove, count-le-length}
use go_multi_warp.Pool.Limiter.Effects.{conns_of, Small, Respects, Effect, acquire-Effect, dec-suc}
use go_multi_warp.Pool.Limiter.Calls.{
  Call, acquires, releases, State, add_lease, release_at, serve, serve_all, CountedAt, IsAccounted,
}
use go_multi_warp.Pool.Limiter.Releases.{release_keeps, release_each}

Respects-le : (m n : ℕ) (max : ℤ) → m ≤ n → Respects n max → Respects m max
Respects-le m n max h r = ground arith

accept_at :
    (l m : ConnLimiter) (ip j : Bytes) (held : List Bytes)
    → m.max_per_ip ≡ l.max_per_ip
    → is_empty ip ≡ false
    → conns_of j m ≡ (if bytes_eq ip j then pos (suc (count ip held)) else conns_of j l)
    → Respects (suc (count ip held)) l.max_per_ip
    → CountedAt (l, held) j
    → CountedAt (m, ip ∷ held) j
unfolding count
accept_at l m ip j held e named c r a = elim (Bool-cases (bytes_eq ip j)) [
  | inl s ↦
      let same : ip ≡ j = (bytes_eq_iff ip j).0 s in
      inr (ground (arith, ap (λ k. count k held) same))
  | inr d ↦ ground arith
]

accept_unnamed :
    (l m : ConnLimiter) (ip j : Bytes) (held : List Bytes)
    → m.max_per_ip ≡ l.max_per_ip
    → is_empty ip ≡ true
    → conns_of j m ≡ conns_of j l
    → CountedAt (l, held) j
    → CountedAt (m, ip ∷ held) j
unfolding count
accept_unnamed l m ip j held e unnamed c a = elim (Bool-cases (bytes_eq ip j)) [
  | inl s ↦ inl (sym (ap is_empty ((bytes_eq_iff ip j).0 s)) ∙ unnamed)
  | inr d ↦ ground arith
]

accept :
    (max_global max_per_ip : ℤ) (l : ConnLimiter) (ip : Bytes) (held : List Bytes)
    (r : ConnLimiter × Acquired)
    → IsAccounted max_global max_per_ip (l, held)
    → Effect l ip (length held) (count ip held) r
    → IsAccounted max_global max_per_ip (r.0, add_lease r.1 held)
accept max_global max_per_ip l ip held (m, rejected e) a (t, lim, c) = record {
  total = t;
  within = a.within;
  same_global = lim.0 ∙ a.same_global;
  same_ip = lim.1 ∙ a.same_ip;
  each = λ j. ground (arith, a.each j, c j);
}
accept max_global max_per_ip l ip held (m, admitted c) a (t, lim, e, limit, inl (unnamed, same)) =
    record {
      total = t;
      within = ground arith;
      same_global = lim.0 ∙ a.same_global;
      same_ip = lim.1 ∙ a.same_ip;
      each = λ j.
          subst (λ x. CountedAt (m, x ∷ held) j) (sym e)
            (accept_unnamed l m ip j held lim.1 unnamed (same j) (a.each j));
    }
accept max_global max_per_ip l ip held (m, admitted c) a (t, lim, e, limit, inr (named, same, r)) =
    record {
      total = t;
      within = ground arith;
      same_global = lim.0 ∙ a.same_global;
      same_ip = lim.1 ∙ a.same_ip;
      each = λ j.
          subst (λ x. CountedAt (m, x ∷ held) j) (sym e)
            (accept_at l m ip j held lim.1 named (same j) r (a.each j));
    }

give_back :
    (max_global max_per_ip : ℤ) (l : ConnLimiter) (held : List Bytes) (k : ℕ) (o : Option Bytes)
    → get_elem? held k ≡ o
    → Small (length held)
    → IsAccounted max_global max_per_ip (l, held)
    → IsAccounted max_global max_per_ip (release_at o k (l, held))
give_back max_global max_per_ip l held k none at small a = a
give_back max_global max_per_ip l held k (some ip) at small a =
    let (g, mg, mi) = release_keeps (record { ip = ip }) l in
    let less = length-remove k ip held at in
    record {
      total = g ∙ ap dec (a.total ∙ ap pos less) ∙ dec-suc (length (remove k held)) (omega arith);
      within = ground arith;
      same_global = mg ∙ a.same_global;
      same_ip = mi ∙ a.same_ip;
      each = λ j. release_each l held k ip j small at (a.each ip) (a.each j);
    }

known :
    (max_global max_per_ip : ℤ) (s : State) (ip : Bytes)
    → IsAccounted max_global max_per_ip s
    → (is_empty ip ≡ true) ⊎ (conns_of ip s.0 ≡ pos (count ip s.1))
known max_global max_per_ip s ip a = first (a.each ip)
  where
    first : CountedAt s ip → (is_empty ip ≡ true) ⊎ (conns_of ip s.0 ≡ pos (count ip s.1))
    first (inl e) = inl e
    first (inr (e, r)) = inr e

pub serve-IsAccounted :
    (refill : ℤ → ℤ → ℤ) (max_global max_per_ip : ℤ) (c : Call) (s : State)
    → Small (length s.1)
    → IsAccounted max_global max_per_ip s
    → IsAccounted max_global max_per_ip (serve refill c s)
unfolding serve
serve-IsAccounted refill max_global max_per_ip (acquires now ip) (l, held) small a =
    accept max_global max_per_ip l ip held (acquire refill now ip l) a (
      acquire-Effect refill now ip l (length held) (count ip held) small
        (omega (arith, count-le-length ip held)) a.total
        (known max_global max_per_ip (l, held) ip a))
serve-IsAccounted refill max_global max_per_ip (releases k) (l, held) small a =
    give_back max_global max_per_ip l held k (get_elem? held k) refl small a

length-add_lease : (r : Acquired) (held : List Bytes) → length (add_lease r held) ≤ length held + 1
length-add_lease (admitted c) held = omega arith
length-add_lease (rejected e) held = omega arith

length-serve :
    (refill : ℤ → ℤ → ℤ) (c : Call) (s : State) → length (serve refill c s).1 ≤ length s.1 + 1
unfolding serve
length-serve refill (acquires now ip) (l, held) = length-add_lease (acquire refill now ip l).1 held
length-serve refill (releases k) (l, held) = shorter (get_elem? held k) refl
  where
    shorter :
        (o : Option Bytes)
        → get_elem? held k ≡ o
        → length (release_at o k (l, held)).1 ≤ length held + 1
    shorter none at = omega arith
    shorter (some ip) at = omega (arith, length-remove k ip held at)

serve_all-from :
    (refill : ℤ → ℤ → ℤ) (max_global max_per_ip : ℤ) (cs : List Call) (s : State)
    → Small (length s.1 + length cs)
    → IsAccounted max_global max_per_ip s
    → IsAccounted max_global max_per_ip (serve_all refill cs s)
unfolding serve_all
serve_all-from refill max_global max_per_ip [] s small a = a
serve_all-from refill max_global max_per_ip (c ∷ cs) s small a =
    serve_all-from refill max_global max_per_ip cs (serve refill c s)
      (omega (arith, length-serve refill c s))
      (serve-IsAccounted refill max_global max_per_ip c s (omega arith) a)

-- After any sequence of fewer than 2 ^ 63 - 1 calls in which each lease is released once, the global
-- counter is the number of leases out, and that of each named IP the number of its leases; neither
-- passes its limit, where there is one. The limits are those configured.
pub serve_all-IsAccounted :
    (refill : ℤ → ℤ → ℤ) (max_global max_per_ip max_rps : ℤ) (cs : List Call)
    → Small (length cs)
    → IsAccounted max_global max_per_ip
        (serve_all refill cs (new_conn_limiter max_global max_per_ip max_rps, []))
unfolding new_conn_limiter count find_ip
serve_all-IsAccounted refill max_global max_per_ip max_rps cs small =
    serve_all-from refill max_global max_per_ip cs
      (new_conn_limiter max_global max_per_ip max_rps, []) (omega arith)
      (record {
        total = refl;
        within = ground arith;
        same_global = refl;
        same_ip = refl;
        each = λ ip. inr (refl, ground arith);
      })
