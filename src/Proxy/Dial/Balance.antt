-- ===== src/Proxy/Dial/Balance.antt =====
-- The slots that DialViaSocks of tunnel.go leaves taken.
use go_multi_warp.Prelude.{
  ℕ, zero, suc, ◌+◌, ◌<◌, ◌≤◌, ℤ, pos, add32, IsInt32, ◌≡◌, refl, sym, ap, ◌∙◌, List, [], ◌∷◌,
  Option, none, some, Bytes, arith, get_elem?, set, All, All-get,
}
use go_multi_warp.Pool.Backend.{Backend}
use go_multi_warp.Pool.Registry.{Pool, lease_success, lease_failure, lease_release}
use go_multi_warp.Pool.Select.{Outcome, done, Selection, lease, refused}
use go_multi_warp.Pool.Select.Polls.{inflights, Promised}
use go_multi_warp.Pool.Select.Outcomes.{select-Promised}
use go_multi_warp.Pool.Select.Counter.{select-rr}
use go_multi_warp.Proxy.Dial.{
  Dialled, connected, no_backend, failed, addr_at, Dialler, dial_loop, dial_via_socks,
}
use go_multi_warp.Proxy.Dial.Slots.{
  inflights-lease_success, inflights-lease_failure, inflights-lease_release,
}

-- The counts after dialling against those before: one slot more where a connection is held, none
-- otherwise; and a failure has an error to report.
abbrev pub Balanced : List ℤ → List ℤ → Dialled → Type 0
Balanced ns ms (connected i) =
    (n : ℤ) × (get_elem? ns i ≡ some n) × (ms ≡ set ns i (add32 n (pos 1)))
Balanced ns ms no_backend = ms ≡ ns
Balanced ns ms (failed r) = (ms ≡ ns) × (e : Bytes) × (r ≡ some e)

abbrev Balances : List ℤ → Outcome (Pool × Dialled) → Type 0
Balances ns r =
    (q : Pool) × (o : Dialled) × (r ≡ done (q, o)) × Balanced ns (inflights q.backends) o

get_elem?-inflights :
    (bs : List Backend) (i : ℕ) (b : Backend)
    → get_elem? bs i ≡ some b
    → get_elem? (inflights bs) i ≡ some b.inflight
get_elem?-inflights [] i b e = absurd (cc)
get_elem?-inflights (c ∷ bs) zero b e = ground arith
get_elem?-inflights (c ∷ bs) (suc i) b e = get_elem?-inflights bs i b e

-- The rest of an attempt, once Select has answered.
abbrev attempt : Dialler → ℕ → ℕ → ℕ → Pool → Selection → Outcome (Pool × Dialled)
attempt d key n k q (refused e) = done (q, no_backend)
attempt d key n k q (lease i) = elim (d.connect k (addr_at (get_elem? q.backends i))) [
  | none ↦ done (lease_success (d.dialled_at k) i q, connected i)
  | some e ↦
      dial_loop d key n (suc k) (some e) (lease_release i (lease_failure (d.dialled_at k) e i q))
]

lease-Balances :
    (d : Dialler) (key n k i : ℕ) (q : Pool) (ns : List ℤ) (m : ℤ)
    → ((e : Bytes) (t : Pool)
        → t.rr ≡ q.rr
        → inflights t.backends ≡ ns
        → Balances ns (dial_loop d key n (suc k) (some e) t))
    → get_elem? ns i ≡ some m
    → IsInt32 m
    → inflights q.backends ≡ set ns i (add32 m (pos 1))
    → Balances ns (attempt d key n k q (lease i))
lease-Balances d key n k i q ns m rest at w e =
    by_result (d.connect k (addr_at (get_elem? q.backends i)))
  where
    by_result :
        (o : Option Bytes)
        → Balances ns (elim o [
          | none ↦ done (lease_success (d.dialled_at k) i q, connected i)
          | some r ↦
              dial_loop d key n
                (suc k)
                (some r)
                (lease_release i (lease_failure (d.dialled_at k) r i q))
        ])
    by_result none = (
      lease_success (d.dialled_at k) i q,
      connected i,
      refl,
      (m, at, inflights-lease_success (d.dialled_at k) i q ∙ e),
    )
    by_result (some r) =
        rest r (lease_release i (lease_failure (d.dialled_at k) r i q))
          (unfold lease_release lease_failure in refl)
          (inflights-lease_release i ns (lease_failure (d.dialled_at k) r i q) m at w
            (inflights-lease_failure (d.dialled_at k) i r q ∙ e))

attempt-Balances :
    (d : Dialler) (key n k now : ℕ) (bs : List Backend) (q : Pool) (s : Selection) (ns : List ℤ)
    → ((e : Bytes) (t : Pool)
        → t.rr ≡ q.rr
        → inflights t.backends ≡ ns
        → Balances ns (dial_loop d key n (suc k) (some e) t))
    → inflights bs ≡ ns
    → All IsInt32 ns
    → Promised now bs q.backends s
    → Balances ns (attempt d key n k q s)
attempt-Balances d key n k now bs q (refused e) ns rest same w (kept, none_free) =
    (q, no_backend, refl, kept ∙ same)
attempt-Balances d key n k now bs q (lease i) ns rest same w (b, at, free, took) =
    let here : get_elem? ns i ≡ some b.inflight =
      ap (λ xs. get_elem? xs i) (sym same) ∙ get_elem?-inflights bs i b at in
    lease-Balances d key n k i q ns b.inflight rest here (All-get IsInt32 ns i b.inflight w here)
      (took ∙ ap (λ xs. set xs i (add32 b.inflight (pos 1))) same)

-- A step of the loop, when its rest balances the counts.
loop_step :
    (d : Dialler) (key n k : ℕ) (last : Option Bytes) (p : Pool) (ns : List ℤ)
    → ((e : Bytes) (t : Pool)
        → t.rr ≤ p.rr + 1
        → inflights t.backends ≡ ns
        → Balances ns (dial_loop d key n (suc k) (some e) t))
    → key < 0x8000000000000000
    → p.rr < 0x8000000000000000
    → inflights p.backends ≡ ns
    → All IsInt32 ns
    → Balances ns (dial_loop d key (suc n) k last p)
unfolding dial_loop
loop_step d key n k last p ns rest h r same w =
    let (q, s, e, promise) = select-Promised (d.selected_at k) key p h r in
    let bound = select-rr (d.selected_at k) key p q s e in
    let after : Balances ns (attempt d key n k q s) =
      attempt-Balances d key n k (d.selected_at k) p.backends q s ns
        (λ x t z. rest x t (omega arith)) same w promise in
    rw e after

dial_loop-Balances :
    (d : Dialler) (key n k : ℕ) (e : Bytes) (p : Pool) (ns : List ℤ)
    → key < 0x8000000000000000
    → p.rr + n < 0x8000000000000000
    → inflights p.backends ≡ ns
    → All IsInt32 ns
    → Balances ns (dial_loop d key n k (some e) p)
unfolding dial_loop
dial_loop-Balances d key zero k e p ns h r same w = (p, failed (some e), refl, (same, e, refl))
dial_loop-Balances d key (suc n) k e p ns h r same w =
    loop_step d key n k (some e) p ns
      (λ x t bound at. dial_loop-Balances d key n (suc k) x t ns h (omega arith) at w) h
      (omega arith) same w

-- For a key below 2 ^ 63, a round-robin counter more than 3 below it and in-flight counts of an int32,
-- DialViaSocks never panics. When it returns a connection,
-- exactly one slot more is taken, at the backend whose lease it returns; when it fails, every slot
-- that it took is given back, and it fails with an error.
pub dial_via_socks-Balanced :
    (d : Dialler) (key : ℕ) (p : Pool)
    → key < 0x8000000000000000
    → p.rr + 3 < 0x8000000000000000
    → All IsInt32 (inflights p.backends)
    → (q : Pool) × (o : Dialled) × (dial_via_socks d key p ≡ done (q, o))
      × Balanced (inflights p.backends) (inflights q.backends) o
unfolding dial_via_socks
dial_via_socks-Balanced d key p h r w =
    loop_step d key 2 0 none p (inflights p.backends)
      (λ x t bound at. dial_loop-Balances d key 2 1 x t (inflights p.backends) h (omega arith) at w)
      h (omega arith) refl w
