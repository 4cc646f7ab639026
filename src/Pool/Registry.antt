-- ===== src/Pool/Registry.antt =====
-- internal/pool/pool.go: the pool, its index, and what it does to a backend by id. A `*Backend` is its
-- place in `backends`, which `index` gives for an id: the two share the backend.
pub mod Index
pub mod Admission
use go_multi_warp.Prelude.{
  ℕ, zero, suc, ◌+◌, ℤ, pos, ◌==ℤ◌, inc_u64, to_int32, Bool, true, false, not, ◌&&◌, List, [], ◌∷◌,
  ◌++◌, map, Option, none, some, Bytes, bytes_eq, is_empty, length, get_elem?, set, if◌then◌else◌,
}
use go_multi_warp.Config.{Config, BackendAddr, PoolStrategy, backend_addrs}
use go_multi_warp.Pool.Backend.{
  Backend, State, ProbeInfo, AdmitPhase, warming, in_pool, parked, Snapshot, new_backend,
  is_in_pool, is_selectable, mark_probe_ok, mark_probe_fail, mark_failure, mark_success,
  force_state, set_admit, snapshot, release,
}

pub record StickyEntry : Type 0 where
  pub id : ℤ
  pub updated : ℕ

pub record Pool : Type 0 where
  pub backends : List Backend
  pub index : List (ℤ × ℕ)
  pub strategy : PoolStrategy
  pub sticky_ttl : ℤ
  pub sticky : List (ℕ × StickyEntry)
  pub rr : ℕ  -- uint64
  pub selects : ℕ  -- uint64
  pub select_fail : ℕ  -- uint64
  pub success : ℕ  -- uint64
  pub failure : ℕ  -- uint64

-- The entry that was written last stands first.
unfoldable pub index_of : ℤ → List (ℤ × ℕ) → Option ℕ
index_of id [] = none
index_of id ((k, i) ∷ m) = if k ==ℤ id then some i else index_of id m

abbrev pub made : ℕ → Config → BackendAddr → Backend
made now c b =
    new_backend now b.id b.addr c.pool.max_fails c.pool.fail_timeout c.pool.open_after
      (to_int32 c.pool.max_inflight_per_be)

-- The loop of New, over the addresses that are left. `splits` is net.SplitHostPort without error.
unfoldable pub add_all :
    (Bytes → Bool)
    → ℕ
    → Config
    → List BackendAddr
    → List Backend × List (ℤ × ℕ)
    → List Backend × List (ℤ × ℕ)
add_all splits now c [] (bs, m) = (bs, m)
add_all splits now c (a ∷ rest) (bs, m) =
    add_all splits now c rest
      (if splits a.addr then (bs ++ made now c a ∷ [], (a.id, length bs) ∷ m) else (bs, m))

unfoldable pub new_pool : (Bytes → Bool) → ℕ → Config → Pool
unfolding add_all
new_pool splits now c =
    let (bs, m) = add_all splits now c (backend_addrs c) ([], []) in
    record {
      backends = bs;
      index = m;
      strategy = c.pool.strategy;
      sticky_ttl = c.pool.sticky_ttl;
      sticky = [];
      rr = 0;
      selects = 0;
      select_fail = 0;
      success = 0;
      failure = 0;
    }

-- Get: the place of the backend, if there is one.
unfoldable pub get : ℤ → Pool → Option ℕ
get id p = index_of id p.index

-- A method call through a pointer into the pool.
unfoldable pub modify : ℕ → (Backend → Backend) → List Backend → List Backend
modify i f [] = []
modify zero f (b ∷ bs) = f b ∷ bs
modify (suc i) f (b ∷ bs) = b ∷ modify i f bs

abbrev pub update : ℕ → (Backend → Backend) → Pool → Pool
update i f p = record p { backends = modify i f p.backends }

-- Healthy: each backend is asked, which may change it; the places of those that are selectable.
unfoldable pub healthy_from : ℕ → ℕ → List Backend → List Backend × List ℕ
healthy_from now i [] = ([], [])
healthy_from now i (b ∷ bs) =
    let (c, ok) = is_selectable now b in
    let (cs, places) = healthy_from now (suc i) bs in (c ∷ cs, if ok then i ∷ places else places)

unfoldable pub healthy_count : ℕ → Pool → Pool × ℕ
unfolding healthy_from
healthy_count now p =
    let (bs, places) = healthy_from now 0 p.backends in (record p { backends = bs }, length places)

unfoldable pub snapshots : ℕ → Pool → List Snapshot
snapshots now p = map (snapshot now) p.backends

-- if b := p.Get(id); b != nil { ... }
abbrev pub with_place {ℓ} : {A : Type ℓ} → Option ℕ → A → (ℕ → A) → A
with_place none a f = a
with_place (some i) a f = f i

abbrev pub at_id : ℤ → (ℕ → Pool → Pool) → Pool → Pool
at_id id f p = with_place (get id p) p (λ i. f i p)

unfoldable pub pool_mark_probe_ok : ℕ → ℤ → ProbeInfo → Pool → Pool
unfolding get
pool_mark_probe_ok now id info p =
    at_id id (λ i q. record (update i (mark_probe_ok now info) q) { success = inc_u64 q.success }) p

unfoldable pub pool_mark_probe_fail : ℕ → ℤ → Bytes → Pool → Pool
unfolding get
pool_mark_probe_fail now id reason p =
    at_id id
      (λ i q. record (update i (mark_probe_fail now reason) q) { failure = inc_u64 q.failure }) p

unfoldable pub pool_force_state : ℕ → ℤ → State → Pool → Pool
unfolding get
pool_force_state now id s p = at_id id (λ i. update i (force_state now s)) p

-- The calls of a lease. The backend is at the place that the lease holds.
unfoldable pub lease_success : ℕ → ℕ → Pool → Pool
lease_success now i p = update i (mark_success now) p

unfoldable pub lease_failure : ℕ → Bytes → ℕ → Pool → Pool
lease_failure now reason i p = update i (mark_failure now reason) p

unfoldable pub lease_release : ℕ → Pool → Pool
lease_release i p = update i release p

abbrev pub set_admit_at : ℕ → ℤ → AdmitPhase → Bytes → Pool → Pool × Bool
set_admit_at now id phase ip p =
    with_place (get id p) (p, false) (λ i. (update i (set_admit now phase ip) p, true))

unfoldable pub admit : ℕ → ℤ → Bytes → Pool → Pool × Bool
unfolding get
admit now id ip p = set_admit_at now id in_pool ip p

unfoldable pub park : ℕ → ℤ → Bytes → Pool → Pool × Bool
unfolding get
park now id ip p = set_admit_at now id parked ip p

unfoldable pub set_warming : ℕ → ℤ → Pool → Pool × Bool
unfolding get
set_warming now id p = set_admit_at now id warming [] p

-- The map of InPoolIPv4Set after the backends that are left: a later entry replaces an earlier one.
unfoldable pub ip_owner : Bytes → List (Bytes × ℤ) → Option ℤ
ip_owner ip [] = none
ip_owner ip ((k, id) ∷ m) = if bytes_eq k ip then some id else ip_owner ip m

abbrev pub is_tagged : Backend → Bool
is_tagged b = is_in_pool b.admit && not (is_empty b.egress_ipv4)

unfoldable pub in_pool_ipv4 : List Backend → List (Bytes × ℤ) → List (Bytes × ℤ)
in_pool_ipv4 [] m = m
in_pool_ipv4 (b ∷ bs) m = in_pool_ipv4 bs (if is_tagged b then (b.egress_ipv4, b.id) ∷ m else m)

unfoldable pub in_pool_ipv4_set : Pool → List (Bytes × ℤ)
unfolding in_pool_ipv4
in_pool_ipv4_set p = in_pool_ipv4 p.backends []

pub record AdmitStats : Type 0 where
  pub in_pool : ℕ
  pub warming : ℕ
  pub parked : ℕ
  pub ips : List Bytes  -- the keys of the set

unfoldable pub member : Bytes → List Bytes → Bool
member ip [] = false
member ip (k ∷ ks) = if bytes_eq k ip then true else member ip ks

abbrev pub insert_ip : Bytes → List Bytes → List Bytes
insert_ip ip ks = if is_empty ip then ks else if member ip ks then ks else ip ∷ ks

abbrev pub count_phase : AdmitPhase → Bytes → AdmitStats → AdmitStats
count_phase AdmitPhase.in_pool ip s = record s { in_pool = suc s.in_pool; ips = insert_ip ip s.ips }
count_phase AdmitPhase.parked ip s = record s { parked = suc s.parked }
count_phase AdmitPhase.warming ip s = record s { warming = suc s.warming }

unfoldable pub count_backends : List Backend → AdmitStats → AdmitStats
count_backends [] s = s
count_backends (b ∷ bs) s = count_backends bs (count_phase b.admit b.egress_ipv4 s)

unfoldable pub admit_stats : Pool → AdmitStats
unfolding count_backends
admit_stats p =
    count_backends p.backends (record { in_pool = 0; warming = 0; parked = 0; ips = [] })
