-- ===== src/Control/Uniqueness/Snapshot.antt =====
-- internal/control/uniqueness.go: SnapshotStats, what the admin interface shows of the engine.
use go_multi_warp.Prelude.{
  ℕ, suc, ◌+◌, ◌≡◌, refl, sym, ap, ℤ, pos, ltb_ℤ, leb_ℤ, quot, ltb, Bool, true, false, ◌&&◌, ◌||◌,
  List, [], ◌∷◌, Bytes, bytes_eq, bytes_eq_iff, inl, inr, is_empty, length, not, arith,
  if◌then◌else◌, Bool-cases,
}
use go_multi_warp.Pool.Backend.{Backend, AdmitPhase, in_pool, warming, parked, is_in_pool}
use go_multi_warp.Pool.Registry.{
  Pool, is_tagged, AdmitStats, member, insert_ip, count_phase, count_backends, admit_stats,
}
use go_multi_warp.Control.Backoff.{recheck_every}
use go_multi_warp.Control.Uniqueness.{Engine, Settings, UniqueStats, reg_capacity}
use go_multi_warp.Control.Uniqueness.Recheck.{unique_ips}

-- out[ip]++
unfoldable pub bump : Bytes → List (Bytes × ℕ) → List (Bytes × ℕ)
bump ip [] = (ip, 1) ∷ []
bump ip ((k, n) ∷ m) =
    let rest = bump ip m in if bytes_eq k ip then (k, suc n) ∷ m else (k, n) ∷ rest

unfoldable pub histogram_from : List Backend → List (Bytes × ℕ) → List (Bytes × ℕ)
unfolding bump
histogram_from [] m = m
histogram_from (b ∷ bs) m = histogram_from bs (if is_tagged b then bump b.egress_ipv4 m else m)

unfoldable pub egress_histogram : Pool → List (Bytes × ℕ)
unfolding histogram_from
egress_histogram p = histogram_from p.backends []

pub record StatsSnapshot : Type 0 where
  pub stats : UniqueStats
  pub ceiling_hit : Bool
  pub unique_ipv4 : ℕ
  pub in_pool_count : ℕ
  pub histogram : List (Bytes × ℕ)
  pub max_concurrent_reg : ℕ
  pub recheck_every_ms : ℤ

abbrev is_ceiling : ℤ → ℕ → ℕ → Bool
is_ceiling instances in_pool_count unique =
    ltb 0 unique && (leb_ℤ instances (pos in_pool_count) && ltb_ℤ (pos unique) instances)

unfoldable pub snapshot_stats : Settings → Engine → StatsSnapshot
unfolding egress_histogram
snapshot_stats s e =
    let a = admit_stats e.pool in
    record {
      stats = e.stats;
      ceiling_hit =
          ltb 0 e.stats.ceiling_hit || is_ceiling s.config.instances a.in_pool (unique_ips a);
      unique_ipv4 = unique_ips a;
      in_pool_count = a.in_pool;
      histogram = egress_histogram e.pool;
      max_concurrent_reg = reg_capacity s.config.uniqueness;
      recheck_every_ms = quot (recheck_every s.config.uniqueness) 1000000;
    }

unfoldable has_key : Bytes → List (Bytes × ℕ) → Bool
has_key ip [] = false
has_key ip ((k, n) ∷ m) = if bytes_eq k ip then true else has_key ip m

-- The sum of the counts.
unfoldable pub total : List (Bytes × ℕ) → ℕ
total [] = 0
total ((k, n) ∷ m) = n + total m

-- The backends that are in the pool with an address.
unfoldable pub tagged : List Backend → ℕ
tagged [] = 0
tagged (b ∷ bs) = let rest = tagged bs in if is_tagged b then suc rest else rest

length-bump :
    (ip : Bytes) (m : List (Bytes × ℕ))
    → length (bump ip m) ≡ (if has_key ip m then length m else suc (length m))
unfolding bump has_key
length-bump ip [] = refl
length-bump ip ((k, n) ∷ m) = let rest = length-bump ip m in ground arith

total-bump : (ip : Bytes) (m : List (Bytes × ℕ)) → total (bump ip m) ≡ suc (total m)
unfolding bump total
total-bump ip [] = omega arith
total-bump ip ((k, n) ∷ m) = let rest = total-bump ip m in ground arith

has_key-bump :
    (ip key : Bytes) (m : List (Bytes × ℕ))
    → has_key key (bump ip m) ≡ (if bytes_eq ip key then true else has_key key m)
unfolding bump has_key
has_key-bump ip key [] = refl
has_key-bump ip key ((k, n) ∷ m) = elim (Bool-cases (bytes_eq k ip)) [
  | inl t ↦
      let same : bytes_eq k key ≡ bytes_eq ip key =
        ap (λ z. bytes_eq z key) ((bytes_eq_iff k ip).0 t) in
      ground arith
  | inr f ↦ let rest = has_key-bump ip key m in ground arith
]

-- The histogram and the set of AdmitStats have the same addresses.
abbrev Agree : List Bytes → List (Bytes × ℕ) → Type 0
Agree ks m = (length ks ≡ length m) × ((ip : Bytes) → member ip ks ≡ has_key ip m)

insert_ip-Agree :
    (ip : Bytes) (ks : List Bytes) (m : List (Bytes × ℕ))
    → is_empty ip ≡ false
    → Agree ks m
    → Agree (insert_ip ip ks) (bump ip m)
unfolding member
insert_ip-Agree ip ks m n (l, same) =
    let at = same ip in
    let grown = length-bump ip m in
    let sized : length (insert_ip ip ks) ≡ length (bump ip m) = ground arith in
    (
      sized,
      λ key.
          let old = same key in
          let new = has_key-bump ip key m in
          elim (Bool-cases (bytes_eq ip key)) [
            | inl t ↦
                let there : member key ks ≡ member ip ks =
                  ap (λ z. member z ks) (sym ((bytes_eq_iff ip key).0 t)) in
                ground arith
            | inr f ↦ ground arith
          ],
    )

count_phase-Agree :
    (a : AdmitPhase) (ip : Bytes) (s : AdmitStats) (m : List (Bytes × ℕ))
    → Agree s.ips m
    → Agree (count_phase a ip s).ips (if is_in_pool a && not (is_empty ip) then bump ip m else m)
count_phase-Agree warming ip s m a = a
count_phase-Agree parked ip s m a = a
count_phase-Agree in_pool ip s m a = elim (Bool-cases (is_empty ip)) [
  | inl e ↦ rw (e, if◌then◌else◌) a
  | inr e ↦
      let b = insert_ip-Agree ip s.ips m e a in rw (e, if◌then◌else◌) (rw (e, if◌then◌else◌) at b)
]

histogram-Agree :
    (bs : List Backend) (s : AdmitStats) (m : List (Bytes × ℕ))
    → Agree s.ips m
    → Agree (count_backends bs s).ips (histogram_from bs m)
unfolding count_backends histogram_from
histogram-Agree [] s m a = a
histogram-Agree (b ∷ bs) s m a =
    histogram-Agree bs (count_phase b.admit b.egress_ipv4 s)
      (if is_tagged b then bump b.egress_ipv4 m else m)
      (count_phase-Agree b.admit b.egress_ipv4 s m a)

histogram-total :
    (bs : List Backend) (m : List (Bytes × ℕ)) → total (histogram_from bs m) ≡ total m + tagged bs
unfolding histogram_from tagged
histogram-total [] m = omega arith
histogram-total (b ∷ bs) m =
    let rest = histogram-total bs (if is_tagged b then bump b.egress_ipv4 m else m) in
    let one = total-bump b.egress_ipv4 m in ground arith

-- The histogram of SnapshotStats has as many addresses as `unique_ipv4` says, and its counts add up to
-- the number of admitted backends with an address.
snapshot_stats-histogram :
    (s : Settings) (e : Engine)
    → (length (snapshot_stats s e).histogram ≡ (snapshot_stats s e).unique_ipv4)
      × (total (snapshot_stats s e).histogram ≡ tagged e.pool.backends)
unfolding snapshot_stats egress_histogram admit_stats member has_key total
snapshot_stats-histogram s e =
    let a =
      histogram-Agree e.pool.backends (record { in_pool = 0; warming = 0; parked = 0; ips = [] }) []
        (refl, λ ip. refl) in
    let t = histogram-total e.pool.backends [] in (sym a.0, omega arith)
