-- ===== src/Pool/Registry/Admission.antt =====
-- Admission of backends in pool.go: Admit, Park, and what InPoolIPv4Set and AdmitStats say.
use go_multi_warp.Prelude.{
  ℕ, suc, ◌+◌, ◌≤◌, ℤ, ◌≡◌, ◌≢◌, refl, ap, subst, ◌⊎◌, inl, inr, true, false, List, [], ◌∷◌, Option,
  none, some, Bytes, bytes_eq, bytes_eq_iff, is_empty, arith, length, get_elem?, All, if◌then◌else◌,
  Bool-cases,
}
use go_multi_warp.Pool.Backend.{Backend, AdmitPhase, in_pool, warming, parked, is_in_pool}
use go_multi_warp.Pool.Registry.{
  Pool, is_tagged, ip_owner, in_pool_ipv4, in_pool_ipv4_set, AdmitStats, member, insert_ip,
  count_phase, count_backends, admit_stats,
}

-- An admitted backend with the address `ip` and the id `id` is in the list.
abbrev pub Owns : Bytes → ℤ → List Backend → Type 0
Owns ip id bs =
    (i : ℕ) × (b : Backend) × (get_elem? bs i ≡ some b)
    × (is_in_pool b.admit ≡ true)
    × (b.egress_ipv4 ≡ ip)
    × (b.id ≡ id)

Owns-cons :
    (ip : Bytes) (id : ℤ) (c : Backend) (bs : List Backend) → Owns ip id bs → Owns ip id (c ∷ bs)
Owns-cons ip id c bs (i, b, e, a, s, k) = (suc i, b, e, a, s, k)

-- No admitted backend has the address `ip`.
abbrev pub Unowned : Bytes → List Backend → Type 0
Unowned ip bs = All (λ b. (is_in_pool b.admit ≡ false) ⊎ (b.egress_ipv4 ≢ ip)) bs

-- What a lookup in the set may say: an owner in the list or in the map so far, or none in either.
abbrev OwnerAnswers : Bytes → List Backend → Option ℤ → Option ℤ → Type 0
OwnerAnswers ip bs old none = (old ≡ none) × Unowned ip bs
OwnerAnswers ip bs old (some id) = (old ≡ some id) ⊎ Owns ip id bs

tagged_step :
    (ip : Bytes) (b : Backend) (bs : List Backend) (m : List (Bytes × ℤ)) (o : Option ℤ)
    → is_tagged b ≡ true
    → OwnerAnswers ip bs (ip_owner ip ((b.egress_ipv4, b.id) ∷ m)) o
    → OwnerAnswers ip (b ∷ bs) (ip_owner ip m) o
unfolding ip_owner
tagged_step ip b bs m none t (e, u) = elim (Bool-cases (bytes_eq b.egress_ipv4 ip)) [
  | inl s ↦ absurd (ground arith)
  | inr d ↦ (
    rw (d, if◌then◌else◌) at e,
    (inr (λ s. ground (arith, (bytes_eq_iff b.egress_ipv4 ip).1 s)), u),
  )
]
tagged_step ip b bs m (some id) t (inr o) = inr (Owns-cons ip id b bs o)
tagged_step ip b bs m (some id) t (inl e) = elim (Bool-cases (bytes_eq b.egress_ipv4 ip)) [
  | inl s ↦
      let found : some b.id ≡ some id = rw (s, if◌then◌else◌) at e in
      inr (0, b, refl, ground arith, (bytes_eq_iff b.egress_ipv4 ip).0 s, ground arith)
  | inr d ↦ inl (rw (d, if◌then◌else◌) at e)
]

untagged_step :
    (ip : Bytes) (b : Backend) (bs : List Backend) (m : List (Bytes × ℤ)) (o : Option ℤ)
    → is_empty ip ≡ false
    → is_tagged b ≡ false
    → OwnerAnswers ip bs (ip_owner ip m) o
    → OwnerAnswers ip (b ∷ bs) (ip_owner ip m) o
untagged_step ip b bs m (some id) n t (inl e) = inl e
untagged_step ip b bs m (some id) n t (inr o) = inr (Owns-cons ip id b bs o)
untagged_step ip b bs m none n t (e, u) = elim (Bool-cases (is_in_pool b.admit)) [
  | inl a ↦ (e, (inr (λ s. ground (arith, ap (λ x. is_empty x) s)), u))
  | inr a ↦ (e, (inl a, u))
]

in_pool_ipv4-Answers :
    (ip : Bytes) (bs : List Backend) (m : List (Bytes × ℤ))
    → is_empty ip ≡ false
    → OwnerAnswers ip bs (ip_owner ip m) (ip_owner ip (in_pool_ipv4 bs m))
unfolding in_pool_ipv4
in_pool_ipv4-Answers ip [] m n = keep (ip_owner ip m)
  where
    keep : (o : Option ℤ) → OwnerAnswers ip [] o o
    keep none = (refl, tt)
    keep (some id) = inl refl
in_pool_ipv4-Answers ip (b ∷ bs) m n = elim (Bool-cases (is_tagged b)) [
  | inl t ↦
      rw (t, if◌then◌else◌)
        (tagged_step ip b bs m _ t (in_pool_ipv4-Answers ip bs ((b.egress_ipv4, b.id) ∷ m) n))
  | inr t ↦ rw (t, if◌then◌else◌) (untagged_step ip b bs m _ n t (in_pool_ipv4-Answers ip bs m n))
]

-- What InPoolIPv4Set says of an address.
abbrev pub SetAnswers : Bytes → List Backend → Option ℤ → Type 0
SetAnswers ip bs none = Unowned ip bs
SetAnswers ip bs (some id) = Owns ip id bs

-- InPoolIPv4Set names, for an address that is not empty, an admitted backend that has it, and has no
-- entry for it only if no admitted backend has it.
pub in_pool_ipv4_set-SetAnswers :
    (ip : Bytes) (p : Pool)
    → is_empty ip ≡ false
    → SetAnswers ip p.backends (ip_owner ip (in_pool_ipv4_set p))
unfolding in_pool_ipv4_set ip_owner
in_pool_ipv4_set-SetAnswers ip p n =
    drop_map (ip_owner ip (in_pool_ipv4 p.backends [])) (in_pool_ipv4-Answers ip p.backends [] n)
  where
    drop_map :
        (o : Option ℤ) → OwnerAnswers ip p.backends (ip_owner ip []) o → SetAnswers ip p.backends o
    drop_map none (e, u) = u
    drop_map (some id) (inl e) = absurd (cc)
    drop_map (some id) (inr o) = o

-- No address twice.
abbrev pub Distinct : List Bytes → Type 0
Distinct [] = Unit {0}
Distinct (k ∷ ks) = (member k ks ≡ false) × Distinct ks

-- The counters of the backends seen so far, in number `n`.
abbrev Tallied : ℕ → AdmitStats → Type 0
Tallied n s = (s.in_pool + s.warming + s.parked ≡ n) × (length s.ips ≤ s.in_pool) × Distinct s.ips

insert_ip-Distinct :
    (ip : Bytes) (ks : List Bytes)
    → Distinct ks
    → Distinct (insert_ip ip ks) × (length (insert_ip ip ks) ≤ length ks + 1)
insert_ip-Distinct ip ks d = elim (Bool-cases (is_empty ip)) [
  | inl e ↦ rw (e, if◌then◌else◌) (d, omega arith)
  | inr e ↦ elim (Bool-cases (member ip ks)) [
    | inl m ↦ rw (e, if◌then◌else◌, m, if◌then◌else◌) (d, omega arith)
    | inr m ↦ rw (e, if◌then◌else◌, m, if◌then◌else◌) ((m, d), omega arith)
  ]
]

count_phase-Tallied :
    (a : AdmitPhase) (ip : Bytes) (n : ℕ) (s : AdmitStats)
    → Tallied n s
    → Tallied (suc n) (count_phase a ip s)
count_phase-Tallied in_pool ip n s (e, l, d) =
    let (k, m) = insert_ip-Distinct ip s.ips d in (omega arith, omega arith, k)
count_phase-Tallied parked ip n s (e, l, d) = (omega arith, l, d)
count_phase-Tallied warming ip n s (e, l, d) = (omega arith, l, d)

count_backends-Tallied :
    (bs : List Backend) (n : ℕ) (s : AdmitStats)
    → Tallied n s
    → Tallied (length bs + n) (count_backends bs s)
unfolding count_backends
count_backends-Tallied [] n s t = let z : n ≡ 0 + n = omega arith in subst (λ m. Tallied m s) z t
count_backends-Tallied (b ∷ bs) n s t =
    let z : length bs + suc n ≡ suc (length bs) + n = omega arith in
    subst (λ m. Tallied m (count_backends bs (count_phase b.admit b.egress_ipv4 s))) z
      (count_backends-Tallied bs (suc n) (count_phase b.admit b.egress_ipv4 s)
        (count_phase-Tallied b.admit b.egress_ipv4 n s t))

-- AdmitStats counts every backend once, in its phase, and no more distinct addresses than there are
-- admitted backends.
admit_stats-length :
    (p : Pool)
    → ((admit_stats p).in_pool + (admit_stats p).warming + (admit_stats p).parked
        ≡ length p.backends)
      × (length (admit_stats p).ips ≤ (admit_stats p).in_pool)
      × Distinct (admit_stats p).ips
unfolding admit_stats
admit_stats-length p =
    let z : length p.backends + 0 ≡ length p.backends = omega arith in
    subst
      (λ n.
        Tallied n
          (count_backends p.backends (record { in_pool = 0; warming = 0; parked = 0; ips = [] })))
      z
      (count_backends-Tallied p.backends 0
        (record { in_pool = 0; warming = 0; parked = 0; ips = [] }) (refl, omega arith, tt))
