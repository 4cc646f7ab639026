-- ===== src/Control/Uniqueness/Addresses.antt =====
-- internal/control/uniqueness.go: the addresses of the admitted backends, and what the changes of the
-- engine do to them.
use go_multi_warp.Prelude.{
  ℕ, zero, suc, ◌+◌, ℤ, ◌≡◌, ◌≢◌, refl, sym, ap, subst, ◌∙◌, ◌⊎◌, inl, inr, Bool, true, false, List,
  [], ◌∷◌, Option, none, some, Bytes, is_empty, arith, get_elem?, All,
}
use go_multi_warp.Pool.Backend.{
  Backend, unknown, in_pool, warming, parked, is_in_pool, set_admit, force_state,
}
use go_multi_warp.Pool.Registry.{
  Pool, get, index_of, modify, update, with_place, admit, park, set_warming, pool_force_state,
}
use go_multi_warp.Pool.Registry.Admission.{Unowned}

-- Not both in the pool with the same address.
abbrev pub Differ : Backend → Backend → Type 0
Differ b c =
    (is_in_pool b.admit ≡ false) ⊎ (is_in_pool c.admit ≡ false) ⊎ (b.egress_ipv4 ≢ c.egress_ipv4)

-- No two admitted backends have the same address.
abbrev pub Apart : List Backend → Type 0
Apart [] = Unit {0}
Apart (b ∷ bs) = All (Differ b) bs × Apart bs

-- The index gives for the id of every backend the place where it stands.
abbrev pub Indexed : List (ℤ × ℕ) → ℕ → List Backend → Type 0
Indexed m i [] = Unit {0}
Indexed m i (b ∷ bs) = (index_of b.id m ≡ some i) × Indexed m (suc i) bs

abbrev pub Out : Backend → Type 0
Out b = is_in_pool b.admit ≡ false

Indexed-modify :
    (m : List (ℤ × ℕ)) (k i : ℕ) (f : Backend → Backend) (bs : List Backend)
    → ((b : Backend) → (f b).id ≡ b.id)
    → Indexed m k bs
    → Indexed m k (modify i f bs)
unfolding modify
Indexed-modify m k i f [] h x = x
Indexed-modify m k zero f (b ∷ bs) h (e, x) =
    (subst (λ id. index_of id m ≡ some k) (sym (h b)) e, x)
Indexed-modify m k (suc i) f (b ∷ bs) h (e, x) = (e, Indexed-modify m (suc k) i f bs h x)

pub Indexed-get :
    (m : List (ℤ × ℕ)) (k i : ℕ) (bs : List Backend) (b : Backend)
    → Indexed m k bs
    → get_elem? bs i ≡ some b
    → index_of b.id m ≡ some (k + i)
Indexed-get m k i [] b x e = absurd (cc)
Indexed-get m k zero (c ∷ bs) b (h, x) e =
    let same : c ≡ b = ground arith in
    subst (λ d. index_of d.id m ≡ some (k + 0)) same (h ∙ ap some (omega arith))
Indexed-get m k (suc i) (c ∷ bs) b (h, x) e =
    Indexed-get m (suc k) i bs b x e ∙ ap some (omega arith)

Differ-sym : (b c : Backend) → Differ b c → Differ c b
Differ-sym b c (inl o) = inr (inl o)
Differ-sym b c (inr (inl o)) = inl o
Differ-sym b c (inr (inr o)) = inr (inr (λ z. o (sym z)))

-- A change of one backend keeps the addresses apart if it does so towards each other backend.
module _ (P : Backend → Type 0) (f : Backend → Backend)
    (h : (b c : Backend) → P c → Differ b c → Differ (f b) c) where
  Differ-changed :
      (b : Backend) (bs : List Backend) → All P bs → All (Differ b) bs → All (Differ (f b)) bs
  Differ-changed b [] ps a = tt
  Differ-changed b (c ∷ bs) (p, ps) (d, a) = (h b c p d, Differ-changed b bs ps a)

  Differ-modify :
      (i : ℕ) (b : Backend) (bs : List Backend)
      → P b
      → All (Differ b) bs
      → All (Differ b) (modify i f bs)
  unfolding modify
  Differ-modify i b [] p a = tt
  Differ-modify zero b (c ∷ bs) p (d, a) = (Differ-sym (f c) b (h c b p (Differ-sym b c d)), a)
  Differ-modify (suc i) b (c ∷ bs) p (d, a) = (d, Differ-modify i b bs p a)

  Apart-modify : (i : ℕ) (bs : List Backend) → All P bs → Apart bs → Apart (modify i f bs)
  unfolding modify
  Apart-modify i [] ps a = tt
  Apart-modify zero (b ∷ bs) (p, ps) (d, a) = (Differ-changed b bs ps d, a)
  Apart-modify (suc i) (b ∷ bs) (p, ps) (d, a) = (Differ-modify i b bs p d, Apart-modify i bs ps a)

-- A change that takes a backend out, or leaves its phase and address.
abbrev pub Fades : (Backend → Backend) → Type 0
Fades f =
    (b : Backend) → Out (f b) ⊎ (((f b).admit ≡ b.admit) × ((f b).egress_ipv4 ≡ b.egress_ipv4))

Differ-faded :
    (b c d : Backend)
    → Out d ⊎ ((d.admit ≡ b.admit) × (d.egress_ipv4 ≡ b.egress_ipv4))
    → Differ b c
    → Differ d c
Differ-faded b c d (inl o) x = inl o
Differ-faded b c d (inr (p, q)) (inl o) = inl (ap is_in_pool p ∙ o)
Differ-faded b c d (inr (p, q)) (inr (inl o)) = inr (inl o)
Differ-faded b c d (inr (p, q)) (inr (inr o)) = inr (inr (λ z. o (sym q ∙ z)))

All-Unit : (bs : List Backend) → All (λ b. Unit {0}) bs
All-Unit [] = tt
All-Unit (b ∷ bs) = (tt, All-Unit bs)

Apart-faded :
    (f : Backend → Backend)
    → Fades f
    → (i : ℕ) (bs : List Backend) → Apart bs
    → Apart (modify i f bs)
Apart-faded f h i bs a =
    Apart-modify (λ b. Unit {0}) f (λ b c u d. Differ-faded b c (f b) (h b) d) i bs (All-Unit bs) a

Out-faded :
    (f : Backend → Backend)
    → Fades f
    → (i : ℕ) (bs : List Backend) → All Out bs
    → All Out (modify i f bs)
unfolding modify
Out-faded f h i [] a = tt
Out-faded f h zero (b ∷ bs) (o, a) = (step (h b), a)
  where
    step : Out (f b) ⊎ (((f b).admit ≡ b.admit) × ((f b).egress_ipv4 ≡ b.egress_ipv4)) → Out (f b)
    step (inl x) = x
    step (inr (p, q)) = ap is_in_pool p ∙ o
Out-faded f h (suc i) (b ∷ bs) (o, a) = (o, Out-faded f h i bs a)

Apart-admitted :
    (now : ℕ) (ip : Bytes) (i : ℕ) (bs : List Backend)
    → is_empty ip ≡ false
    → Unowned ip bs
    → Apart bs
    → Apart (modify i (set_admit now in_pool ip) bs)
unfolding set_admit
Apart-admitted now ip i bs n u a =
    Apart-modify (λ c. (is_in_pool c.admit ≡ false) ⊎ (c.egress_ipv4 ≢ ip))
      (set_admit now in_pool ip) step i bs u a
  where
    tagged : (b : Backend) → (set_admit now in_pool ip b).egress_ipv4 ≡ ip
    tagged b = ground arith

    step :
        (b c : Backend)
        → (is_in_pool c.admit ≡ false) ⊎ (c.egress_ipv4 ≢ ip)
        → Differ b c
        → Differ (set_admit now in_pool ip b) c
    step b c (inl o) d = inr (inl o)
    step b c (inr o) d = inr (inr (λ z. o (sym z ∙ tagged b)))

-- The part of the invariant that is about the pool.
abbrev pub Told : Pool → Type 0
Told p = Indexed p.index 0 p.backends × Apart p.backends

pub Told-admit :
    (now : ℕ) (id : ℤ) (ip : Bytes) (p : Pool)
    → is_empty ip ≡ false
    → Unowned ip p.backends
    → Told p
    → Told (admit now id ip p).0
unfolding admit set_admit
Told-admit now id ip p n u (x, a) = step (get id p)
  where
    step :
        (o : Option ℕ)
        → Told
            (with_place {A = Pool × Bool} o
              (p, false)
              (λ i. (update i (set_admit now in_pool ip) p, true))).0
    step none = (x, a)
    step (some i) = (
      Indexed-modify p.index 0 i (set_admit now in_pool ip) p.backends (λ b. refl) x,
      Apart-admitted now ip i p.backends n u a,
    )

-- What the other changes of the pool keep.
abbrev pub Kept : Pool → Pool → Type 0
Kept p q = (Told p → Told q) × (All Out p.backends → All Out q.backends)

pub Kept-faded :
    (f : Backend → Backend) (p : Pool) (i : ℕ)
    → Fades f
    → ((b : Backend) → (f b).id ≡ b.id)
    → Kept p (update i f p)
Kept-faded f p i h k = (
  λ (x, a). (Indexed-modify p.index 0 i f p.backends k x, Apart-faded f h i p.backends a),
  λ a. Out-faded f h i p.backends a,
)

pub Kept-park : (now : ℕ) (id : ℤ) (ip : Bytes) (p : Pool) → Kept p (park now id ip p).0
unfolding park set_admit
Kept-park now id ip p = step (get id p)
  where
    step :
        (o : Option ℕ)
        → Kept p
            (with_place {A = Pool × Bool} o
              (p, false)
              (λ i. (update i (set_admit now parked ip) p, true))).0
    step none = (λ x. x, λ x. x)
    step (some i) = Kept-faded (set_admit now parked ip) p i (λ b. inl refl) (λ b. refl)

pub Kept-set_warming : (now : ℕ) (id : ℤ) (p : Pool) → Kept p (set_warming now id p).0
unfolding set_warming set_admit
Kept-set_warming now id p = step (get id p)
  where
    step :
        (o : Option ℕ)
        → Kept p
            (with_place {A = Pool × Bool} o
              (p, false)
              (λ i. (update i (set_admit now warming []) p, true))).0
    step none = (λ x. x, λ x. x)
    step (some i) = Kept-faded (set_admit now warming []) p i (λ b. inl refl) (λ b. refl)

pub Kept-unknown : (now : ℕ) (id : ℤ) (p : Pool) → Kept p (pool_force_state now id unknown p)
unfolding pool_force_state force_state
Kept-unknown now id p = step (get id p)
  where
    step : (o : Option ℕ) → Kept p (with_place o p (λ i. update i (force_state now unknown) p))
    step none = (λ x. x, λ x. x)
    step (some i) = Kept-faded (force_state now unknown) p i (λ b. inr (refl, refl)) (λ b. refl)
