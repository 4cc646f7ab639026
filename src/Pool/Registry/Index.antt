-- ===== src/Pool/Registry/Index.antt =====
-- The index of a pool of pool.go: what New puts into it, and that Get finds it.
use go_multi_warp.Prelude.{
  ℕ, zero, suc, ℤ, ◌==ℤ◌, ==ℤ_iff, ◌≡◌, refl, ap, subst, ◌∙◌, inl, inr, Bool, true, false, List, [],
  ◌∷◌, ◌++◌, some, Bytes, arith, length, get_elem?, All, if◌then◌else◌, Bool-cases,
}
use go_multi_warp.Config.{Config, BackendAddr, backend_addrs}
use go_multi_warp.Pool.Backend.{Backend, new_backend}
use go_multi_warp.Pool.Registry.{made, index_of, add_all, new_pool, get, modify}

get_elem?-append :
    (bs : List Backend) (i : ℕ) (b c : Backend)
    → get_elem? bs i ≡ some b
    → get_elem? (bs ++ c ∷ []) i ≡ some b
get_elem?-append [] i b c e = absurd (cc)
get_elem?-append (d ∷ bs) zero b c e = e
get_elem?-append (d ∷ bs) (suc i) b c e = get_elem?-append bs i b c e

get_elem?_last : (bs : List Backend) (c : Backend) → get_elem? (bs ++ c ∷ []) (length bs) ≡ some c
get_elem?_last [] c = refl
get_elem?_last (d ∷ bs) c = get_elem?_last bs c

-- An entry of the index leads to a backend with its id.
abbrev pub Leads : List Backend → ℤ × ℕ → Type 0
Leads bs (id, i) = (b : Backend) × (get_elem? bs i ≡ some b) × (b.id ≡ id)

Leads-append :
    (bs : List Backend) (c : Backend) (m : List (ℤ × ℕ))
    → All (Leads bs) m
    → All (Leads (bs ++ c ∷ [])) m
Leads-append bs c [] a = tt
Leads-append bs c ((id, i) ∷ m) ((b, e, s), rest) =
    ((b, get_elem?-append bs i b c e, s), Leads-append bs c m rest)

id-made : (now : ℕ) (c : Config) (a : BackendAddr) → (made now c a).id ≡ a.id
id-made now c a = unfold new_backend in refl

-- What a round of New makes of the pair so far.
abbrev round :
    Bool → ℕ → Config → BackendAddr → List Backend × List (ℤ × ℕ) → List Backend × List (ℤ × ℕ)
round ok now c x (bs, m) = if ok then (bs ++ made now c x ∷ [], (x.id, length bs) ∷ m) else (bs, m)

round-Leads :
    (ok : Bool) (now : ℕ) (c : Config) (x : BackendAddr) (bs : List Backend) (m : List (ℤ × ℕ))
    → All (Leads bs) m
    → All (Leads (round ok now c x (bs, m)).0) (round ok now c x (bs, m)).1
round-Leads true now c x bs m a = (
  (made now c x, get_elem?_last bs (made now c x), id-made now c x),
  Leads-append bs (made now c x) m a,
)
round-Leads false now c x bs m a = a

add_all-Leads :
    (splits : Bytes → Bool) (now : ℕ) (c : Config) (xs : List BackendAddr)
    (s : List Backend × List (ℤ × ℕ))
    → All (Leads s.0) s.1
    → All (Leads (add_all splits now c xs s).0) (add_all splits now c xs s).1
unfolding add_all
add_all-Leads splits now c [] (bs, m) a = a
add_all-Leads splits now c (x ∷ xs) (bs, m) a =
    add_all-Leads splits now c xs (round (splits x.addr) now c x (bs, m))
      (round-Leads (splits x.addr) now c x bs m a)

index_of-Leads :
    (bs : List Backend) (id : ℤ) (i : ℕ) (m : List (ℤ × ℕ))
    → All (Leads bs) m
    → index_of id m ≡ some i
    → Leads bs (id, i)
unfolding index_of
index_of-Leads bs id i [] a e = absurd (cc)
index_of-Leads bs id i ((k, j) ∷ m) a e = elim (Bool-cases (k ==ℤ id)) [
  | inl s ↦
      let at : some j ≡ some i = rw (s, if◌then◌else◌) at e in
      let place : j ≡ i = ground arith in
      let same : k ≡ id = (==ℤ_iff k id).0 s in
      (a.0.0, subst (λ n. get_elem? bs n ≡ some a.0.0) place a.0.1, a.0.2 ∙ same)
  | inr s ↦ index_of-Leads bs id i m a.1 (rw (s, if◌then◌else◌) at e)
]

-- An id that the index knows.
abbrev Known : List (ℤ × ℕ) → ℤ → Type 0
Known m id = (i : ℕ) × (index_of id m ≡ some i)

Known-cons : (m : List (ℤ × ℕ)) (k id : ℤ) (j : ℕ) → Known m id → Known ((k, j) ∷ m) id
unfolding index_of
Known-cons m k id j (i, e) = elim (Bool-cases (k ==ℤ id)) [
  | inl s ↦ (j, rw (s, if◌then◌else◌) refl)
  | inr s ↦ (i, rw (s, if◌then◌else◌) e)
]

Known-first : (m : List (ℤ × ℕ)) (id : ℤ) (j : ℕ) → Known ((id, j) ∷ m) id
unfolding index_of
Known-first m id j = (j, rw ((==ℤ_iff id id).1 refl, if◌then◌else◌) refl)

round-Known :
    (ok : Bool) (now : ℕ) (c : Config) (x : BackendAddr) (id : ℤ) (bs : List Backend)
    (m : List (ℤ × ℕ))
    → Known m id
    → Known (round ok now c x (bs, m)).1 id
round-Known true now c x id bs m k = Known-cons m x.id id (length bs) k
round-Known false now c x id bs m k = k

add_all-Known :
    (splits : Bytes → Bool) (now : ℕ) (c : Config) (xs : List BackendAddr) (id : ℤ)
    (s : List Backend × List (ℤ × ℕ))
    → Known s.1 id
    → Known (add_all splits now c xs s).1 id
unfolding add_all
add_all-Known splits now c [] id (bs, m) k = k
add_all-Known splits now c (x ∷ xs) id (bs, m) k =
    add_all-Known splits now c xs id (round (splits x.addr) now c x (bs, m))
      (round-Known (splits x.addr) now c x id bs m k)

first-Known :
    (ok : Bool) (now : ℕ) (c : Config) (x : BackendAddr) (bs : List Backend) (m : List (ℤ × ℕ))
    → ok ≡ true
    → Known (round ok now c x (bs, m)).1 x.id
first-Known true now c x bs m e = Known-first m x.id (length bs)
first-Known false now c x bs m e = absurd (cc)

add_all-Known_at :
    (splits : Bytes → Bool) (now : ℕ) (c : Config) (xs : List BackendAddr) (n : ℕ) (a : BackendAddr)
    (s : List Backend × List (ℤ × ℕ))
    → get_elem? xs n ≡ some a
    → splits a.addr ≡ true
    → Known (add_all splits now c xs s).1 a.id
unfolding add_all
add_all-Known_at splits now c [] n a s e t = absurd (cc)
add_all-Known_at splits now c (x ∷ xs) zero a (bs, m) e t =
    let same : x ≡ a = ground arith in
    let here : splits x.addr ≡ true = ap (λ y. splits y.addr) same ∙ t in
    subst (λ y. Known (add_all splits now c xs (round (splits x.addr) now c x (bs, m))).1 y.id) same
      (add_all-Known splits now c xs x.id (round (splits x.addr) now c x (bs, m))
        (first-Known (splits x.addr) now c x bs m here))
add_all-Known_at splits now c (x ∷ xs) (suc n) a (bs, m) e t =
    add_all-Known_at splits now c xs n a (round (splits x.addr) now c x (bs, m)) e t

-- Get on a new pool gives, for an id, the place of a backend with that id.
get-new_pool :
    (splits : Bytes → Bool) (now : ℕ) (c : Config) (id : ℤ) (i : ℕ)
    → get id (new_pool splits now c) ≡ some i
    → (b : Backend) × (get_elem? (new_pool splits now c).backends i ≡ some b) × (b.id ≡ id)
unfolding get new_pool
get-new_pool splits now c id i e =
    index_of-Leads _ id i _ (add_all-Leads splits now c (backend_addrs c) ([], []) tt) e

-- Every configured address that splits into host and port can be reached by its id in a new pool.
new_pool_reachable :
    (splits : Bytes → Bool) (now : ℕ) (c : Config) (n : ℕ) (a : BackendAddr)
    → get_elem? (backend_addrs c) n ≡ some a
    → splits a.addr ≡ true
    → (i : ℕ) × (b : Backend) × (get a.id (new_pool splits now c) ≡ some i)
      × (get_elem? (new_pool splits now c).backends i ≡ some b)
      × (b.id ≡ a.id)
unfolding get new_pool
new_pool_reachable splits now c n a at e =
    let (i, k) = add_all-Known_at splits now c (backend_addrs c) n a ([], []) at e in
    let (b, here, same) =
      index_of-Leads _ a.id i _ (add_all-Leads splits now c (backend_addrs c) ([], []) tt) k in
    (i, b, k, here, same)

pub get_elem?-modify :
    (i : ℕ) (f : Backend → Backend) (bs : List Backend) (b : Backend)
    → get_elem? bs i ≡ some b
    → get_elem? (modify i f bs) i ≡ some (f b)
unfolding modify
get_elem?-modify i f [] b e = absurd (cc)
get_elem?-modify zero f (c ∷ bs) b e = ground arith
get_elem?-modify (suc i) f (c ∷ bs) b e = get_elem?-modify i f bs b e
