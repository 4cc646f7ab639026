-- ===== src/Pool/Select/Slots.antt =====
-- What a poll and an attempt do to the backends of a pool, for the proofs about pool.go's strategies.
use go_multi_warp.Prelude.{
  ℕ, zero, suc, ◌+◌, pos, add32, ◌≡◌, refl, sym, ap, ◌∙◌, inl, inr, Bool, true, false, ◌&&◌, List,
  [], ◌∷◌, map, some, arith, get_elem?, set, All, if◌then◌else◌, Bool-cases,
}
use go_multi_warp.Pool.Backend.{Backend, has_capacity, is_selectable, try_acquire}
use go_multi_warp.Pool.Backend.Breaker.{is_selectable_idem}
use go_multi_warp.Pool.Registry.{healthy_from}
use go_multi_warp.Pool.Select.{acquire_at}

-- The backend after a poll at `now`, and whether it would give a slot then.
abbrev pub poll : ℕ → Backend → Backend
poll now b = (is_selectable now b).0

abbrev pub is_free : ℕ → Backend → Bool
is_free now b = (is_selectable now b).1 && has_capacity b

-- The backend with one more slot taken.
abbrev pub taken : Backend → Backend
taken b = record b { inflight = add32 b.inflight (pos 1) }

abbrev pub polled : ℕ → List Backend → List Backend
polled now bs = map (poll now) bs

-- A poll has nothing to change.
abbrev pub Steady : ℕ → Backend → Type 0
Steady now b = is_selectable now b ≡ (b, (is_selectable now b).1)

poll-Steady : (now : ℕ) (b : Backend) → Steady now (poll now b)
poll-Steady now b =
    is_selectable_idem now b
    ∙ ap (λ r. (poll now b, r)) (sym (ap (λ r. r.1) (is_selectable_idem now b)))

pub polled-Steady : (now : ℕ) (bs : List Backend) → All (Steady now) (polled now bs)
polled-Steady now [] = tt
polled-Steady now (b ∷ bs) = (poll-Steady now b, polled-Steady now bs)

pub inflight-poll :
    (now : ℕ) (b : Backend)
    → ((poll now b).inflight ≡ b.inflight) × ((poll now b).max_inflight ≡ b.max_inflight)
unfolding is_selectable
inflight-poll now b = ground arith

-- A poll does not change whether a slot would be given.
pub is_free-poll : (now : ℕ) (b : Backend) → is_free now (poll now b) ≡ is_free now b
is_free-poll now b = ground (arith, is_selectable_idem now b, inflight-poll now b)

pub poll_selectable :
    (now : ℕ) (b : Backend) → (is_selectable now (poll now b)).1 ≡ (is_selectable now b).1
poll_selectable now b = ap (λ r. r.1) (is_selectable_idem now b)

pub try_acquire_free :
    (now : ℕ) (b : Backend)
    → Steady now b
    → is_free now b ≡ true
    → try_acquire now b ≡ (taken b, true)
unfolding try_acquire
try_acquire_free now b s f = rw (s, try_acquire) (ground arith)

pub try_acquire_busy :
    (now : ℕ) (b : Backend) → Steady now b → is_free now b ≡ false → try_acquire now b ≡ (b, false)
unfolding try_acquire
try_acquire_busy now b s f = rw (s, try_acquire) (ground arith)

pub acquire_at_free :
    (now i : ℕ) (bs : List Backend) (b : Backend)
    → All (Steady now) bs
    → get_elem? bs i ≡ some b
    → is_free now b ≡ true
    → acquire_at now i bs ≡ (set bs i (taken b), true)
unfolding acquire_at
acquire_at_free now i [] b s e f = absurd (cc)
acquire_at_free now zero (c ∷ bs) b s e f = ground (arith, try_acquire_free now c s.0)
acquire_at_free now (suc i) (c ∷ bs) b s e f = ground (arith, acquire_at_free now i bs b s.1 e f)

pub acquire_at_busy :
    (now i : ℕ) (bs : List Backend) (b : Backend)
    → All (Steady now) bs
    → get_elem? bs i ≡ some b
    → is_free now b ≡ false
    → acquire_at now i bs ≡ (bs, false)
unfolding acquire_at
acquire_at_busy now i [] b s e f = absurd (cc)
acquire_at_busy now zero (c ∷ bs) b s e f = ground (arith, try_acquire_busy now c s.0)
acquire_at_busy now (suc i) (c ∷ bs) b s e f = ground (arith, acquire_at_busy now i bs b s.1 e f)

-- The places of the selectable backends, counted from `k`.
unfoldable pub places : ℕ → ℕ → List Backend → List ℕ
places now k [] = []
places now k (b ∷ bs) =
    if (is_selectable now b).1 then k ∷ places now (suc k) bs else places now (suc k) bs

-- Healthy polls every backend and gives the places of the selectable ones.
pub healthy_from_lem :
    (now k : ℕ) (bs : List Backend) → healthy_from now k bs ≡ (polled now bs, places now k bs)
unfolding healthy_from places
healthy_from_lem now k [] = refl
healthy_from_lem now k (b ∷ bs) = ground (arith, healthy_from_lem now (suc k) bs)

-- The places are those of a polled list.
pub places-polled : (now k : ℕ) (bs : List Backend) → places now k (polled now bs) ≡ places now k bs
unfolding places
places-polled now k [] = refl
places-polled now k (b ∷ bs) = rw (is_selectable_idem now b, places-polled now (suc k) bs)

-- A listed place is a backend's, and that is selectable.
abbrev pub Listed : ℕ → ℕ → List Backend → ℕ → Type 0
Listed now k bs j =
    (i : ℕ) × (b : Backend) × (j ≡ k + i)
    × (get_elem? bs i ≡ some b)
    × ((is_selectable now b).1 ≡ true)

Listed-cons :
    (now k j : ℕ) (c : Backend) (bs : List Backend)
    → Listed now (suc k) bs j
    → Listed now k (c ∷ bs) j
Listed-cons now k j c bs (i, b, e, g, s) = (suc i, b, omega arith, g, s)

Listed-first :
    (now k : ℕ) (bs : List Backend) (b : Backend)
    → (is_selectable now b).1 ≡ true
    → (m j : ℕ) → ((n : ℕ) → get_elem? (places now (suc k) bs) n ≡ some j → Listed now (suc k) bs j)
    → get_elem? (k ∷ places now (suc k) bs) m ≡ some j
    → Listed now k (b ∷ bs) j
Listed-first now k bs b s zero j rest e = (0, b, ground arith, refl, s)
Listed-first now k bs b s (suc m) j rest e = Listed-cons now k j b bs (rest m e)

pub places_sound :
    (now k : ℕ) (bs : List Backend) (m j : ℕ)
    → get_elem? (places now k bs) m ≡ some j
    → Listed now k bs j
unfolding places
places_sound now k [] m j e = absurd (cc)
places_sound now k (b ∷ bs) m j e = elim (Bool-cases (is_selectable now b).1) [
  | inl s ↦
      Listed-first now k bs b s m j (λ n. places_sound now (suc k) bs n j)
        (rw (s, if◌then◌else◌) at e)
  | inr s ↦ Listed-cons now k j b bs (places_sound now (suc k) bs m j (rw (s, if◌then◌else◌) at e))
]

-- Every selectable backend's place is listed.
pub places_complete :
    (now k : ℕ) (bs : List Backend) (i : ℕ) (b : Backend)
    → get_elem? bs i ≡ some b
    → (is_selectable now b).1 ≡ true
    → (m : ℕ) × (get_elem? (places now k bs) m ≡ some (k + i))
unfolding places
places_complete now k [] i b e s = absurd (cc)
places_complete now k (c ∷ bs) zero b e s = (0, ground arith)
places_complete now k (c ∷ bs) (suc i) b e s =
    let (m, at) = places_complete now (suc k) bs i b e s in
    elim (Bool-cases (is_selectable now c).1) [
      | inl t ↦ (suc m, rw (t, if◌then◌else◌) (ground arith))
      | inr t ↦ (m, rw (t, if◌then◌else◌) (ground arith))
    ]
