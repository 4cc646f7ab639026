-- ===== src/Pool/Select/Pick.antt =====
-- What a strategy of pool.go may answer, and the places that every strategy can reach.
use go_multi_warp.Prelude.{
  ℕ, zero, suc, ◌+◌, ◌≡◌, refl, subst, ap, ◌∙◌, ◌⊎◌, inl, inr, true, false, ◌&&◌, List, [], ◌∷◌,
  Option, none, some, arith, get_elem?, set, All, if◌then◌else◌, Bool-cases,
}
use go_multi_warp.Pool.Backend.{Backend, is_selectable}
use go_multi_warp.Pool.Select.{acquire_at, acquire_first}
use go_multi_warp.Pool.Select.Slots.{
  poll, is_free, taken, polled, is_free-poll, polled-Steady, acquire_at_free, acquire_at_busy,
  places, places_sound, places_complete,
}

-- No backend would give a slot.
abbrev pub NoneFree : ℕ → List Backend → Type 0
NoneFree now bs = All (λ b. is_free now b ≡ false) bs

-- The backend at a place, and that it would give a slot.
abbrev pub FreeAt : ℕ → List Backend → ℕ → Type 0
FreeAt now bs i = (b : Backend) × (get_elem? bs i ≡ some b) × (is_free now b ≡ true)

-- A correct answer from the backends `bs` on: all were polled, and one slot was taken, from a backend
-- that had one free; or none was taken, and none had one free.
abbrev pub Answers : ℕ → List Backend → List Backend × Option ℕ → Type 0
Answers now bs (cs, none) = (cs ≡ polled now bs) × NoneFree now bs
Answers now bs (cs, some i) =
    (b : Backend) × (get_elem? bs i ≡ some b)
    × (is_free now b ≡ true)
    × (cs ≡ set (polled now bs) i (taken (poll now b)))

pub get_elem?-polled :
    (now : ℕ) (bs : List Backend) (i : ℕ) (c : Backend)
    → get_elem? (polled now bs) i ≡ some c
    → (b : Backend) × (get_elem? bs i ≡ some b) × (c ≡ poll now b)
get_elem?-polled now [] i c e = absurd (cc)
get_elem?-polled now (b ∷ bs) zero c e = (b, refl, ground arith)
get_elem?-polled now (b ∷ bs) (suc i) c e = get_elem?-polled now bs i c e

pub polled-get_elem? :
    (now : ℕ) (bs : List Backend) (i : ℕ) (b : Backend)
    → get_elem? bs i ≡ some b
    → get_elem? (polled now bs) i ≡ some (poll now b)
polled-get_elem? now [] i b e = absurd (cc)
polled-get_elem? now (c ∷ bs) zero b e = ground arith
polled-get_elem? now (c ∷ bs) (suc i) b e = polled-get_elem? now bs i b e

-- An attempt at a place of a polled list: it takes a slot there, or it changes nothing.
abbrev pub Attempt : ℕ → List Backend → ℕ → Type 0
Attempt now bs i =
    (b : Backend) × (get_elem? bs i ≡ some b)
    × (((is_free now b ≡ true)
          × (acquire_at now i (polled now bs) ≡ (set (polled now bs) i (taken (poll now b)), true)))
        ⊎ ((is_free now b ≡ false) × (acquire_at now i (polled now bs) ≡ (polled now bs, false))))

pub attempt :
    (now : ℕ) (bs : List Backend) (i : ℕ) (b : Backend) → get_elem? bs i ≡ some b → Attempt now bs i
attempt now bs i b e =
    let at = polled-get_elem? now bs i b e in
    let steady = polled-Steady now bs in
    elim (Bool-cases (is_free now b)) [
      | inl f ↦ (
        b,
        e,
        inl (
          f,
          acquire_at_free now i (polled now bs) (poll now b) steady at (is_free-poll now b ∙ f),
        ),
      )
      | inr f ↦ (
        b,
        e,
        inr (
          f,
          acquire_at_busy now i (polled now bs) (poll now b) steady at (is_free-poll now b ∙ f),
        ),
      )
    ]

-- A fact about every place is one about every backend.
pub NoneFree-intro :
    (now : ℕ) (bs : List Backend)
    → ((i : ℕ) (b : Backend) → get_elem? bs i ≡ some b → is_free now b ≡ false)
    → NoneFree now bs
NoneFree-intro now [] h = tt
NoneFree-intro now (b ∷ bs) h = (h 0 b refl, NoneFree-intro now bs (λ i c e. h (suc i) c e))

-- If no listed place has a free slot, no place has: a backend that is not listed is not selectable.
pub NoneFree-listed :
    (now : ℕ) (bs : List Backend)
    → ((m i : ℕ) (b : Backend)
        → get_elem? (places now 0 bs) m ≡ some i
        → get_elem? bs i ≡ some b
        → is_free now b ≡ false)
    → NoneFree now bs
NoneFree-listed now bs h = NoneFree-intro now bs λ i b e.
    elim (Bool-cases (is_selectable now b).1) [
      | inl s ↦
          let (m, at) = places_complete now 0 bs i b e s in
          let z : 0 + i ≡ i = omega arith in h m i b (at ∙ ap some z) e
      | inr s ↦ rw (s, ◌&&◌)
    ]

-- The backend of a listed place.
pub listed_backend :
    (now : ℕ) (bs : List Backend) (m i : ℕ)
    → get_elem? (places now 0 bs) m ≡ some i
    → (b : Backend) × (get_elem? bs i ≡ some b)
listed_backend now bs m i e =
    let (j, b, z, at, s) = places_sound now 0 bs m i e in
    let same : j ≡ i = omega arith in (b, subst (λ k. get_elem? bs k ≡ some b) same at)

-- Every listed place is a backend's.
abbrev pub ArePlaces : List Backend → List ℕ → Type 0
ArePlaces bs is = All (λ i. (b : Backend) × (get_elem? bs i ≡ some b)) is

-- No listed place has a free slot.
abbrev pub BusyPlaces : ℕ → List Backend → List ℕ → Type 0
BusyPlaces now bs is =
    All (λ i. (b : Backend) × (get_elem? bs i ≡ some b) × (is_free now b ≡ false)) is

pub ArePlaces-intro :
    (bs : List Backend) (is : List ℕ)
    → ((m i : ℕ) → get_elem? is m ≡ some i → (b : Backend) × (get_elem? bs i ≡ some b))
    → ArePlaces bs is
ArePlaces-intro bs [] h = tt
ArePlaces-intro bs (i ∷ is) h = (h 0 i refl, ArePlaces-intro bs is (λ m j e. h (suc m) j e))

pub places-ArePlaces : (now : ℕ) (bs : List Backend) → ArePlaces bs (places now 0 bs)
places-ArePlaces now bs = ArePlaces-intro bs (places now 0 bs) (listed_backend now bs)

-- The answers of a walk along a list of places.
abbrev pub WalkAnswers : ℕ → List Backend → List ℕ → List Backend × Option ℕ → Type 0
WalkAnswers now bs is r =
    ((r ≡ (polled now bs, none)) × BusyPlaces now bs is)
    ⊎ ((i : ℕ) × (b : Backend) × (get_elem? bs i ≡ some b)
        × (is_free now b ≡ true)
        × (r ≡ (set (polled now bs) i (taken (poll now b)), some i)))

acquire_first_step :
    (now i : ℕ) (bs : List Backend) (is : List ℕ)
    → Attempt now bs i
    → WalkAnswers now bs is (acquire_first now is (polled now bs))
    → WalkAnswers now bs (i ∷ is) (acquire_first now (i ∷ is) (polled now bs))
unfolding acquire_first
acquire_first_step now i bs is (b, e, inl (f, t)) w = inr (i, b, e, f, rw (t, if◌then◌else◌))
acquire_first_step now i bs is (b, e, inr (f, t)) (inl (r, busy)) =
    inl (rw (t, if◌then◌else◌) r, ((b, e, f), busy))
acquire_first_step now i bs is (b, e, inr (f, t)) (inr (j, c, g, free, r)) =
    inr (j, c, g, free, rw (t, if◌then◌else◌) r)

-- The walk takes the first free slot, and answers none only if it met none.
pub acquire_first_lem :
    (now : ℕ) (bs : List Backend) (is : List ℕ)
    → ArePlaces bs is
    → WalkAnswers now bs is (acquire_first now is (polled now bs))
acquire_first_lem now bs [] a = inl (unfold acquire_first in refl, tt)
acquire_first_lem now bs (i ∷ is) a =
    acquire_first_step now i bs is (attempt now bs i a.0.0 a.0.1) (acquire_first_lem now bs is a.1)

pub BusyPlaces-get :
    (now : ℕ) (bs : List Backend) (is : List ℕ) (m i : ℕ) (b : Backend)
    → BusyPlaces now bs is
    → get_elem? is m ≡ some i
    → get_elem? bs i ≡ some b
    → is_free now b ≡ false
BusyPlaces-get now bs [] m i b busy e g = absurd (cc)
BusyPlaces-get now bs (k ∷ is) zero i b busy e g = ground arith
BusyPlaces-get now bs (k ∷ is) (suc m) i b busy e g = BusyPlaces-get now bs is m i b busy.1 e g

-- A walk along all the selectable places answers correctly.
pub walk-Answers :
    (now : ℕ) (bs : List Backend) (r : List Backend × Option ℕ)
    → WalkAnswers now bs (places now 0 bs) r
    → Answers now bs r
walk-Answers now bs r (inl (e, busy)) = rw e (
  refl,
  NoneFree-listed now bs (λ m i b at g. BusyPlaces-get now bs (places now 0 bs) m i b busy at g),
)
walk-Answers now bs r (inr (i, b, g, f, e)) = rw e (b, g, f, refl)
