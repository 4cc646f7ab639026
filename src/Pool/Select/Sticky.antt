-- ===== src/Pool/Select/Sticky.antt =====
-- The sticky strategy of pool.go: which keys it serves, and which ones end the program.
use native.Mathlib.Nat.{mod-lt}
use go_multi_warp.Prelude.{
  ℕ, ◌+◌, ◌-◌, ◌%◌, ◌<◌, ◌≤◌, pos, negsuc, sub_ℕ, to_int64, to_int64_id, rem, ◌≡◌, refl, sym, ap,
  ◌∙◌, ◌⊎◌, inl, inr, true, false, List, [], ◌∷◌, Option, none, some, arith, length, get_elem?,
  get_elem?-some, All-get, set, if◌then◌else◌, subst,
}
use go_multi_warp.Pool.Backend.{Backend}
use go_multi_warp.Pool.Select.{panic, done, at_index, sticky_from, pick_sticky}
use go_multi_warp.Pool.Select.Slots.{poll, is_free, taken, polled, places, healthy_from_lem}
use go_multi_warp.Pool.Select.Pick.{attempt, ArePlaces, places-ArePlaces}

-- The backend that the key names among the selectable ones has no free slot, or there are none of these.
abbrev pub NamedBusy : ℕ → ℕ → List Backend → Type 0
NamedBusy now key bs =
    (places now 0 bs ≡ [])
    ⊎ ((i : ℕ) × (b : Backend) × (get_elem? (places now 0 bs) (key % length (places now 0 bs))
          ≡ some i)
        × (get_elem? bs i ≡ some b)
        × (is_free now b ≡ false))

-- What sticky answers for a key below 2 ^ 63: a slot of the key's own backend among the selectable ones,
-- which has one free; or none, with all backends polled, when that one has none free.
abbrev pub StickyAnswers : ℕ → ℕ → List Backend → List Backend × Option ℕ → Type 0
StickyAnswers now key bs (cs, none) = (cs ≡ polled now bs) × NamedBusy now key bs
StickyAnswers now key bs (cs, some i) =
    (b : Backend) × (get_elem? (places now 0 bs) (key % length (places now 0 bs)) ≡ some i)
    × (get_elem? bs i ≡ some b)
    × (is_free now b ≡ true)
    × (cs ≡ set (polled now bs) i (taken (poll now b)))

at_index_key :
    (hs : List ℕ) (key i : ℕ)
    → key < 0x8000000000000000
    → get_elem? hs (key % length hs) ≡ some i
    → at_index hs (rem (to_int64 (pos key)) (length hs)) ≡ done i
unfolding at_index rem
at_index_key hs key i h e = rw (to_int64_id (pos key) (h, omega arith), e)

sticky_from-Answers :
    (now key : ℕ) (bs : List Backend) (hs : List ℕ)
    → key < 0x8000000000000000
    → places now 0 bs ≡ hs
    → (q : List Backend × Option ℕ) × (sticky_from now key (polled now bs, hs) ≡ done q)
      × StickyAnswers now key bs q
sticky_from-Answers now key bs [] h e = ((polled now bs, none), refl, (refl, inl e))
sticky_from-Answers now key bs (j ∷ js) h e =
    let n = length (j ∷ js) in
    let (i, at) = get_elem?-some (j ∷ js) (key % n) (mod-lt key (omega arith)) in
    let valid = subst (ArePlaces bs) e (places-ArePlaces now bs) in
    let (b, g) = All-get _ (j ∷ js) (key % n) i valid at in
    let (c, there, o) = attempt now bs i b g in
    let named = subst (λ xs. get_elem? xs (key % length xs) ≡ some i) (sym e) at in
    elim o [
      | inl (f, t) ↦ (
        (set (polled now bs) i (taken (poll now c)), some i),
        rw (at_index_key (j ∷ js) key i h at, t, if◌then◌else◌),
        (c, named, there, f, refl),
      )
      | inr (f, t) ↦ (
        (polled now bs, none),
        rw (at_index_key (j ∷ js) key i h at, t, if◌then◌else◌),
        (refl, inr (i, c, named, there, f)),
      )
    ]

-- A key below 2 ^ 63 never panics. It is served by the backend that it names among the selectable ones if
-- that has a free slot, and gets none if it has not or if there is no selectable one.
pub pick_sticky-StickyAnswers :
    (now key : ℕ) (bs : List Backend)
    → key < 0x8000000000000000
    → (q : List Backend × Option ℕ) × (pick_sticky now key bs ≡ done q) × StickyAnswers now key bs q
unfolding pick_sticky
pick_sticky-StickyAnswers now key bs h =
    rw (healthy_from_lem now 0 bs) (sticky_from-Answers now key bs (places now 0 bs) h refl)

-- int(key) is negative from 2 ^ 63 on, and so is its remainder unless it is 0.
int_of_key :
    (key : ℕ)
    → 0x8000000000000000 ≤ key
    → key < 0x10000000000000000
    → to_int64 (pos key) ≡ negsuc (0x10000000000000000 - key - 1)
unfolding to_int64
int_of_key key h w = ground arith

negative : (r : ℕ) → 0 < r → sub_ℕ 0 r ≡ negsuc (r - 1)
negative r h = ground arith

rem_negative :
    (key n : ℕ)
    → 0x8000000000000000 ≤ key
    → key < 0x10000000000000000
    → 0 < (0x10000000000000000 - key) % n
    → rem (to_int64 (pos key)) n ≡ negsuc ((0x10000000000000000 - key) % n - 1)
unfolding rem
rem_negative key n h w p =
    let z : 0x10000000000000000 - key - 1 + 1 ≡ 0x10000000000000000 - key = omega arith in
    rw (int_of_key key h w)
      (ap (λ x. sub_ℕ 0 (x % n)) z ∙ negative ((0x10000000000000000 - key) % n) p)

-- A key from 2 ^ 63 on ends the program, unless the number of selectable backends divides what is
-- missing to 2 ^ 64: the index into the healthy backends is negative.
pub pick_sticky-panic :
    (now key : ℕ) (bs : List Backend)
    → 0x8000000000000000 ≤ key
    → key < 0x10000000000000000
    → 0 < length (places now 0 bs)
    → 0 < (0x10000000000000000 - key) % length (places now 0 bs)
    → pick_sticky now key bs ≡ panic
unfolding pick_sticky at_index
pick_sticky-panic now key bs h w some_healthy p =
    rw (healthy_from_lem now 0 bs) (panics (places now 0 bs) some_healthy p)
  where
    panics :
        (hs : List ℕ)
        → 0 < length hs
        → 0 < (0x10000000000000000 - key) % length hs
        → sticky_from now key (polled now bs, hs) ≡ panic
    panics [] q r = elim q [ ]
    panics (j ∷ js) q r = rw (rem_negative key (length (j ∷ js)) h w r, at_index)
