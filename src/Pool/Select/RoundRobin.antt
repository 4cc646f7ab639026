-- ===== src/Pool/Select/RoundRobin.antt =====
-- The round_robin strategy of pool.go: it gives a slot whenever one is free, in turn.
use native.Mathlib.Nat.{mod-lt, mod-eq_of_lt}
use go_multi_warp.Prelude.{
  ℕ, zero, suc, ◌+◌, ◌-◌, ◌%◌, ◌<◌, pos, ◌+ℤ◌, to_int64, to_int64_id, rem, inc_u64, ◌≡◌, refl, sym,
  ap, ◌∙◌, ◌⊎◌, inl, inr, true, false, List, [], ◌∷◌, Option, none, some, arith, length, get_elem?,
  get_elem?-some, get_elem?_lt, set, All-get, if◌then◌else◌, Bool-cases, leb, subst,
}
use go_multi_warp.Pool.Backend.{Backend}
use go_multi_warp.Pool.Select.{Outcome, done, at_index, acquire_at, rr_loop, rr_from, pick_rr}
use go_multi_warp.Pool.Select.Slots.{
  poll, is_free, taken, polled, places, healthy_from_lem, acquire_at_free, polled-Steady,
  is_free-poll,
}
use go_multi_warp.Pool.Select.Pick.{
  Answers, attempt, ArePlaces, places-ArePlaces, NoneFree-listed, polled-get_elem?,
}

-- The backend that round `m` of a walk round the list meets gives no slot.
abbrev BusyVisit : ℕ → List Backend → List ℕ → ℕ → Type 0
BusyVisit now bs hs m =
    (j : ℕ) × (b : Backend) × (get_elem? hs (m % length hs) ≡ some j)
    × (get_elem? bs j ≡ some b)
    × (is_free now b ≡ false)

-- How the loop ends: nothing free in any round, or the slot of the first round that met one.
abbrev RrAnswers :
    ℕ → List Backend → List ℕ → ℕ → ℕ → ℕ → Outcome (List Backend × Option ℕ) → Type 0
RrAnswers now bs hs s i rounds r =
    ((r ≡ done (polled now bs, none)) × ((k : ℕ) → k < rounds → BusyVisit now bs hs (s + (i + k))))
    ⊎ ((k : ℕ) × (j : ℕ) × (b : Backend) × (get_elem? hs ((s + (i + k)) % length hs) ≡ some j)
        × (get_elem? bs j ≡ some b)
        × (is_free now b ≡ true)
        × (r ≡ done (set (polled now bs) j (taken (poll now b)), some j))
        × ((l : ℕ) → l < k → BusyVisit now bs hs (s + (i + l))))

at_index_visit :
    (hs : List ℕ) (s i j : ℕ)
    → get_elem? hs ((s + i) % length hs) ≡ some j
    → at_index hs (rem (pos s +ℤ pos i) (length hs)) ≡ done j
unfolding at_index rem
at_index_visit hs s i j e = let z : pos s +ℤ pos i ≡ pos (s + i) = ground arith in rw (z, e)

next_round :
    (now : ℕ) (bs : List Backend) (hs : List ℕ) (s i rounds : ℕ)
    → BusyVisit now bs hs (s + i)
    → (r : Outcome (List Backend × Option ℕ)) → RrAnswers now bs hs s (suc i) rounds r
    → RrAnswers now bs hs s i (suc rounds) r
next_round now bs hs s i rounds v r (inl (e, busy)) = inl (e, later)
  where
    later : (k : ℕ) → k < suc rounds → BusyVisit now bs hs (s + (i + k))
    later zero h = let z : s + i ≡ s + (i + 0) = omega arith in subst (BusyVisit now bs hs) z v
    later (suc k) h =
        let z : s + (suc i + k) ≡ s + (i + suc k) = omega arith in
        subst (BusyVisit now bs hs) z (busy k (omega arith))
next_round now bs hs s i rounds v r (inr (k, j, b, at, e, f, t, busy)) =
    let z : s + (suc i + k) ≡ s + (i + suc k) = omega arith in
    inr (suc k, j, b, subst (λ m. get_elem? hs (m % length hs) ≡ some j) z at, e, f, t, later)
  where
    later : (l : ℕ) → l < suc k → BusyVisit now bs hs (s + (i + l))
    later zero h = let z : s + i ≡ s + (i + 0) = omega arith in subst (BusyVisit now bs hs) z v
    later (suc l) h =
        let z : s + (suc i + l) ≡ s + (i + suc l) = omega arith in
        subst (BusyVisit now bs hs) z (busy l (omega arith))

rr_loop_lem :
    (now : ℕ) (bs : List Backend) (hs : List ℕ) (s i rounds : ℕ)
    → 0 < length hs
    → ArePlaces bs hs
    → RrAnswers now bs hs s i rounds (rr_loop now hs (pos s) i rounds (polled now bs))
unfolding rr_loop
rr_loop_lem now bs hs s i zero h a = inl (refl, λ k l. absurd (omega arith))
rr_loop_lem now bs hs s i (suc rounds) h a =
    let (j, at) = get_elem?-some hs ((s + i) % length hs) (mod-lt (s + i) h) in
    let (b, e) = All-get _ hs ((s + i) % length hs) j a at in
    let (c, g, o) = attempt now bs j b e in
    elim o [
      | inl (f, t) ↦
          let z : s + i ≡ s + (i + 0) = omega arith in
          inr (
            0,
            j,
            c,
            subst (λ m. get_elem? hs (m % length hs) ≡ some j) z at,
            g,
            f,
            rw (at_index_visit hs s i j at, t, if◌then◌else◌),
            λ l m. absurd (omega arith),
          )
      | inr (f, t) ↦
          rw (at_index_visit hs s i j at, t, if◌then◌else◌)
            (next_round now bs hs s i rounds (j, c, at, g, f) _
              (rr_loop_lem now bs hs s (suc i) rounds h a))
    ]

wrap : (m n : ℕ) → m < n → (m + n) % n ≡ m
wrap m n h = grind arith

-- The rounds from any start reach every index of the list.
covers : (n s m : ℕ) → s < n → m < n → (k : ℕ) × (k < n) × ((s + (0 + k)) % n ≡ m)
covers n s m hs hm = elim (Bool-cases (leb s m)) [
  | inl le ↦
      let z : s + (0 + (m - s)) ≡ m = ground arith in
      (m - s, ground arith, ap (λ x. x % n) z ∙ mod-eq_of_lt hm)
  | inr gt ↦
      let z : s + (0 + (m + n - s)) ≡ m + n = ground arith in
      (m + n - s, ground arith, ap (λ x. x % n) z ∙ wrap m n hm)
]

rr_start : (rr n : ℕ) → rr < 0x8000000000000000 → rem (to_int64 (pos rr)) n ≡ pos (rr % n)
unfolding rem
rr_start rr n h = rw (to_int64_id (pos rr) (h, omega arith), rem)

loop-Answers :
    (now : ℕ) (bs : List Backend) (s : ℕ) (r : Outcome (List Backend × Option ℕ))
    → s < length (places now 0 bs)
    → RrAnswers now bs (places now 0 bs) s 0 (length (places now 0 bs)) r
    → (q : List Backend × Option ℕ) × (r ≡ done q) × Answers now bs q
loop-Answers now bs s r h (inl (e, busy)) = (_, e, (refl, NoneFree-listed now bs none_free))
  where
    none_free :
        (m i : ℕ) (b : Backend)
        → get_elem? (places now 0 bs) m ≡ some i
        → get_elem? bs i ≡ some b
        → is_free now b ≡ false
    none_free m i b at g =
        let (k, lt, z) =
          covers (length (places now 0 bs)) s m h (get_elem?_lt (places now 0 bs) m i at) in
        let (j, c, there, e, f) = busy k lt in
        let same : some j ≡ some i = sym there ∙ ap (get_elem? (places now 0 bs)) z ∙ at in
        let one : some c ≡ some b =
          sym e
          ∙ ap (λ (o : Option ℕ). elim o [ none ↦ none | some x ↦ get_elem? bs x ]) same
          ∙ g in
        ground arith
loop-Answers now bs s r h (inr (k, j, b, at, e, f, t, busy)) = (_, t, (b, e, f, refl))

rr_from-Answers :
    (now rr : ℕ) (bs : List Backend) (hs : List ℕ)
    → rr < 0x8000000000000000
    → places now 0 bs ≡ hs
    → (q : List Backend × Option ℕ) × (after : ℕ) × (rr_from now rr (polled now bs, hs)
        ≡ done (q, after))
      × Answers now bs q
rr_from-Answers now rr bs [] h e =
    (_, rr, refl, (refl, NoneFree-listed now bs (λ m i b at g. absurd (no_place m i at))))
  where
    no_place : (m i : ℕ) → get_elem? (places now 0 bs) m ≡ some i → ⊥
    no_place m i at =
        let n : get_elem? {A = ℕ} [] m ≡ some i = subst (λ xs. get_elem? xs m ≡ some i) e at in cc
rr_from-Answers now rr bs (j ∷ js) h e =
    let n = length (j ∷ js) in
    let (q, done_q, answers) =
      loop-Answers now bs (rr % n) (rr_loop now (j ∷ js) (pos (rr % n)) 0 n (polled now bs))
        (rw e (mod-lt rr (omega arith)))
        (rw e (
          rr_loop_lem now bs (j ∷ js) (rr % n) 0 n (omega arith)
            (subst (ArePlaces bs) e (places-ArePlaces now bs)))) in
    (q, inc_u64 rr, rw (rr_start rr n h, done_q), answers)

-- Until the counter passes 2 ^ 63, round_robin does not panic; it takes one slot where one is free and
-- changes nothing else, and it refuses only if no backend would give a slot.
pub pick_rr-Answers :
    (now rr : ℕ) (bs : List Backend)
    → rr < 0x8000000000000000
    → (q : List Backend × Option ℕ) × (after : ℕ) × (pick_rr now rr bs ≡ done (q, after))
      × Answers now bs q
unfolding pick_rr
pick_rr-Answers now rr bs h =
    rw (healthy_from_lem now 0 bs) (rr_from-Answers now rr bs (places now 0 bs) h refl)

same_start : (n s : ℕ) → s < n → (s + 0) % n ≡ s
same_start n s h = let z : s + 0 ≡ s = omega arith in ap (λ x. x % n) z ∙ mod-eq_of_lt h

-- The turn of round_robin: if the selectable backend whose place in the row is the counter modulo
-- their number gives a slot, that one is picked, and the counter goes on by one.
pub pick_rr_turn :
    (now rr j : ℕ) (bs : List Backend) (b : Backend)
    → rr < 0x7fffffffffffffff
    → get_elem? (places now 0 bs) (rr % length (places now 0 bs)) ≡ some j
    → get_elem? bs j ≡ some b
    → is_free now b ≡ true
    → pick_rr now rr bs ≡ done ((set (polled now bs) j (taken (poll now b)), some j), rr + 1)
unfolding pick_rr
pick_rr_turn now rr j bs b h at e f =
    rw (healthy_from_lem now 0 bs) (turn_from (places now 0 bs) at)
  where
    turn_from :
        (hs : List ℕ)
        → get_elem? hs (rr % length hs) ≡ some j
        → rr_from now rr (polled now bs, hs)
          ≡ done ((set (polled now bs) j (taken (poll now b)), some j), rr + 1)
    turn_from [] at = absurd (cc)
    turn_from (k ∷ ks) at =
        let n = length (k ∷ ks) in
        let (c, g, o) = attempt now bs j b e in
        let one : c ≡ b = ground arith in
        let taken_slot : acquire_at now j (polled now bs)
            ≡ (set (polled now bs) j (taken (poll now b)), true) =
          acquire_at_free now j (polled now bs) (poll now b) (polled-Steady now bs)
            (polled-get_elem? now bs j b e) (is_free-poll now b ∙ f) in
        let first : get_elem? (k ∷ ks) ((rr % n + 0) % n) ≡ some j =
          ap (get_elem? (k ∷ ks)) (same_start n (rr % n) (mod-lt rr (omega arith))) ∙ at in
        let z : inc_u64 rr ≡ rr + 1 = omega arith in
        rw (
          rr_start rr n (omega arith),
          rr_loop,
          at_index_visit (k ∷ ks) (rr % n) 0 j first,
          taken_slot,
          if◌then◌else◌,
          z,
        )
