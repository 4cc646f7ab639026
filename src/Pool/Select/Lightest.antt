-- ===== src/Pool/Select/Lightest.antt =====
-- The choice of the least_conn strategy of pool.go among the backends that would give a slot.
use go_multi_warp.Prelude.{
  ℕ, zero, suc, ◌+◌, ℤ, pos, negsuc, ◌≤ℤ◌, ltb_ℤ, ◌≡◌, refl, sym, ap, ◌∙◌, ◌⊎◌, inl, inr, true,
  false, ◌&&◌, ◌||◌, List, [], ◌∷◌, Option, none, some, arith, get_elem?, All, Bool-cases, subst,
  All-intro, All-get,
}
use go_multi_warp.Pool.Backend.{Backend, has_capacity, is_selectable}
use go_multi_warp.Pool.Select.{better, least_loop, try_best, pick_least_conn}
use go_multi_warp.Pool.Select.Slots.{
  poll, is_free, polled, is_free-poll, inflight-poll, places, healthy_from_lem, places_sound,
  places_complete, poll_selectable, acquire_at_free, polled-Steady,
}
use go_multi_warp.Pool.Select.Pick.{polled-get_elem?, get_elem?-polled}

-- A place whose backend is selectable and has a count that is no less than 0.
abbrev Usable : ℕ → List Backend → ℕ → Type 0
Usable now cs k =
    (d : Backend) × (get_elem? cs k ≡ some d)
    × ((is_selectable now d).1 ≡ true)
    × (pos 0 ≤ℤ d.inflight)

-- The backend at a place has no free slot or carries at least as much as `c`.
abbrev Heavier : ℕ → List Backend → Backend → ℕ → Type 0
Heavier now cs c k =
    (d : Backend) × (get_elem? cs k ≡ some d)
    × ((is_free now d ≡ false) ⊎ (c.inflight ≤ℤ d.inflight))

-- The loop's result from a candidate `b` on: no heavier than `b`, nor than any place walked.
abbrev Chosen : ℕ → List Backend → List ℕ → Option ℕ × ℤ → ℤ → Type 0
Chosen now cs is r bound =
    (j : ℕ) × (c : Backend) × (r ≡ (some j, c.inflight))
    × (get_elem? cs j ≡ some c)
    × (is_free now c ≡ true)
    × (c.inflight ≤ℤ bound)
    × All (Heavier now cs c) is

abbrev Free : ℕ → List Backend → ℕ → Backend → Type 0
Free now cs i b = (get_elem? cs i ≡ some b) × (is_free now b ≡ true) × (pos 0 ≤ℤ b.inflight)

-- One round: the candidate is replaced by a lighter backend with capacity, or stays.
better-some :
    (now i k : ℕ) (cs : List Backend) (b : Backend)
    → Free now cs i b
    → Usable now cs k
    → (j : ℕ) × (c : Backend) × (better k (get_elem? cs k) (some i, b.inflight)
        ≡ (some j, c.inflight))
      × Free now cs j c
      × (c.inflight ≤ℤ b.inflight)
      × ((d : Backend) × (get_elem? cs k ≡ some d)
          × ((is_free now d ≡ false) ⊎ (c.inflight ≤ℤ d.inflight)))
better-some now i k cs b f (d, e, s, n) =
    elim (Bool-cases
      ((ltb_ℤ d.inflight b.inflight || ltb_ℤ b.inflight (pos 0)) && has_capacity d)) [
        | inl t ↦ (
          k,
          d,
          rw (e, better, t),
          (e, ground arith, n),
          ground arith,
          (d, e, inr (ground arith)),
        )
        | inr t ↦ (i, b, rw (e, better, t), f, ground arith, (d, e, ground arith))
      ]

better-none :
    (now k : ℕ) (cs : List Backend)
    → Usable now cs k
    → ((d : Backend) × (get_elem? cs k ≡ some d)
        × (is_free now d ≡ false)
        × (better k (get_elem? cs k) (none, negsuc 0) ≡ (none, negsuc 0)))
      ⊎ ((d : Backend) × Free now cs k d
          × (better k (get_elem? cs k) (none, negsuc 0) ≡ (some k, d.inflight)))
better-none now k cs (d, e, s, n) = elim (Bool-cases (has_capacity d)) [
  | inl t ↦ inr (d, (e, ground arith, n), rw (e, better) (ground arith))
  | inr t ↦ inl (d, e, ground arith, rw (e, better) (ground arith))
]

least_some :
    (now i : ℕ) (cs : List Backend) (is : List ℕ) (b : Backend)
    → Free now cs i b
    → All (Usable now cs) is
    → Chosen now cs is (least_loop cs is (some i, b.inflight)) b.inflight
unfolding least_loop
least_some now i cs [] b f u = (i, b, refl, f.0, f.1, ground arith, tt)
least_some now i cs (k ∷ is) b f u =
    let (j, c, e, g, le, heavier) = better-some now i k cs b f u.0 in
    let (l, d, r, at, free, lighter, rest) = least_some now j cs is c g u.1 in
    (l, d, rw e r, at, free, ground arith, ((heavier.0, heavier.1, ground arith), rest))

-- From no candidate on: none has a free slot, or the chosen one is no heavier than any that has.
abbrev Least : ℕ → List Backend → List ℕ → Option ℕ × ℤ → Type 0
Least now cs is r =
    (All (λ k. (d : Backend) × (get_elem? cs k ≡ some d) × (is_free now d ≡ false)) is)
    ⊎ ((j : ℕ) × (c : Backend) × (r ≡ (some j, c.inflight))
        × (get_elem? cs j ≡ some c)
        × (is_free now c ≡ true)
        × All (Heavier now cs c) is)

Least-none :
    (now : ℕ) (cs : List Backend) (is : List ℕ)
    → All (Usable now cs) is
    → Least now cs is (least_loop cs is (none, negsuc 0))
unfolding least_loop
Least-none now cs [] u = inl tt
Least-none now cs (k ∷ is) u = elim (better-none now k cs u.0) [
  | inl (d, e, busy, b) ↦ skip d e busy b (Least-none now cs is u.1)
  | inr (d, f, b) ↦
      let (l, c, r, at, free, le, rest) = least_some now k cs is d f u.1 in
      inr (l, c, rw b r, at, free, ((d, f.0, inr le), rest))
]
  where
    skip :
        (d : Backend)
        → get_elem? cs k ≡ some d
        → is_free now d ≡ false
        → better k (get_elem? cs k) (none, negsuc 0) ≡ (none, negsuc 0)
        → Least now cs is (least_loop cs is (none, negsuc 0))
        → Least now cs (k ∷ is) (least_loop cs (k ∷ is) (none, negsuc 0))
    skip d e busy b (inl all) = inl ((d, e, busy), all)
    skip d e busy b (inr (j, c, r, at, free, rest)) =
        inr (j, c, rw b r, at, free, ((d, e, inl busy), rest))

abbrev Counted : Backend → Type 0
Counted b = pos 0 ≤ℤ b.inflight

Counted-get :
    (bs : List Backend) (i : ℕ) (b : Backend)
    → All Counted bs
    → get_elem? bs i ≡ some b
    → pos 0 ≤ℤ b.inflight
Counted-get [] i b a e = absurd (cc)
Counted-get (c ∷ bs) zero b a e = let same : c ≡ b = ground arith in subst Counted same a.0
Counted-get (c ∷ bs) (suc i) b a e = Counted-get bs i b a.1 e

places-Usable :
    (now : ℕ) (bs : List Backend)
    → All Counted bs
    → All (Usable now (polled now bs)) (places now 0 bs)
places-Usable now bs a = All-intro (places now 0 bs) λ m i e.
    let (j, b, z, at, s) = places_sound now 0 bs m i e in
    let same : j ≡ i = omega arith in
    let here : get_elem? bs i ≡ some b = subst (λ k. get_elem? bs k ≡ some b) same at in
    (
      poll now b,
      polled-get_elem? now bs i b here,
      poll_selectable now b ∙ s,
      subst (λ n. pos 0 ≤ℤ n) (sym (inflight-poll now b).0) (Counted-get bs i b a here),
    )

-- The lightest of the listed places is the lightest of all that would give a slot.
abbrev pub NoLighter : ℕ → List Backend → Backend → Type 0
NoLighter now bs b = All (λ d. (is_free now d ≡ false) ⊎ (b.inflight ≤ℤ d.inflight)) bs

NoLighter-listed :
    (now : ℕ) (bs : List Backend) (b : Backend)
    → All (Heavier now (polled now bs) (poll now b)) (places now 0 bs)
    → NoLighter now bs b
NoLighter-listed now bs b rest = All-intro bs λ k d e. elim (Bool-cases (is_selectable now d).1) [
  | inl s ↦
      let (m, at) = places_complete now 0 bs k d e s in
      let z : 0 + k ≡ k = omega arith in
      let (c, here, o) =
        All-get (Heavier now (polled now bs) (poll now b)) (places now 0 bs) m k rest
          (at ∙ ap some z) in
      compare_polled k d c e here o
  | inr s ↦ inl (rw (s, ◌&&◌))
]
  where
    compare_polled :
        (k : ℕ) (d c : Backend)
        → get_elem? bs k ≡ some d
        → get_elem? (polled now bs) k ≡ some c
        → (is_free now c ≡ false) ⊎ ((poll now b).inflight ≤ℤ c.inflight)
        → (is_free now d ≡ false) ⊎ (b.inflight ≤ℤ d.inflight)
    compare_polled k d c e here o =
        let same : c ≡ poll now d = ground (arith, polled-get_elem? now bs k d e) in
        ground (arith, is_free-poll now d, inflight-poll now d, inflight-poll now b)

pick_chosen :
    (now j : ℕ) (bs : List Backend) (b : Backend)
    → get_elem? bs j ≡ some b
    → is_free now b ≡ true
    → (try_best now (some j) (polled now bs)).1 ≡ some j
unfolding try_best
pick_chosen now j bs b e f =
    rw
      (acquire_at_free now j (polled now bs) (poll now b) (polled-Steady now bs)
        (polled-get_elem? now bs j b e) (is_free-poll now b ∙ f))
      refl

-- Least_conn's choice carries no more requests than any other backend that would give a slot, as long
-- as no count is below 0.
pub pick_least_conn-NoLighter :
    (now i : ℕ) (bs : List Backend) (b : Backend)
    → All Counted bs
    → (pick_least_conn now bs).1 ≡ some i
    → get_elem? bs i ≡ some b
    → NoLighter now bs b
unfolding pick_least_conn
pick_least_conn-NoLighter now i bs b counted picked here =
    elim (Least-none now (polled now bs) (places now 0 bs) (places-Usable now bs counted)) [
      | inl busy ↦ All-intro bs (λ k d e. inl (busy_all busy k d e))
      | inr (j, c, r, at, free, rest) ↦
          let (d, e, same) = get_elem?-polled now bs j c at in
          let found =
            pick_chosen now j bs d e
              (sym (is_free-poll now d) ∙ ap (is_free now) (sym same) ∙ free) in
          let chosen : some j ≡ some i =
            sym found
            ∙ ap (λ o. (try_best now o (polled now bs)).1) (sym (ap (λ q. q.0) r))
            ∙ ap (λ q. (try_best now (least_loop q.0 q.1 (none, negsuc 0)).0 q.0).1)
                (sym (healthy_from_lem now 0 bs))
            ∙ picked in
          let one : d ≡ b = ground arith in
          NoLighter-listed now bs b (
            subst (λ x. All (Heavier now (polled now bs) x) (places now 0 bs))
              (same ∙ ap (poll now) one) rest)
    ]
  where
    busy_all :
        All
          (λ k. (d : Backend) × (get_elem? (polled now bs) k ≡ some d) × (is_free now d ≡ false))
          (places now 0 bs)
        → (k : ℕ) (d : Backend) → get_elem? bs k ≡ some d
        → is_free now d ≡ false
    busy_all busy k d e = elim (Bool-cases (is_selectable now d).1) [
      | inl s ↦
          let (m, at) = places_complete now 0 bs k d e s in
          let z : 0 + k ≡ k = omega arith in
          let (c, here, f) = All-get _ (places now 0 bs) m k busy (at ∙ ap some z) in
          let same : c ≡ poll now d = ground (arith, polled-get_elem? now bs k d e) in
          sym (is_free-poll now d) ∙ ap (is_free now) (sym same) ∙ f
      | inr s ↦ rw (s, ◌&&◌)
    ]
