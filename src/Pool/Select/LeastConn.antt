-- ===== src/Pool/Select/LeastConn.antt =====
-- The least_conn strategy of pool.go: it gives a slot whenever one is free, and to the backend with the
-- fewest requests in flight.
use go_multi_warp.Prelude.{
  ℕ, ℤ, pos, negsuc, ltb_ℤ, ◌≡◌, refl, ap, inl, inr, ◌&&◌, ◌||◌, List, [], ◌∷◌, Option, none, some,
  get_elem?, if◌then◌else◌, Bool-cases,
}
use mathlib.Core.Path.{ap₂}
use go_multi_warp.Pool.Backend.{Backend, has_capacity}
use go_multi_warp.Pool.Backend.Breaker.{is_selectable_idem}
use go_multi_warp.Pool.Select.{better, least_loop, first_healthy, try_best, pick_least_conn}
use go_multi_warp.Pool.Select.Slots.{polled, places, places-polled, healthy_from_lem}
use go_multi_warp.Pool.Select.Pick.{
  Answers, attempt, ArePlaces, places-ArePlaces, acquire_first_lem, walk-Answers,
}

polled_idem : (now : ℕ) (bs : List Backend) → polled now (polled now bs) ≡ polled now bs
polled_idem now [] = refl
polled_idem now (b ∷ bs) = ap₂ ◌∷◌ (ap (λ r. r.0) (is_selectable_idem now b)) (polled_idem now bs)

first_healthy-Answers :
    (now : ℕ) (bs : List Backend) → Answers now bs (first_healthy now (polled now bs))
first_healthy-Answers now bs =
    rw (healthy_from_lem now 0 (polled now bs), polled_idem now bs, places-polled now 0 bs)
      (walk-Answers now bs _ (acquire_first_lem now bs (places now 0 bs) (places-ArePlaces now bs)))

-- A candidate is no place, or one of the places.
abbrev Candidate : List Backend → Option ℕ → Type 0
Candidate bs none = Unit {0}
Candidate bs (some i) = (b : Backend) × (get_elem? bs i ≡ some b)

better-Candidate :
    (bs : List Backend) (i : ℕ) (b : Option Backend) (best : Option ℕ × ℤ)
    → ((c : Backend) × (get_elem? bs i ≡ some c))
    → Candidate bs best.0
    → Candidate bs (better i b best).0
better-Candidate bs i none best a c = c
better-Candidate bs i (some b) (best, load) a c =
    elim (Bool-cases ((ltb_ℤ b.inflight load || ltb_ℤ load (pos 0)) && has_capacity b)) [
      | inl e ↦ rw (e, if◌then◌else◌) a
      | inr e ↦ rw (e, if◌then◌else◌) c
    ]

least_loop-Candidate :
    (bs : List Backend) (is : List ℕ) (best : Option ℕ × ℤ) (cs : List Backend)
    → ArePlaces bs is
    → Candidate bs best.0
    → Candidate bs (least_loop cs is best).0
unfolding least_loop
least_loop-Candidate bs [] best cs a c = c
least_loop-Candidate bs (i ∷ is) best cs a c =
    least_loop-Candidate bs is (better i (get_elem? cs i) best) cs a.1
      (better-Candidate bs i (get_elem? cs i) best a.0 c)

try_best-Answers :
    (now : ℕ) (bs : List Backend) (best : Option ℕ)
    → Candidate bs best
    → Answers now bs (try_best now best (polled now bs))
unfolding try_best
try_best-Answers now bs none c = first_healthy-Answers now bs
try_best-Answers now bs (some i) (b, e) =
    let (c, g, o) = attempt now bs i b e in
    elim o [
      | inl (f, t) ↦ rw (t, if◌then◌else◌) (c, g, f, refl)
      | inr (f, t) ↦ rw (t, if◌then◌else◌) (first_healthy-Answers now bs)
    ]

-- Least_conn takes one slot where one is free and changes nothing else; it refuses only if no backend
-- would give a slot.
pub pick_least_conn-Answers :
    (now : ℕ) (bs : List Backend) → Answers now bs (pick_least_conn now bs)
unfolding pick_least_conn
pick_least_conn-Answers now bs = rw (healthy_from_lem now 0 bs) (
    try_best-Answers now bs _ (
      least_loop-Candidate bs (places now 0 bs) (none, negsuc 0) (polled now bs)
        (places-ArePlaces now bs) tt))
