-- ===== src/Pool/Select/Polls.antt =====
-- Polls and attempts at any place, and the slots before and after them, for Select of pool.go.
use go_multi_warp.Prelude.{
  ℕ, zero, suc, ℤ, pos, add32, ◌≡◌, refl, sym, ap, ◌∙◌, ◌⊎◌, inl, inr, Bool, true, false, List, [],
  ◌∷◌, map, Option, none, some, arith, get_elem?, set, Bool-cases,
}
use mathlib.Core.Path.{ap₂}
use go_multi_warp.Pool.Backend.{Backend, try_acquire}
use go_multi_warp.Pool.Select.{Selection, lease, refused, acquire_at}
use go_multi_warp.Pool.Select.Slots.{poll, is_free, taken, polled, is_free-poll, inflight-poll}
use go_multi_warp.Pool.Select.Pick.{Answers, NoneFree}

-- The in-flight counts, in the order of the backends.
abbrev pub inflights : List Backend → List ℤ
inflights bs = map (λ b. b.inflight) bs

-- One slot more at place `i`, where a slot was free, and every other count as it was.
abbrev pub TookSlot : ℕ → List Backend → ℕ → List Backend → Type 0
TookSlot now bs i cs =
    (b : Backend) × (get_elem? bs i ≡ some b)
    × (is_free now b ≡ true)
    × (inflights cs ≡ set (inflights bs) i (add32 b.inflight (pos 1)))

-- A lease comes with exactly one slot; a refusal takes none, and no backend would have given one.
abbrev pub Promised : ℕ → List Backend → List Backend → Selection → Type 0
Promised now bs cs (lease i) = TookSlot now bs i cs
Promised now bs cs (refused e) = (inflights cs ≡ inflights bs) × NoneFree now bs

abbrev pub Partial : ℕ → List Backend → List Backend × Option ℕ → Type 0
Partial now bs (cs, some i) = TookSlot now bs i cs
Partial now bs (cs, none) = (inflights cs ≡ inflights bs) × NoneFree now bs

pub inflights-polled : (now : ℕ) (bs : List Backend) → inflights (polled now bs) ≡ inflights bs
inflights-polled now [] = refl
inflights-polled now (b ∷ bs) = ap₂ ◌∷◌ (inflight-poll now b).0 (inflights-polled now bs)

inflights-set :
    (bs : List Backend) (i : ℕ) (b : Backend)
    → inflights (set bs i b) ≡ set (inflights bs) i b.inflight
inflights-set [] i b = refl
inflights-set (c ∷ bs) zero b = refl
inflights-set (c ∷ bs) (suc i) b = ap (◌∷◌ c.inflight) (inflights-set bs i b)

pub inflights-taken :
    (now i : ℕ) (bs : List Backend) (b : Backend)
    → inflights (set (polled now bs) i (taken (poll now b)))
      ≡ set (inflights bs) i (add32 b.inflight (pos 1))
inflights-taken now i bs b =
    inflights-set (polled now bs) i (taken (poll now b))
    ∙ ap₂ (λ xs n. set xs i (add32 n (pos 1))) (inflights-polled now bs) (inflight-poll now b).0

pub Answers-Partial :
    (now : ℕ) (bs : List Backend) (q : List Backend × Option ℕ)
    → Answers now bs q
    → Partial now bs q
Answers-Partial now bs (cs, none) (e, n) = (ap inflights e ∙ inflights-polled now bs, n)
Answers-Partial now bs (cs, some i) (b, at, f, e) =
    (b, at, f, ap inflights e ∙ inflights-taken now i bs b)

-- Some backends of a list were polled at `now`, and nothing else happened to them.
abbrev pub Polls : ℕ → List Backend → List Backend → Type 0
Polls now [] [] = Unit {0}
Polls now [] (d ∷ ds) = ⊥
Polls now (b ∷ bs) [] = ⊥
Polls now (b ∷ bs) (d ∷ ds) = ((d ≡ b) ⊎ (d ≡ poll now b)) × Polls now bs ds

pub Polls-refl : (now : ℕ) (bs : List Backend) → Polls now bs bs
Polls-refl now [] = tt
Polls-refl now (b ∷ bs) = (inl refl, Polls-refl now bs)

pub Polls-all : (now : ℕ) (bs : List Backend) → Polls now bs (polled now bs)
Polls-all now [] = tt
Polls-all now (b ∷ bs) = (inr refl, Polls-all now bs)

polled_same :
    (now : ℕ) (b d : Backend)
    → ((d ≡ b) ⊎ (d ≡ poll now b))
    → (d.inflight ≡ b.inflight) × (is_free now d ≡ is_free now b)
polled_same now b d (inl e) = (ap (λ x. x.inflight) e, ap (is_free now) e)
polled_same now b d (inr e) =
    (ap (λ x. x.inflight) e ∙ (inflight-poll now b).0, ap (is_free now) e ∙ is_free-poll now b)

Polls-inflights : (now : ℕ) (bs ds : List Backend) → Polls now bs ds → inflights ds ≡ inflights bs
Polls-inflights now [] [] p = refl
Polls-inflights now [] (d ∷ ds) p = absurd p
Polls-inflights now (b ∷ bs) [] p = absurd p
Polls-inflights now (b ∷ bs) (d ∷ ds) p =
    ap₂ ◌∷◌ (polled_same now b d p.0).0 (Polls-inflights now bs ds p.1)

Polls-NoneFree :
    (now : ℕ) (bs ds : List Backend) → Polls now bs ds → NoneFree now ds → NoneFree now bs
Polls-NoneFree now [] ds p n = tt
Polls-NoneFree now (b ∷ bs) [] p n = absurd p
Polls-NoneFree now (b ∷ bs) (d ∷ ds) p n =
    (sym (polled_same now b d p.0).1 ∙ n.0, Polls-NoneFree now bs ds p.1 n.1)

Polls-get :
    (now : ℕ) (bs ds : List Backend) (i : ℕ) (d : Backend)
    → Polls now bs ds
    → get_elem? ds i ≡ some d
    → (b : Backend) × (get_elem? bs i ≡ some b)
      × (d.inflight ≡ b.inflight)
      × (is_free now d ≡ is_free now b)
Polls-get now [] [] i d p e = absurd (cc)
Polls-get now [] (c ∷ ds) i d p e = absurd p
Polls-get now (b ∷ bs) [] i d p e = absurd p
Polls-get now (b ∷ bs) (c ∷ ds) zero d p e =
    let same : c ≡ d = ground arith in
    let (n, f) = polled_same now b c p.0 in
    (b, refl, sym (ap (λ x. x.inflight) same) ∙ n, sym (ap (is_free now) same) ∙ f)
Polls-get now (b ∷ bs) (c ∷ ds) (suc i) d p e = Polls-get now bs ds i d p.1 e

-- A promise kept from a partly polled list on is one kept from the list itself.
pub Polls-Partial :
    (now : ℕ) (bs ds : List Backend) (q : List Backend × Option ℕ)
    → Polls now bs ds
    → Partial now ds q
    → Partial now bs q
Polls-Partial now bs ds (cs, none) p (e, n) =
    (e ∙ Polls-inflights now bs ds p, Polls-NoneFree now bs ds p n)
Polls-Partial now bs ds (cs, some i) p (d, at, f, e) =
    let (b, here, n, free) = Polls-get now bs ds i d p at in
    (
      b,
      here,
      sym free ∙ f,
      e ∙ ap₂ (λ xs m. set xs i (add32 m (pos 1))) (Polls-inflights now bs ds p) n,
    )

-- An attempt at any place of a list: it takes the slot there, or it only polls.
abbrev pub Attempts : ℕ → List Backend → ℕ → List Backend × Bool → Type 0
Attempts now bs i (cs, true) = TookSlot now bs i cs
Attempts now bs i (cs, false) = Polls now bs cs

try_acquire-taken :
    (now : ℕ) (b : Backend) → is_free now b ≡ true → try_acquire now b ≡ (taken (poll now b), true)
unfolding try_acquire
try_acquire-taken now b f = ground (arith, inflight-poll now b)

try_acquire_polled :
    (now : ℕ) (b : Backend) → is_free now b ≡ false → try_acquire now b ≡ (poll now b, false)
unfolding try_acquire
try_acquire_polled now b f = ground (arith, inflight-poll now b)

attempt_one :
    (now : ℕ) (b : Backend) (bs : List Backend)
    → Attempts now (b ∷ bs) 0 (acquire_at now 0 (b ∷ bs))
unfolding acquire_at
attempt_one now b bs = elim (Bool-cases (is_free now b)) [
  | inl f ↦
      rw (try_acquire-taken now b f)
        (b, refl, f, ap (λ n. add32 n (pos 1) ∷ inflights bs) (inflight-poll now b).0)
  | inr f ↦ rw (try_acquire_polled now b f) (inr refl, Polls-refl now bs)
]

attempt_later :
    (now i : ℕ) (b : Backend) (bs : List Backend) (r : List Backend × Bool)
    → Attempts now bs i r
    → Attempts now (b ∷ bs) (suc i) (b ∷ r.0, r.1)
attempt_later now i b bs (cs, true) (c, at, f, e) = (c, at, f, ap (◌∷◌ b.inflight) e)
attempt_later now i b bs (cs, false) p = (inl refl, p)

pub attempt_any : (now i : ℕ) (bs : List Backend) → Attempts now bs i (acquire_at now i bs)
unfolding acquire_at
attempt_any now i [] = tt
attempt_any now zero (b ∷ bs) = attempt_one now b bs
attempt_any now (suc i) (b ∷ bs) =
    attempt_later now i b bs (acquire_at now i bs) (attempt_any now i bs)
