-- ===== src/Std/Split.antt =====
-- Laws of strings.Split, strings.Join and strings.TrimSpace as Std.antt models them.
use go_multi_warp.Prelude.{
  ℕ, ◌≡◌, refl, ap, Bool, false, ◌||◌, List, [], ◌∷◌, ◌++◌, Bytes, arith, ◌==◌, ==_iff, All,
  Bool-cases, none, some, inl, inr, if◌then◌else◌,
}
use go_multi_warp.Std.{trim_left, trim_right, trim_space, push_first, split, cut}

unfoldable pub has_byte : ℕ → Bytes → Bool
has_byte b [] = false
has_byte b (c ∷ cs) = c == b || has_byte b cs

-- strings.Join, with one byte between the parts
unfoldable pub join : ℕ → List Bytes → Bytes
join sep [] = []
join sep (w ∷ []) = w
join sep (w ∷ v ∷ ws) = w ++ sep ∷ join sep (v ∷ ws)

push_first-All :
    (sep c : ℕ) (ws : List Bytes)
    → (c == sep) ≡ false
    → All (λ w. has_byte sep w ≡ false) ws
    → All (λ w. has_byte sep w ≡ false) (push_first c ws)
unfolding has_byte
push_first-All sep c [] h a = ground arith
push_first-All sep c (w ∷ ws) h a = ground arith

-- No part holds the separator.
pub split-All : (sep : ℕ) (s : Bytes) → All (λ w. has_byte sep w ≡ false) (split sep s)
unfolding split has_byte
split-All sep [] = (refl, tt)
split-All sep (c ∷ cs) = elim (Bool-cases (c == sep)) [
  | inl e ↦ rw (e, if◌then◌else◌) (refl, split-All sep cs)
  | inr e ↦ rw (e, if◌then◌else◌) (push_first-All sep c (split sep cs) e (split-All sep cs))
]

split_whole : (sep : ℕ) (w : Bytes) → has_byte sep w ≡ false → split sep w ≡ w ∷ []
unfolding split has_byte
split_whole sep [] h = refl
split_whole sep (c ∷ w) h = ground (arith, split_whole sep w)

split-append :
    (sep : ℕ) (w s : Bytes) → has_byte sep w ≡ false → split sep (w ++ sep ∷ s) ≡ w ∷ split sep s
unfolding split has_byte
split-append sep [] s h = ground (arith, (==_iff sep sep).1 refl)
split-append sep (c ∷ w) s h = ground (arith, split-append sep w s)

-- Splitting what was joined gives the parts back.
pub split-join :
    (sep : ℕ) (w : Bytes) (ws : List Bytes)
    → All (λ v. has_byte sep v ≡ false) (w ∷ ws)
    → split sep (join sep (w ∷ ws)) ≡ w ∷ ws
unfolding join
split-join sep w [] a = split_whole sep w a.0
split-join sep w (v ∷ ws) a =
    rw (split-append sep w (join sep (v ∷ ws)) a.0) (ap (◌∷◌ w) (split-join sep v ws a.1))

trim_left-has_byte : (b : ℕ) (s : Bytes) → has_byte b s ≡ false → has_byte b (trim_left s) ≡ false
unfolding trim_left has_byte
trim_left-has_byte b [] h = refl
trim_left-has_byte b (c ∷ cs) h = ground (arith, trim_left-has_byte b cs)

trim_right-has_byte : (b : ℕ) (s : Bytes) → has_byte b s ≡ false → has_byte b (trim_right s) ≡ false
unfolding trim_right has_byte
trim_right-has_byte b [] h = refl
trim_right-has_byte b (c ∷ cs) h = ground (arith, trim_right-has_byte b cs)

pub trim_space-has_byte :
    (b : ℕ) (s : Bytes) → has_byte b s ≡ false → has_byte b (trim_space s) ≡ false
unfolding trim_space
trim_space-has_byte b s h = trim_right-has_byte b (trim_left s) (trim_left-has_byte b s h)

trim_right_idem : (s : Bytes) → trim_right (trim_right s) ≡ trim_right s
unfolding trim_right
trim_right_idem [] = refl
trim_right_idem (c ∷ cs) = ground (arith, trim_right_idem cs)

trim_left_right : (s : Bytes) → trim_left (trim_right (trim_left s)) ≡ trim_right (trim_left s)
unfolding trim_left trim_right
trim_left_right [] = refl
trim_left_right (c ∷ cs) = ground (arith, trim_left_right cs)

-- Trimming twice is trimming once.
pub trim_space_idem : (s : Bytes) → trim_space (trim_space s) ≡ trim_space s
unfolding trim_space
trim_space_idem s = rw (trim_left_right s) (trim_right_idem (trim_left s))

-- strings.Cut at the first separator.
pub cut-append :
    (sep : ℕ) (w s : Bytes) → has_byte sep w ≡ false → cut sep (w ++ sep ∷ s) ≡ some (w, s)
unfolding cut has_byte
cut-append sep [] s h = ground (arith, (==_iff sep sep).1 refl)
cut-append sep (c ∷ w) s h = ground (arith, cut-append sep w s)

-- strings.Cut without a separator.
pub cut-none : (sep : ℕ) (w : Bytes) → has_byte sep w ≡ false → cut sep w ≡ none
unfolding cut has_byte
cut-none sep [] h = refl
cut-none sep (c ∷ w) h = ground (arith, cut-none sep w)
