-- ===== src/Std.antt =====
-- What the program uses of Go's packages strings, strconv and fmt, on byte strings. Case folding and
-- white space are those of ASCII: a text with other letters or spaces is left as it is.
pub mod Split
pub mod Decimal
use go_multi_warp.Prelude.{
  ℕ, zero, suc, ◌+◌, ◌*◌, ◌-◌, ◌/◌, ◌%◌, ℤ, pos, negsuc, sub_ℕ, Bool, true, false, not, ◌&&◌, ◌||◌,
  List, [], ◌∷◌, ◌++◌, Option, none, some, Bytes, ltb, leb, ◌==◌, is_empty, if◌then◌else◌,
}

-- '\t', '\n', '\v', '\f', '\r' and ' '
abbrev pub is_space : ℕ → Bool
is_space c = c == 32 || (leb 9 c && leb c 13)

unfoldable pub trim_left : Bytes → Bytes
trim_left [] = []
trim_left (c ∷ cs) = let rest = trim_left cs in if is_space c then rest else c ∷ cs

unfoldable pub trim_right : Bytes → Bytes
trim_right [] = []
trim_right (c ∷ cs) =
    let rest = trim_right cs in if is_space c && is_empty rest then [] else c ∷ rest

-- strings.TrimSpace
unfoldable pub trim_space : Bytes → Bytes
unfolding trim_left trim_right
trim_space s = trim_right (trim_left s)

abbrev pub lower : ℕ → ℕ
lower c = if leb 65 c && leb c 90 then c + 32 else c

-- strings.ToLower
unfoldable pub to_lower : Bytes → Bytes
to_lower [] = []
to_lower (c ∷ cs) = lower c ∷ to_lower cs

abbrev pub push_first : ℕ → List Bytes → List Bytes
push_first c [] = (c ∷ []) ∷ []
push_first c (w ∷ ws) = (c ∷ w) ∷ ws

-- strings.Split, by one byte
unfoldable pub split : ℕ → Bytes → List Bytes
split sep [] = [] ∷ []
split sep (c ∷ cs) = let rest = split sep cs in if c == sep then [] ∷ rest else push_first c rest

-- strings.CutPrefix
unfoldable pub cut_prefix : Bytes → Bytes → Option Bytes
cut_prefix s [] = some s
cut_prefix [] (p ∷ ps) = none
cut_prefix (c ∷ cs) (p ∷ ps) = if c == p then cut_prefix cs ps else none

abbrev pub is_some {ℓ} : {A : Type ℓ} → Option A → Bool
is_some none = false
is_some (some a) = true

-- strings.HasPrefix, with the prefix first
abbrev pub has_prefix : Bytes → Bytes → Bool
has_prefix p s = is_some (cut_prefix s p)

abbrev pub cut_more : ℕ → Option (Bytes × Bytes) → Option (Bytes × Bytes)
cut_more c none = none
cut_more c (some (u, v)) = some (c ∷ u, v)

-- strings.Cut, by one byte
unfoldable pub cut : ℕ → Bytes → Option (Bytes × Bytes)
cut sep [] = none
cut sep (c ∷ cs) = let rest = cut sep cs in if c == sep then some ([], cs) else cut_more c rest

abbrev pub is_digit : ℕ → Bool
is_digit c = leb 48 c && leb c 57

-- The value of a row of digits, after `acc`.
unfoldable pub digits_value : ℕ → Bytes → Option ℕ
digits_value acc [] = some acc
digits_value acc (c ∷ cs) =
    let rest = digits_value (acc * 10 + (c - 48)) cs in if is_digit c then rest else none

unfoldable pub read_digits : Bytes → Option ℕ
read_digits [] = none
read_digits (c ∷ cs) = digits_value 0 (c ∷ cs)

abbrev in_range_pos : Option ℕ → Option ℤ
in_range_pos none = none
in_range_pos (some n) = if ltb n 0x8000000000000000 then some (pos n) else none

abbrev in_range_neg : Option ℕ → Option ℤ
in_range_neg none = none
in_range_neg (some n) = if leb n 0x8000000000000000 then some (sub_ℕ 0 n) else none

-- strconv.Atoi, and strconv.ParseInt for base 10 and 64 bits
unfoldable pub atoi : Bytes → Option ℤ
unfolding read_digits digits_value
atoi [] = none
atoi (c ∷ cs) =
    if c == b'-'
    then in_range_neg (read_digits cs)
    else if c == b'+'
    then in_range_pos (read_digits cs)
    else in_range_pos (read_digits (c ∷ cs))

-- The decimal digits of a number, at most `fuel` of them, in front of `rest`.
unfoldable pub show_digits : ℕ → ℕ → Bytes → Bytes
show_digits zero n rest = rest
show_digits (suc fuel) n rest =
    let more = show_digits fuel (n / 10) ((48 + n % 10) ∷ rest) in
    if ltb n 10 then (48 + n) ∷ rest else more

-- "%d"; a number has at most as many digits as its value plus one
unfoldable pub itoa : ℤ → Bytes
unfolding show_digits
itoa (pos n) = show_digits (suc n) n []
itoa (negsuc n) = b'-' ∷ show_digits (suc (suc n)) (suc n) []
