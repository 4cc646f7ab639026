-- ===== src/Prelude/Int.antt =====
-- Go's signed integers: ℤ over the native numbers, and the wrap-around of int32 and int64.
use Prim.Native.Nat.{ℕ, suc, ◌+◌, ◌-◌, ◌/◌, ◌%◌, ◌≤◌, ◌<◌}
use mathlib.Core.Path.{◌≡◌}
use mathlib.Core.Bool.{Bool, true}
use mathlib.Core.Logic.{◌↔◌}
use native.Mathlib.Omega.{arith}
use go_multi_warp.Prelude.Tests.{ltb, leb, ◌==◌, if◌then◌else◌}

-- `negsuc n` is -(n + 1).
pub data ℤ : Type 0 where
  pos : ℕ → ℤ
  negsuc : ℕ → ℤ

abbrev pub pos_part : ℤ → ℕ
pos_part (pos n) = n
pos_part (negsuc n) = 0

abbrev pub neg_part : ℤ → ℕ
neg_part (pos n) = 0
neg_part (negsuc n) = suc n

-- a - b, as an integer.
abbrev pub sub_ℕ : ℕ → ℕ → ℤ
sub_ℕ a b = if leb b a then pos (a - b) else negsuc (b - a - 1)

infixl 65 ◌+ℤ◌ ◌-ℤ◌
infix 50 ◌≤ℤ◌ ◌<ℤ◌
abbrev pub ◌+ℤ◌ : ℤ → ℤ → ℤ
a +ℤ b = sub_ℕ (pos_part a + pos_part b) (neg_part a + neg_part b)

abbrev pub ◌-ℤ◌ : ℤ → ℤ → ℤ
a -ℤ b = sub_ℕ (pos_part a + neg_part b) (neg_part a + pos_part b)

abbrev pub ◌≤ℤ◌ : ℤ → ℤ → Type 0
a ≤ℤ b = pos_part a + neg_part b ≤ pos_part b + neg_part a

abbrev pub ◌<ℤ◌ : ℤ → ℤ → Type 0
a <ℤ b = pos_part a + neg_part b < pos_part b + neg_part a

abbrev pub ltb_ℤ : ℤ → ℤ → Bool
ltb_ℤ a b = ltb (pos_part a + neg_part b) (pos_part b + neg_part a)

abbrev pub leb_ℤ : ℤ → ℤ → Bool
leb_ℤ a b = leb (pos_part a + neg_part b) (pos_part b + neg_part a)

infix 50 ◌==ℤ◌
abbrev pub ◌==ℤ◌ : ℤ → ℤ → Bool
a ==ℤ b = pos_part a + neg_part b == pos_part b + neg_part a

pub ==ℤ_iff : (a b : ℤ) → ((a ==ℤ b) ≡ true) ↔ (a ≡ b)
==ℤ_iff a b = (λ h. ground arith, λ h. ground arith)

-- The conversions int32(a) and int64(a): the value of the low `w` bits, read as a signed number.
-- `m` is 2 ^ w and `half` is 2 ^ (w - 1).
abbrev pattern_of : ℕ → ℤ → ℕ
pattern_of m (pos n) = n % m
pattern_of m (negsuc n) = m - 1 - n % m

abbrev signed_of : ℕ → ℕ → ℕ → ℤ
signed_of half m r = if ltb r half then pos r else negsuc (m - r - 1)

unfoldable pub to_int32 : ℤ → ℤ
to_int32 a = signed_of 0x80000000 0x100000000 (pattern_of 0x100000000 a)

unfoldable pub to_int64 : ℤ → ℤ
to_int64 a = signed_of 0x8000000000000000 0x10000000000000000 (pattern_of 0x10000000000000000 a)

-- uint16(a)
abbrev pub uint16 : ℤ → ℕ
uint16 a = pattern_of 0x10000 a

-- Addition of the machine's integers.
abbrev pub add32 : ℤ → ℤ → ℤ
add32 a b = to_int32 (a +ℤ b)

abbrev pub add64 : ℤ → ℤ → ℤ
add64 a b = to_int64 (a +ℤ b)

-- An unsigned 64-bit counter goes up by one.
abbrev pub inc_u64 : ℕ → ℕ
inc_u64 n = (n + 1) % 0x10000000000000000

abbrev pub IsInt32 : ℤ → Type 0
IsInt32 a = (pos_part a < 0x80000000) × (neg_part a ≤ 0x80000000)

abbrev pub IsInt64 : ℤ → Type 0
IsInt64 a = (pos_part a < 0x8000000000000000) × (neg_part a ≤ 0x8000000000000000)

-- A value in range is its own conversion.
pub to_int32_id : (a : ℤ) → IsInt32 a → to_int32 a ≡ a
unfolding to_int32
to_int32_id (pos n) h = ground arith
to_int32_id (negsuc n) h = ground arith

pub to_int64_id : (a : ℤ) → IsInt64 a → to_int64 a ≡ a
unfolding to_int64
to_int64_id (pos n) h = ground arith
to_int64_id (negsuc n) h = ground arith

-- The remainder of Go's `a % n` has the sign of `a`.
unfoldable pub rem : ℤ → ℕ → ℤ
rem (pos a) n = pos (a % n)
rem (negsuc a) n = sub_ℕ 0 ((a + 1) % n)

-- Go's `a / n`, truncated towards zero.
unfoldable pub quot : ℤ → ℕ → ℤ
quot (pos a) n = pos (a / n)
quot (negsuc a) n = sub_ℕ 0 ((a + 1) / n)
