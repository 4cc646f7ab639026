-- ===== src/Std/Decimal.antt =====
-- strconv.Atoi reads back what "%d" prints.
use go_multi_warp.Prelude.{
  ℕ, zero, suc, ◌+◌, ◌-◌, ◌*◌, ◌/◌, ◌%◌, ◌<◌, ◌≡◌, refl, ap, sym, ◌∙◌, true, [], ◌∷◌, some, Bytes,
  ℤ, pos, negsuc, IsInt64, arith, if◌then◌else◌, ltb, Bool-cases, inl, inr,
}
use go_multi_warp.Std.{is_digit, digits_value, read_digits, show_digits, atoi, itoa}

one_digit :
    (acc d : ℕ) (rest : Bytes)
    → d < 10
    → digits_value acc ((48 + d) ∷ rest) ≡ digits_value (acc * 10 + d) rest
unfolding digits_value
one_digit acc d rest h =
    let e : 48 + d - 48 ≡ d = omega arith in
    let t : is_digit (48 + d) ≡ true = ground arith in rw (t, e, if◌then◌else◌)

-- Reading a printed number goes on from its value.
digits_value-show_digits :
    (fuel n : ℕ) (rest : Bytes)
    → n < fuel
    → digits_value 0 (show_digits fuel n rest) ≡ digits_value n rest
unfolding show_digits
digits_value-show_digits zero n rest h = elim h [ ]
digits_value-show_digits (suc fuel) n rest h = elim (Bool-cases (ltb n 10)) [
  | inl small ↦
      let e : 0 * 10 + n ≡ n = omega arith in
      rw (small, if◌then◌else◌)
        (one_digit 0 n rest (ground arith) ∙ ap (λ k. digits_value k rest) e)
  | inr large ↦
      let e : n / 10 * 10 + n % 10 ≡ n = omega arith in
      rw (large, if◌then◌else◌)
        (digits_value-show_digits fuel (n / 10) ((48 + n % 10) ∷ rest) (ground arith)
          ∙ one_digit (n / 10) (n % 10) rest (omega arith)
          ∙ ap (λ k. digits_value k rest) e)
]

show_digits_head :
    (fuel n : ℕ) (rest : Bytes)
    → n < fuel
    → (c : ℕ) × (cs : Bytes) × (show_digits fuel n rest ≡ c ∷ cs) × (is_digit c ≡ true)
unfolding show_digits
show_digits_head zero n rest h = elim h [ ]
show_digits_head (suc fuel) n rest h = elim (Bool-cases (ltb n 10)) [
  | inl small ↦ (48 + n, rest, rw (small, if◌then◌else◌), ground arith)
  | inr large ↦
      let (c, cs, e, d) = show_digits_head fuel (n / 10) ((48 + n % 10) ∷ rest) (ground arith) in
      (c, cs, rw (large, if◌then◌else◌) e, d)
]

read_digits-show_digits : (fuel n : ℕ) → n < fuel → read_digits (show_digits fuel n []) ≡ some n
unfolding read_digits
read_digits-show_digits fuel n h =
    let (c, cs, e, d) = show_digits_head fuel n [] h in
    rw e (rw (← e) (digits_value-show_digits fuel n [] h ∙ done))
  where
    done : digits_value n [] ≡ some n
    done = unfold digits_value in refl

atoi-show_digits :
    (fuel n : ℕ) → n < fuel → n < 0x8000000000000000 → atoi (show_digits fuel n []) ≡ some (pos n)
unfolding atoi
atoi-show_digits fuel n h small =
    let (c, cs, e, d) = show_digits_head fuel n [] h in
    let r : read_digits (c ∷ cs) ≡ some n =
      ap read_digits (sym e) ∙ read_digits-show_digits fuel n h in
    rw e (ground (arith, r))

-- Every int64 that is printed is read back as itself.
pub atoi-itoa : (a : ℤ) → IsInt64 a → atoi (itoa a) ≡ some a
unfolding itoa
atoi-itoa (pos n) h = atoi-show_digits (suc n) n (omega arith) (ground arith)
atoi-itoa (negsuc n) h =
    let r = read_digits-show_digits (suc (suc n)) (suc n) (omega arith) in
    unfold atoi in ground (arith, r)
