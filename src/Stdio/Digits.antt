-- ===== src/Stdio/Digits.antt =====
-- `itoa` and the number that its characters stand for.
use recover_os.Prelude.{
  ap₂, ℕ, zero, suc, ◌+◌, ◌-◌, ◌*◌, ◌/◌, ◌%◌, ◌^◌, ◌≤◌, ◌<◌, ◌≡◌, refl, ◌∙◌, ap, inl, inr, List, [],
  ◌∷◌, ◌++◌, arith, ltb, ◌==◌, if◌then◌else◌, Bool-cases, ==→eq,
}
use native.Mathlib.Nat.{
  pow-suc, zero-mul, div-mul-le_self, mul-le-mul_left, mod-lt, mod-add-div, div-add-mod',
}
use recover_os.Stdio.{digit, itoa_from, itoa}

abbrev pub digit_value : ℕ → ℕ
digit_value c = if ltb c 0x3a then c - 0x30 else c - 0x37

-- The number that digits stand for, with `acc` in front of them.
abbrev pub value_from : (base acc : ℕ) → List ℕ → ℕ
value_from base acc [] = acc
value_from base acc (c ∷ cs) = value_from base (acc * base + digit_value c) cs

abbrev pub value_of : (base : ℕ) → List ℕ → ℕ
value_of base cs = value_from base 0 cs

digit_value-digit : (m : ℕ) → m < 16 → digit_value (digit m) ≡ m
unfolding digit
digit_value-digit m lt = ground arith

value_from-append :
    (base acc : ℕ) (cs : List ℕ) (c : ℕ)
    → value_from base acc (cs ++ c ∷ []) ≡ value_from base acc cs * base + digit_value c
value_from-append base acc [] c = refl
value_from-append base acc (d ∷ cs) c = value_from-append base (acc * base + digit_value d) cs c

half : (value base n : ℕ) → 2 ≤ base → value < 2 ^ suc n → value / base < 2 ^ n
half value base n low lt = omega (
  arith,
  div-mul-le_self value base,
  mul-le-mul_left {m = 2} {n = base} (value / base) low,
  pow-suc 2 n,
)

itoa_from-value :
    (n value base : ℕ)
    → 2 ≤ base
    → base ≤ 16
    → value < 2 ^ n
    → value_of base (itoa_from n value base) ≡ value
unfolding itoa_from
itoa_from-value zero value base low high lt = omega (arith, lt)
itoa_from-value (suc n) value base low high lt =
    let low_digit =
      digit_value-digit (value % base)
        (omega (arith, mod-lt value {m = base} (omega (arith, low)))) in
    elim (Bool-cases (value / base == 0)) [
      | inl last ↦
          rw (last, if◌then◌else◌)
            (ap₂ (λ (a b : ℕ). a + b) (zero-mul base) low_digit
              ∙ omega (
                arith,
                mod-add-div value base,
                ap (λ (q : ℕ). base * q) (==→eq (value / base) 0 last),
              ))
      | inr more ↦
          rw (more, if◌then◌else◌)
            (value_from-append base 0 (itoa_from n (value / base) base) (digit (value % base))
              ∙ ap₂ (λ (a b : ℕ). a * base + b)
                  (itoa_from-value n (value / base) base low high (half value base n low lt))
                  low_digit
              ∙ omega (arith, div-add-mod' value base))
    ]

-- A base of 2 to 16 and a value of 64 bits: the characters of `itoa` stand for the value.
pub itoa-value :
    (value base : ℕ)
    → 2 ≤ base
    → base ≤ 16
    → value < 2 ^ 64
    → value_of base (itoa value base) ≡ value
unfolding itoa
itoa-value value base low high lt = itoa_from-value 64 value base low high lt
