-- ===== src/Stdio/Numbers.antt =====
-- `vsprintf` of text and of signed numbers, and what the characters of these stand for.
use recover_os.Prelude.{
  ne→not_==, ℕ, zero, suc, ◌+◌, ◌-◌, ◌/◌, ◌%◌, ◌^◌, ◌≤◌, ◌<◌, ◌≡◌, refl, ◌∙◌, ap, ◌≢◌, inl, inr,
  true, false, List, [], ◌∷◌, ◌++◌, arith, leb, ◌==◌, if◌then◌else◌, Bool-cases, get_or,
}
use recover_os.LinkedList.Chain.{has}
use recover_os.Stdio.{
  digit, itoa_from, itoa, of_int, is_negative, negate_long, negate_int, signed_long, signed_int,
  in_text, format_from, vsprintf,
}
use recover_os.Stdio.Digits.{value_of, itoa-value}

-- The number of `2 ^ bits` that characters with a minus sign or without one stand for.
abbrev pub read_signed : (bits : ℕ) → List ℕ → ℕ
read_signed bits [] = 0
read_signed bits (c ∷ cs) =
    if c == 0x2d then (2 ^ bits - value_of 10 cs) % 2 ^ bits else value_of 10 (c ∷ cs)

low_digit : (m : ℕ) → 0x30 ≤ digit m
unfolding digit
low_digit m = ground arith

first_digit : (n value base : ℕ) → 0x30 ≤ get_or (itoa_from n value base) 0 0x30
unfolding itoa_from
first_digit zero value base = omega arith
first_digit (suc n) value base = elim (Bool-cases (value / base == 0)) [
  | inl last ↦ rw (last, if◌then◌else◌) (low_digit (value % base))
  | inr more ↦
      rw (more, if◌then◌else◌)
        (append_first (itoa_from n (value / base) base) (first_digit n (value / base) base))
]
  where
    append_first :
        (l : List ℕ)
        → 0x30 ≤ get_or l 0 0x30
        → 0x30 ≤ get_or (l ++ digit (value % base) ∷ []) 0 0x30
    append_first [] h = low_digit (value % base)
    append_first (x ∷ l) h = h

read_unsigned :
    (bits : ℕ) (l : List ℕ) → 0x30 ≤ get_or l 0 0x30 → read_signed bits l ≡ value_of 10 l
read_unsigned bits [] h = refl
read_unsigned bits (c ∷ cs) h = rw (ne→not_== c 0x2d (omega (arith, h)), if◌then◌else◌) refl

read-itoa : (bits value : ℕ) → value < 2 ^ 64 → read_signed bits (itoa value 10) ≡ value
unfolding itoa
read-itoa bits value lt =
    read_unsigned bits (itoa value 10) (first_digit 64 value 10)
    ∙ itoa-value value 10 (omega arith) (omega arith) lt

read-signed_long : (w : ℕ) → w < 2 ^ 64 → read_signed 64 (signed_long w) ≡ w
unfolding signed_long
read-signed_long w lt = elim (Bool-cases (is_negative w)) [
  | inl minus ↦
      rw
        (
          minus,
          if◌then◌else◌,
          itoa-value (negate_long w) 10 (omega arith) (omega arith) (omega arith),
        )
        (ground (arith, minus))
  | inr plus ↦ rw (plus, if◌then◌else◌) (read-itoa 64 w lt)
]

signed_int-minus :
    (w v : ℕ) → of_int w ≡ v → is_negative v ≡ true → signed_int w ≡ 0x2d ∷ itoa (negate_int v) 10
unfolding signed_int
signed_int-minus w v e minus = rw (e, minus) refl

signed_int-plus : (w v : ℕ) → of_int w ≡ v → is_negative v ≡ false → signed_int w ≡ itoa v 10
unfolding signed_int
signed_int-plus w v e plus = rw (e, plus) refl

read-signed_int : (w : ℕ) → w % 2 ^ 32 ≢ 2 ^ 31 → read_signed 32 (signed_int w) ≡ w % 2 ^ 32
read-signed_int w ne = elim (Bool-cases (leb (2 ^ 31) (w % 2 ^ 32))) [
  | inl minus ↦
      let v = w % 2 ^ 32 + (2 ^ 64 - 2 ^ 32) in
      let negated : negate_int v ≡ 2 ^ 32 - w % 2 ^ 32 = ground (arith, minus) in
      let digits = itoa-value (2 ^ 32 - w % 2 ^ 32) 10 (omega arith) (omega arith) (omega arith) in
      ap (read_signed 32)
        (signed_int-minus w v (rw minus refl) (ground arith) ∙ ap (λ n. 0x2d ∷ itoa n 10) negated)
      ∙ ap (λ n. (2 ^ 32 - n) % 2 ^ 32) digits
      ∙ ground (arith, minus)
  | inr plus ↦
      ap (read_signed 32) (signed_int-plus w (w % 2 ^ 32) (rw plus refl) (ground arith))
      ∙ read-itoa 32 (w % 2 ^ 32) (omega arith)
]

text_copied :
    (string_at : ℕ → List ℕ) (pre post args : List ℕ)
    → has 0x25 pre ≡ false
    → format_from string_at in_text (pre ++ post) args
      ≡ pre ++ format_from string_at in_text post args
unfolding format_from
text_copied string_at [] post args out = refl
text_copied string_at (c ∷ pre) post args out =
    rw (ne→not_== c 0x25 (λ e. ground (arith, e, out)), if◌then◌else◌)
      (ap (λ l. c ∷ l) (text_copied string_at pre post args (ground (arith, out))))

-- Text without a `%` in front of a `%ld` is copied; then the digits, with a sign if need be, from
-- which the argument reads back; then what the rest of the format makes of the other arguments.
pub vsprintf_long :
    (string_at : ℕ → List ℕ) (pre post : List ℕ) (w : ℕ) (args : List ℕ)
    → has 0x25 pre ≡ false
    → w < 2 ^ 64
    → (digits : List ℕ) × (vsprintf string_at (pre ++ 0x25 ∷ 0x6c ∷ 0x64 ∷ post) (w ∷ args)
        ≡ pre ++ (digits ++ vsprintf string_at post args))
      × (read_signed 64 digits ≡ w)
unfolding vsprintf format_from
vsprintf_long string_at pre post w args out lt = (
  signed_long w,
  text_copied string_at pre (0x25 ∷ 0x6c ∷ 0x64 ∷ post) (w ∷ args) out,
  read-signed_long w lt,
)

-- Text without a `%` in front of a `%d`, whose argument is not the least `int`, is copied; then the
-- digits, with a sign if need be, from which the low 32 bits of the argument read back; then what
-- the rest of the format makes of the other arguments.
pub vsprintf_int :
    (string_at : ℕ → List ℕ) (pre post : List ℕ) (w : ℕ) (args : List ℕ)
    → has 0x25 pre ≡ false
    → w % 2 ^ 32 ≢ 2 ^ 31
    → (digits : List ℕ) × (vsprintf string_at (pre ++ 0x25 ∷ 0x64 ∷ post) (w ∷ args)
        ≡ pre ++ (digits ++ vsprintf string_at post args))
      × (read_signed 32 digits ≡ w % 2 ^ 32)
unfolding vsprintf format_from
vsprintf_int string_at pre post w args out ne = (
  signed_int w,
  text_copied string_at pre (0x25 ∷ 0x64 ∷ post) (w ∷ args) out,
  read-signed_int w ne,
)
