-- ===== src/Stdio.antt =====
-- lib/stdio.c: `itoa` and `vsprintf`.
--
-- What they write is the sequence of characters from `str` on. A format is its characters, without
-- the 0 at its end, the arguments are the 64-bit words that `args` passes, and a missing one reads as
-- 0. `string_at` is the string that stands at an address.

mod Examples
pub mod Digits
pub mod Numbers
use recover_os.Prelude.{
  ℕ, zero, suc, ◌+◌, ◌-◌, ◌*◌, ◌/◌, ◌%◌, ◌^◌, Bool, true, false, ◌||◌, List, [], ◌∷◌, ◌++◌, ltb,
  leb, ◌==◌, if◌then◌else◌,
}

-- The character of a digit
pub digit : ℕ → ℕ
digit m = if ltb m 10 then m + 0x30 else m + 0x41 - 10

-- `fuel` is more than the number of digits.
pub itoa_from : (fuel value base : ℕ) → List ℕ
itoa_from zero value base = []
itoa_from (suc n) value base =
    let front = itoa_from n (value / base) base in
    (if value / base == 0 then [] else front) ++ digit (value % base) ∷ []

-- A `uint64_t` has 64 digits at most.
pub itoa : (value base : ℕ) → List ℕ
itoa value base = itoa_from 64 value base

-- The `int64_t` and the `int` in a word, as 64 bits.
abbrev pub of_int : ℕ → ℕ
of_int word =
    if leb (2 ^ 31) (word % 2 ^ 32) then word % 2 ^ 32 + (2 ^ 64 - 2 ^ 32) else word % 2 ^ 32

abbrev pub is_negative : ℕ → Bool
is_negative value = leb (2 ^ 63) value

-- `0 - arg_64`
abbrev pub negate_long : ℕ → ℕ
negate_long value = (2 ^ 64 - value) % 2 ^ 64

-- `0 - arg_int`, widened
abbrev pub negate_int : ℕ → ℕ
negate_int value = of_int (2 ^ 64 - value)

pub signed_long : ℕ → List ℕ
signed_long value = if is_negative value then 0x2d ∷ itoa (negate_long value) 10 else itoa value 10

pub signed_int : ℕ → List ℕ
signed_int word =
    let value = of_int word in
    if is_negative value then 0x2d ∷ itoa (negate_int value) 10 else itoa value 10

-- Where in a directive the next character stands
pub data Place : Type 0 where
  in_text : Place
  behind_percent : Place
  behind_long : Place

abbrev pub first_arg : List ℕ → ℕ
first_arg [] = 0
first_arg (x ∷ xs) = x

abbrev pub rest_args : List ℕ → List ℕ
rest_args [] = []
rest_args (x ∷ xs) = xs

-- A character that no case of the `switch` takes is read again by the loop.
pub format_from : (string_at : ℕ → List ℕ) → Place → (format args : List ℕ) → List ℕ
format_from string_at place [] args = []
format_from string_at place (c ∷ format) args =
    let text =
      (if c == 0x25
        then format_from string_at behind_percent format args
        else c ∷ format_from string_at in_text format args) in
    let long = format_from string_at behind_long format args in
    let next = format_from string_at in_text format (rest_args args) in
    let arg = first_arg args in
    elim place [
      | in_text ↦ text
      | behind_percent ↦
          if c == 0x6c
          then long
          else if c == 0x73
          then string_at arg ++ next
          else if c == 0x63
          then arg % 256 ∷ next
          else if c == 0x64
          then signed_int arg ++ next
          else if c == 0x78
          then itoa (of_int arg) 16 ++ next
          else text
      | behind_long ↦
          if c == 0x64
          then signed_long arg ++ next
          else if c == 0x78
          then itoa arg 16 ++ next
          else text
    ]

pub vsprintf : (string_at : ℕ → List ℕ) → (format args : List ℕ) → List ℕ
vsprintf string_at format args = format_from string_at in_text format args
