-- ===== src/Stdio/Examples.antt =====
-- lib/stdio.c on short formats.
use recover_os.Prelude.{ℕ, ◌-◌, ◌^◌, ◌≡◌, refl, List, [], ◌∷◌, ◌++◌, arith}
use recover_os.Stdio.{digit, itoa_from, itoa, signed_int, format_from, vsprintf}
use recover_os.Stdio.Numbers.{read_signed, vsprintf_long}

abbrev no_strings : ℕ → List ℕ
no_strings a = []

-- "%d" of -42
minus_42 : vsprintf no_strings (0x25 ∷ 0x64 ∷ []) ((2 ^ 32 - 42) ∷ []) ≡ 0x2d ∷ 0x34 ∷ 0x32 ∷ []
unfolding vsprintf format_from signed_int itoa itoa_from digit
minus_42 = refl

-- "n=%ld;"
vsprintf_long_example :
    (digits : List ℕ) × (vsprintf no_strings
        ((0x6e ∷ 0x3d ∷ []) ++ 0x25 ∷ 0x6c ∷ 0x64 ∷ 0x3b ∷ [])
        ((2 ^ 64 - 42) ∷ [])
      ≡ (0x6e ∷ 0x3d ∷ []) ++ (digits ++ vsprintf no_strings (0x3b ∷ []) []))
    × (read_signed 64 digits ≡ 2 ^ 64 - 42)
vsprintf_long_example =
    vsprintf_long no_strings (0x6e ∷ 0x3d ∷ []) (0x3b ∷ []) (2 ^ 64 - 42) [] refl (omega arith)

-- "%d" of the least `int`, -2147483648
least_int : signed_int (2 ^ 31) ≡ 0x2d ∷ itoa (2 ^ 64 - 2 ^ 31) 10
unfolding signed_int
least_int = refl
