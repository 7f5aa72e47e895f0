-- ===== src/Strings/Examples.antt =====
-- lib/string.c in a memory with `ab` at 100 and `c` at 200.
use recover_os.Prelude.{inl, ℕ, ◌<◌, ◌≡◌, refl, List, [], ◌∷◌, arith, ok, ◌==◌, if◌then◌else◌}
use recover_os.Strings.{Memory, strcat}
use recover_os.Strings.Copy.{Str, Outside, strcat-Str}

abbrev memory : Memory
memory q = if q == 100 then b'a' else if q == 101 then b'b' else if q == 200 then b'c' else 0

abbrev ab : List ℕ
ab = b'a' ∷ b'b' ∷ []

abbrev only_c : List ℕ
only_c = b'c' ∷ []

ab_there : Str memory 100 ab
ab_there = (refl, ground arith, (refl, ground arith, refl))

c_there : Str memory 200 only_c
c_there = (refl, ground arith, refl)

bytes : (q : ℕ) → memory q < 256
bytes q = ground arith

strcat_example :
    (m' : Memory) × (strcat 3 100 200 memory ≡ ok (100, m'))
    × Str m' 100 (b'a' ∷ b'b' ∷ b'c' ∷ [])
    × ((q : ℕ) → Outside 102 2 q → m' q ≡ memory q)
strcat_example =
    strcat-Str 3 100 200 ab only_c memory (ground arith) (ground arith) (omega arith) (omega arith)
      ab_there c_there (inl (omega arith))
