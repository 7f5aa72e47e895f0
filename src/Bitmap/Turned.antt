-- ===== src/Bitmap/Turned.antt =====
-- Ranges of bits that are clear, set, or turned by an operation.

use recover_os.Prelude.{
  ℕ, suc, ◌+◌, ◌<◌, ◌≡◌, refl, ◌∙◌, Bool, true, false, ◌&&◌, arith, ltb, leb, if◌then◌else◌, length,
}
use recover_os.Bitmap.{Bitmap}
use recover_os.Bitmap.Laws.{
  bit, InMemory, IsValid, write, bytes_len-write, length-write, bit-write, write-IsValid,
}

-- The `cnt` bits from `s` on are clear.
abbrev pub Clear : Bitmap → (s cnt : ℕ) → Type 0
Clear m s cnt = (k : ℕ) → k < cnt → bit m (s + k) ≡ false

-- The `cnt` bits from `s` on are set.
abbrev pub Used : Bitmap → (s cnt : ℕ) → Type 0
Used m s cnt = (k : ℕ) → k < cnt → bit m (s + k) ≡ true

-- `m'` is `m` with the `cnt` bits from `s` on turned to `v`, and nothing else changed.
pub record Turned (v : Bool) (s cnt : ℕ) (m m' : Bitmap) : Type 0 where
  pub valid : IsValid m'
  pub same_len : m'.bytes_len ≡ m.bytes_len
  pub same_memory : length m'.bits ≡ length m.bits
  pub bits : (j : ℕ) → bit m' j ≡ (if leb s j && ltb j (s + cnt) then v else bit m j)

pub Turned-write :
    {m : Bitmap} → IsValid m → (i : ℕ) (v : Bool) → InMemory m i → Turned v i 1 m (write m i v)
Turned-write {m} valid i v here = record {
  valid = write-IsValid valid i v here;
  same_len = bytes_len-write m i v;
  same_memory = length-write m i v;
  bits = λ j. ground (arith, bit-write valid i v here j);
}

pub Turned-refl : {m : Bitmap} → IsValid m → (v : Bool) (s : ℕ) → Turned v s 0 m m
Turned-refl valid v s = record {
  valid = valid;
  same_len = refl;
  same_memory = refl;
  bits = λ j. ground arith;
}

-- One bit more at the front of a range.
pub Turned-step :
    {m m' m'' : Bitmap} (v : Bool) (s n : ℕ)
    → Turned v s 1 m m'
    → Turned v (s + 1) n m' m''
    → Turned v s (suc n) m m''
Turned-step v s n a b = record {
  valid = b.valid;
  same_len = b.same_len ∙ a.same_len;
  same_memory = b.same_memory ∙ a.same_memory;
  bits = λ j. ground (arith, a.bits j, b.bits j);
}
