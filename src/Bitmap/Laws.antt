-- ===== src/Bitmap/Laws.antt =====
-- lib/kernel/bitmap.c seen bit by bit: reads, writes and the ranges that they leave alone.
use recover_os.Prelude.{
  ℕ, ◌/◌, ◌%◌, ◌≤◌, ◌<◌, ◌≡◌, refl, inl, inr, Bool, true, false, arith, ok, ◌==◌, if◌then◌else◌,
  length, get_or, length-set, get_or-set_self, get_or-set_ne, Bool-cases,
}
use recover_os.Bitmap.{Bitmap, bitmap_read, bitmap_set, store_byte}
use recover_os.Bitmap.Byte.{test_bit, raise_bit, clear_bit, raise_bit_lem, clear_bit_lem}

-- The bit at an index of the whole memory behind `bits`.
unfoldable pub bit : Bitmap → ℕ → Bool
bit m i = test_bit (get_or m.bits (i / 8) 0) (i % 8)

-- The bit lies in the memory behind `bits`.
abbrev pub InMemory : Bitmap → ℕ → Type 0
InMemory m i = i / 8 < length m.bits

-- `bytes_len` bytes are there, and every cell is a byte.
pub record IsValid (m : Bitmap) : Type 0 where
  pub backed : m.bytes_len ≤ length m.bits
  pub bytes : (i : ℕ) → get_or m.bits i 0 < 256

pub change : ℕ → Bool → ℕ → ℕ
change k v b = if v then raise_bit b k else clear_bit b k

pub write : Bitmap → ℕ → Bool → Bitmap
write m i v = store_byte m (i / 8) (change (i % 8) v)

pub read-ok : (m : Bitmap) (i : ℕ) → InMemory m i → bitmap_read m i ≡ ok (bit m i)
unfolding bitmap_read bit
read-ok m i h = ground arith

pub set-ok : (m : Bitmap) (i : ℕ) (v : Bool) → InMemory m i → bitmap_set m i v ≡ ok (write m i v)
unfolding bitmap_set write change
set-ok m i v h = ground arith

pub bytes_len-write : (m : Bitmap) (i : ℕ) (v : Bool) → (write m i v).bytes_len ≡ m.bytes_len
unfolding write store_byte
bytes_len-write m i v = refl

pub length-write : (m : Bitmap) (i : ℕ) (v : Bool) → length (write m i v).bits ≡ length m.bits
unfolding write store_byte
length-write m i v = length-set m.bits (i / 8) _

change_lem :
    (b k j : ℕ) (v : Bool)
    → b < 256
    → k < 8
    → j < 8
    → (test_bit (change k v b) j ≡ (if k == j then v else test_bit b j)) × (change k v b < 256)
unfolding change
change_lem b k j true hb hk hj = raise_bit_lem b k j hb hk hj
change_lem b k j false hb hk hj = clear_bit_lem b k j hb hk hj

module _ {m : Bitmap} (valid : IsValid m) (i : ℕ) (v : Bool) (here : InMemory m i) where
  pub bit-write : (j : ℕ) → bit (write m i v) j ≡ (if i == j then v else bit m j)
  unfolding bit write store_byte
  bit-write j = elim (Bool-cases (i / 8 == j / 8)) [
    | inl e ↦ ground (
      arith,
      get_or-set_self m.bits (i / 8) (change (i % 8) v (get_or m.bits (i / 8) 0)) 0 here,
      change_lem (get_or m.bits (i / 8) 0) (i % 8) (j % 8) v (valid.bytes (i / 8)),
    )
    | inr n ↦
        ground (
          arith,
          get_or-set_ne m.bits (i / 8) (j / 8) (change (i % 8) v (get_or m.bits (i / 8) 0)) 0,
        )
  ]

  pub write-IsValid : IsValid (write m i v)
  unfolding write store_byte
  write-IsValid = record {
    backed = omega (
      arith,
      length-set m.bits (i / 8) (change (i % 8) v (get_or m.bits (i / 8) 0)),
      valid.backed,
    );
    bytes = λ j. elim (Bool-cases (i / 8 == j)) [
      | inl e ↦ ground (
        arith,
        get_or-set_self m.bits (i / 8) (change (i % 8) v (get_or m.bits (i / 8) 0)) 0 here,
        change_lem (get_or m.bits (i / 8) 0) (i % 8) (i % 8) v (valid.bytes (i / 8)),
      )
      | inr n ↦ ground (
        arith,
        get_or-set_ne m.bits (i / 8) j (change (i % 8) v (get_or m.bits (i / 8) 0)) 0,
        valid.bytes j,
      )
    ];
  }
