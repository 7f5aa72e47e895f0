-- ===== src/Bitmap/Byte.antt =====
-- One byte of a bitmap: `(b >> k) & 1`, `b |= 1 << k` and `b &= ~(1 << k)` for k below 8.
use native.Mathlib.Nat.{zero-div}
use recover_os.Prelude.{
  all_below, all_below_sound, ℕ, ◌-◌, ◌/◌, ◌^◌, ◌<◌, ◌≡◌, refl, Bool, true, false, ◌&&◌, arith,
  bit_and, bit_or, ltb, ◌==◌, if◌then◌else◌,
}

unfoldable pub test_bit : ℕ → ℕ → Bool
test_bit b k = bit_and (b / 2 ^ k) 1 == 1

unfoldable pub raise_bit : ℕ → ℕ → ℕ
raise_bit b k = bit_or b (2 ^ k)

unfoldable pub clear_bit : ℕ → ℕ → ℕ
clear_bit b k = bit_and b (255 - 2 ^ k)

abbrev same : Bool → Bool → Bool
same true b = b
same false true = false
same false false = true

same→eq : (a b : Bool) → same a b ≡ true → a ≡ b
same→eq a b h = ground arith

abbrev raise_row : ℕ → ℕ → ℕ → Bool
raise_row b k j =
    same (test_bit (raise_bit b k) j) (if k == j then true else test_bit b j)
    && ltb (raise_bit b k) 256

abbrev clear_row : ℕ → ℕ → ℕ → Bool
clear_row b k j =
    same (test_bit (clear_bit b k) j) (if k == j then false else test_bit b j)
    && ltb (clear_bit b k) 256

raise_table : all_below 256 (λ b. all_below 8 (λ k. all_below 8 (raise_row b k))) ≡ true
unfolding test_bit raise_bit
raise_table = refl

clear_table : all_below 256 (λ b. all_below 8 (λ k. all_below 8 (clear_row b k))) ≡ true
unfolding test_bit clear_bit
clear_table = refl

module _ (row : ℕ → ℕ → ℕ → Bool) where
  at :
      all_below 256 (λ b. all_below 8 (λ k. all_below 8 (row b k))) ≡ true
      → (b k j : ℕ) → b < 256
      → k < 8
      → j < 8
      → row b k j ≡ true
  at h b k j hb hk hj =
      let at_byte = all_below_sound 256 (λ b. all_below 8 (λ k. all_below 8 (row b k))) b h hb in
      let at_set = all_below_sound 8 (λ k. all_below 8 (row b k)) k at_byte hk in
      all_below_sound 8 (row b k) j at_set hj

pub raise_bit_lem :
    (b k j : ℕ)
    → b < 256
    → k < 8
    → j < 8
    → (test_bit (raise_bit b k) j ≡ (if k == j then true else test_bit b j)) × (raise_bit b k < 256)
raise_bit_lem b k j hb hk hj = ground (arith, at raise_row raise_table b k j hb hk hj)

pub clear_bit_lem :
    (b k j : ℕ)
    → b < 256
    → k < 8
    → j < 8
    → (test_bit (clear_bit b k) j ≡ (if k == j then false else test_bit b j))
      × (clear_bit b k < 256)
clear_bit_lem b k j hb hk hj = ground (arith, at clear_row clear_table b k j hb hk hj)

pub test_bit-zero : (k : ℕ) → test_bit 0 k ≡ false
unfolding test_bit
test_bit-zero k = rw zero-div refl
