-- ===== src/Memory/Blocks.antt =====
-- The blocks of an arena, and the lists that `create_free_blocks` makes of them.
use recover_os.Prelude.{
  ℕ, zero, suc, ◌+◌, ◌-◌, ◌≤◌, ◌<◌, ◌≡◌, refl, sym, ◌∙◌, ap, inl, inr, true, false, List, [], ◌∷◌,
  ◌++◌, append_assoc, append-nil, arith, ok, ◌==◌, Bool-cases, ==→eq, not_==→ne, ne→not_==,
}
use native.Mathlib.Nat.{suc-mul, add-mul}
use recover_os.LinkedList.Chain.{has, Distinct, has-append}
use recover_os.Memory.Heap.{arena2block, add_blocks}

module _ (a size : ℕ) (pos : 0 < size) where
  -- The `n` blocks from number `i` on.
  pub blocks_from : (n i : ℕ) → List ℕ
  blocks_from zero i = []
  blocks_from (suc n) i = arena2block a size i ∷ blocks_from n (i + 1)

  block_lt : (i d : ℕ) → arena2block a size i < arena2block a size (i + suc d)
  block_lt i d = omega (arith, add-mul i (suc d) size, suc-mul d size)

  pub block_ne : (i j : ℕ) → i < j → arena2block a size j == arena2block a size i ≡ false
  block_ne i j lt =
      let after : arena2block a size i < arena2block a size (i + suc (j - i - 1)) =
        block_lt i (j - i - 1) in
      let same : arena2block a size (i + suc (j - i - 1)) ≡ arena2block a size j =
        ap (arena2block a size) (omega arith) in
      ne→not_== _ _ (λ e. omega (arith, same))

  pub add_blocks-append :
      (n i : ℕ) (l : List ℕ)
      → ((j : ℕ) → i ≤ j → has (arena2block a size j) l ≡ false)
      → add_blocks n i a size l ≡ ok (l ++ blocks_from n i)
  unfolding add_blocks blocks_from
  add_blocks-append zero i l out = ap ok (sym (append-nil l))
  add_blocks-append (suc n) i l out =
      let b = arena2block a size i in
      rw (out i (omega arith)) (
        add_blocks-append n (i + 1) (l ++ b ∷ []) (λ j le.
          has-append (arena2block a size j) l (b ∷ [])
          ∙ rw (out j (omega arith), block_ne i j (omega arith)) refl)
        ∙ ap ok (append_assoc l (b ∷ []) (blocks_from n (i + 1))))

  pub blocks_from-first :
      (n i : ℕ) → 0 < n → (rest : List ℕ) × (blocks_from n i ≡ arena2block a size i ∷ rest)
  unfolding blocks_from
  blocks_from-first zero i lt = absurd (omega arith)
  blocks_from-first (suc n) i lt = (_, refl)

  pub has-blocks_from :
      (n i x : ℕ)
      → has x (blocks_from n i) ≡ true
      → (j : ℕ) × (i ≤ j) × (j < i + n) × (x ≡ arena2block a size j)
  unfolding blocks_from
  has-blocks_from zero i x h = cc
  has-blocks_from (suc n) i x h = elim (Bool-cases (x == arena2block a size i)) [
    | inl here ↦ (i, omega arith, omega arith, ==→eq x _ here)
    | inr other ↦
        let (j, low, high, is) = has-blocks_from n (i + 1) x (ground arith) in
        (j, omega arith, omega arith, is)
  ]

  pub blocks_from-Distinct : (n i : ℕ) → Distinct (blocks_from n i)
  unfolding blocks_from
  blocks_from-Distinct zero i = tt
  blocks_from-Distinct (suc n) i = (
    elim (Bool-cases (has (arena2block a size i) (blocks_from n (i + 1)))) [
      | inr out ↦ out
      | inl listed ↦
          let (j, low, high, is) = has-blocks_from n (i + 1) (arena2block a size i) listed in
          absurd (not_==→ne _ _ (block_ne i j (omega arith)) (sym is))
    ],
    blocks_from-Distinct n (i + 1),
  )
