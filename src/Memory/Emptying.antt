-- ===== src/Memory/Emptying.antt =====
-- The arena without a block in use: `sys_free` takes its blocks out of the free list, and gives its
-- page back.
use recover_os.Prelude.{
  Bool, ◌*◌, ◌%◌, ◌^◌, ◌++◌, subst, some, not_==→ne, ℕ, zero, suc, ◌+◌, ◌≤◌, ◌<◌, ◌≡◌, refl, sym,
  ◌∙◌, ap, ◌≢◌, inl, inr, true, false, List, [], ◌∷◌, arith, ok, ◌>>=◌, ◌==◌, if◌then◌else◌,
  Bool-cases, ==→eq, ne→not_==,
}
use recover_os.LinkedList.Chain.{has, Distinct, has-append}
use recover_os.Thread.Tasks.{erase, has-erase, Distinct-erase}
use recover_os.Bitmap.Turned.{Turned}
use recover_os.Memory.{Memory, Pool}
use recover_os.Memory.Taking.{IsBlock, IsHeap}
use recover_os.Memory.Free.{block2arena-arena}
use recover_os.Memory.Heap.{Heap, block2arena, set_desc, set_arena, arena2block, drop_blocks}
use recover_os.Memory.Blocks.{block_ne}

-- What is left of a list without the `n` blocks from number `i` on.
abbrev pub Left : (a size n i : ℕ) → (l l' : List ℕ) → Type 0
Left a size n i l l' =
    Distinct l'
    × ((x : ℕ) → ((j : ℕ) → i ≤ j → j < i + n → x ≢ arena2block a size j) → has x l' ≡ has x l)
    × ((j : ℕ) → i ≤ j → j < i + n → has (arena2block a size j) l' ≡ false)

not_both : {t : Bool} → t ≡ true → t ≢ false
not_both e e' = cc

some-inj : {x y : ℕ} → some x ≡ some y → x ≡ y
some-inj e = cc

module _ (a size : ℕ) (pos : 0 < size) where
  pub drop_blocks-Left :
      (n i : ℕ) (l : List ℕ)
      → Distinct l
      → ((j : ℕ) → i ≤ j → j < i + n → has (arena2block a size j) l ≡ true)
      → (l' : List ℕ) × (drop_blocks n i a size l ≡ ok l') × Left a size n i l l'
  unfolding drop_blocks
  drop_blocks-Left zero i l dist all =
      (l, refl, (dist, λ x out. refl, λ j le lt. absurd (omega arith)))
  drop_blocks-Left (suc n) i l dist all =
      let b : ℕ = arena2block a size i in
      let (l', run, (dist', others, gone)) =
        drop_blocks-Left n (i + 1) (erase b l) (Distinct-erase b l dist) (λ j le lt.
          has-erase b (arena2block a size j) l dist
          ∙ rw (block_ne a size pos i j (omega arith)) (all j (omega arith) (omega arith))) in
      (
        l',
        rw (all i (omega arith) (omega arith), ◌>>=◌) run,
        (
          dist',
          λ x out.
              others x (λ j le lt. out j (omega arith) (omega arith))
              ∙ has-erase b x l dist
              ∙ rw (ne→not_== x b (out i (omega arith) (omega arith))) refl,
          λ j le lt. elim (Bool-cases (j == i)) [
            | inl here ↦ first l' gone others dist j (==→eq j i here)
            | inr later ↦ gone j (ground (arith, later)) (omega arith)
          ],
        ),
      )
    where
      first :
          (l' : List ℕ)
          → ((j : ℕ) → i + 1 ≤ j → j < i + 1 + n → has (arena2block a size j) l' ≡ false)
          → ((x : ℕ)
              → ((j : ℕ) → i + 1 ≤ j → j < i + 1 + n → x ≢ arena2block a size j)
              → has x l' ≡ has x (erase (arena2block a size i) l))
          → Distinct l
          → (j : ℕ) → j ≡ i
          → has (arena2block a size j) l' ≡ false
      first l' gone others dist j e =
          ap (λ j. has (arena2block a size j) l') e
          ∙ others (arena2block a size i)
              (λ j le lt eq. ground (arith, eq, block_ne a size pos i j (omega arith)))
          ∙ has-erase (arena2block a size i) (arena2block a size i) l dist
          ∙ ground arith

module _ (h : Heap) (d b : ℕ) (v : IsHeap h) (lt : d < 7) (block : IsBlock h d b)
    (out : has b (h.descs d).free_list ≡ false) (pool : Pool) (mem : Memory) (left : List ℕ)
    (start : pool.start ≡ h.pool.start)
    (turned : Turned false block.k 1 h.pool.pool_bitmap pool.pool_bitmap)
    (is_left : Left
      (block2arena b)
      (h.descs d).block_size
      (h.descs d).blocks_per_arena
      0
      ((h.descs d).free_list ++ b ∷ [])
      left) where
  unfoldable pub emptied : Heap
  emptied =
      let cnt = ((h.arenas (block2arena b)).cnt + 1) % 2 ^ 64 in
      let h' : Heap =
        set_arena h (block2arena b) (record (h.arenas (block2arena b)) { cnt = cnt }) in
      set_desc (record h' { pool = pool; mem = mem }) d (record (h.descs d) { free_list = left })

  moved-IsBlock : (e x : ℕ) (x_block : IsBlock h e x) → x_block.k ≢ block.k → IsBlock emptied e x
  unfolding emptied
  moved-IsBlock e x x_block ne = record {
    k = x_block.k;
    i = x_block.i;
    at = ground (arith, x_block.at, start);
    in_arena = ground (arith, x_block.in_arena);
    taken = ground (arith, turned.bits x_block.k, x_block.taken);
    owner = rw start (ground (arith, x_block.owner));
  }

  left_listed : (x : ℕ) → has x left ≡ true → (x_block : IsBlock h d x) × (x_block.k ≢ block.k)
  left_listed x listed = (known, apart)
    where
      outside :
          (j : ℕ)
          → 0 ≤ j
          → j < 0 + (h.descs d).blocks_per_arena
          → x ≢ arena2block (block2arena b) (h.descs d).block_size j
      outside j le low e = not_both listed (ap (λ x. has x left) e ∙ is_left.2 j le low)

      not_b : x ≢ b
      not_b e = outside block.i (omega arith) (omega (arith, block.in_arena)) (
          e
          ∙ block.at
          ∙ ap (λ a. arena2block a (h.descs d).block_size block.i)
              (sym (block2arena-arena h d b v lt block out)))

      known : IsBlock h d x
      known = v.blocks d x lt (
          ground (
            arith,
            is_left.1 x outside,
            has-append x (h.descs d).free_list (b ∷ []),
            ne→not_== x b not_b,
            listed,
          ))

      apart : known.k ≢ block.k
      apart e = outside known.i (omega arith) (omega (arith, known.in_arena)) (
          known.at
          ∙ ap (λ k. arena2block (k * 4096 + h.pool.start) (h.descs d).block_size known.i) e
          ∙ ap (λ a. arena2block a (h.descs d).block_size known.i)
              (sym (block2arena-arena h d b v lt block out)))

  pub emptied-IsHeap : IsHeap emptied
  unfolding emptied
  emptied-IsHeap = record {
    start = ap (λ s. s % 4096) start ∙ v.start;
    low = λ e le. ground (arith, v.low e le);
    high = λ e le. ground (arith, v.high e le);
    last = ground (arith, v.last);
    fits = λ e le. ground (arith, v.fits e le);
    blocks = λ e x le listed. emptied_listed e x le listed;
    distinct = λ e le. elim (Bool-cases (e == d)) [
      | inl same ↦ rw (same, if◌then◌else◌) is_left.0
      | inr other ↦ rw (other, if◌then◌else◌) (v.distinct e le)
    ];
  }
    where
      emptied_listed :
          (e x : ℕ) → e < 7 → has x (emptied.descs e).free_list ≡ true → IsBlock emptied e x
      emptied_listed e x le listed = elim (Bool-cases (e == d)) [
        | inl same ↦
            let (known, apart) = left_listed x (ground (arith, listed, same)) in
            subst (λ e. IsBlock emptied e x) (sym (==→eq e d same)) (moved-IsBlock d x known apart)
        | inr other ↦
            let known = v.blocks e x le (ground (arith, listed, other)) in
            moved-IsBlock e x known (λ k. not_==→ne e d other (
              some-inj (
                sym known.owner
                ∙ ap (λ k. (h.arenas (k * 4096 + h.pool.start)).desc) k
                ∙ block.owner)))
      ]
