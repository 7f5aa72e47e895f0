-- ===== src/Memory/Free.antt =====
-- `sys_free` of a block of an arena that keeps other blocks in use.
use recover_os.Prelude.{
  ==_self, ℕ, ◌+◌, ◌*◌, ◌%◌, ◌^◌, ◌≤◌, ◌<◌, ◌≡◌, refl, sym, ◌∙◌, ap, subst, ◌≢◌, inl, inr, true,
  false, some, List, [], ◌∷◌, ◌++◌, arith, ok, ◌==◌, if◌then◌else◌, Bool-cases, ==→eq, ne→not_==,
}
use native.Mathlib.Nat.{div-le_self}
use recover_os.LinkedList.Chain.{has, Distinct, has-append}
use recover_os.Memory.Heap.{Heap, set_desc, set_arena, block2arena, free_block, sys_free}
use recover_os.Memory.Taking.{IsBlock, IsHeap, KeepsArenas, IsBlock-kept, block_end}

pub append-Distinct : (b : ℕ) (l : List ℕ) → Distinct l → has b l ≡ false → Distinct (l ++ b ∷ [])
append-Distinct b [] dist out = (refl, tt)
append-Distinct b (x ∷ l) dist out =
    (has-append x l (b ∷ []) ∙ ground (arith, dist.0), append-Distinct b l (dist.1) (ground arith))

module _ (h : Heap) (d b : ℕ) (v : IsHeap h) (lt : d < 7) (block : IsBlock h d b)
    (out : has b (h.descs d).free_list ≡ false) where
  abbrev pub arena : ℕ
  arena = block.k * 4096 + h.pool.start

  pub block2arena-arena : block2arena b ≡ arena
  block2arena-arena = omega (
    arith,
    block_end (h.descs d).block_size (h.descs d).blocks_per_arena block.i (v.fits d lt)
        block.in_arena,
    block.at,
    v.start,
    v.low d lt,
  )

  pub owner_at : (h.arenas (block2arena b)).desc ≡ some d
  owner_at = ap (λ a. (h.arenas a).desc) block2arena-arena ∙ block.owner

  freed_heap : Heap
  freed_heap =
      let cnt = ((h.arenas (block2arena b)).cnt + 1) % 2 ^ 64 in
      set_desc (set_arena h (block2arena b) (record (h.arenas (block2arena b)) { cnt = cnt })) d
        (record (h.descs d) { free_list = (h.descs d).free_list ++ b ∷ [] })

  freed-KeepsArenas : KeepsArenas h freed_heap
  unfolding freed_heap
  freed-KeepsArenas = record {
    size = λ e. ground arith;
    cnt = λ e. ground arith;
    start = refl;
    taken = λ k t. t;
    owner = λ k t. ground arith;
  }

  freed_listed : (e x : ℕ) → e < 7 → has x (freed_heap.descs e).free_list ≡ true → IsBlock h e x
  unfolding freed_heap
  freed_listed e x le listed = elim (Bool-cases (e == d)) [
    | inr other ↦ v.blocks e x le (ground (arith, listed, other))
    | inl same ↦ elim (Bool-cases (x == b)) [
      | inl this ↦
          subst (λ e. IsBlock h e x) (sym (==→eq e d same))
            (subst (IsBlock h d) (sym (==→eq x b this)) block)
      | inr older ↦
          v.blocks e x le
            (ground (arith, listed, same, older, has-append x (h.descs d).free_list (b ∷ [])))
    ]
  ]

  freed-Distinct : (e : ℕ) → e < 7 → Distinct (freed_heap.descs e).free_list
  unfolding freed_heap
  freed-Distinct e le = elim (Bool-cases (e == d)) [
    | inl same ↦
        rw (same, if◌then◌else◌) (append-Distinct b (h.descs d).free_list (v.distinct d lt) out)
    | inr other ↦ rw (other, if◌then◌else◌) (v.distinct e le)
  ]

  freed-IsHeap : IsHeap freed_heap
  unfolding freed_heap
  freed-IsHeap =
      let keeps = freed-KeepsArenas in
      record {
        start = v.start;
        low = λ e le. rw (keeps.size e) (v.low e le);
        high = λ e le. rw (keeps.size e) (v.high e le);
        last = keeps.size 6 ∙ v.last;
        fits = λ e le. rw (keeps.size e, keeps.cnt e) (v.fits e le);
        blocks = λ e x le listed. IsBlock-kept h freed_heap e x keeps (freed_listed e x le listed);
        distinct = freed-Distinct;
      }

  free_block-freed :
      ((h.arenas (block2arena b)).cnt + 1) % 2 ^ 64 ≢ (h.descs d).blocks_per_arena
      → free_block b d h ≡ ok freed_heap
  unfolding free_block freed_heap
  free_block-freed busy =
      rw
        (
          out,
          ne→not_== (((h.arenas (block2arena b)).cnt + 1) % 2 ^ 64) (h.descs d).blocks_per_arena
              busy,
        )
        refl

pub sys_free-desc :
    (b d : ℕ) (h : Heap)
    → b ≢ 0
    → (h.arenas (block2arena b)).desc ≡ some d
    → sys_free b h ≡ free_block b d h
unfolding sys_free
sys_free-desc b d h ne owner = rw (ne→not_== b 0 ne, owner) refl

-- How many of the blocks are in the arena `a`.
abbrev pub blocks_in : (a : ℕ) → List ℕ → ℕ
blocks_in a [] = 0
blocks_in a (b ∷ l) = let rest = blocks_in a l in if block2arena b == a then rest + 1 else rest

-- The count of the arena is that of its blocks in the free list.
abbrev pub IsCounted : Heap → (a : ℕ) → Type 0
IsCounted h a =
    (d : ℕ) → (h.arenas a).desc ≡ some d → (h.arenas a).cnt ≡ blocks_in a (h.descs d).free_list

blocks_in-append :
    (a b : ℕ) (l : List ℕ)
    → blocks_in a (l ++ b ∷ []) ≡ (if block2arena b == a then blocks_in a l + 1 else blocks_in a l)
blocks_in-append a b [] = refl
blocks_in-append a b (x ∷ l) = ground (arith, blocks_in-append a b l)

module _ (h : Heap) (d b : ℕ) (v : IsHeap h) (lt : d < 7) (block : IsBlock h d b)
    (out : has b (h.descs d).free_list ≡ false)
    (room : (h.arenas (block2arena b)).cnt + 1 < 2 ^ 64) where
  freed-IsCounted_here :
      IsCounted h (block2arena b) → IsCounted (freed_heap h d b v lt block out) (block2arena b)
  unfolding freed_heap
  freed-IsCounted_here counted e owner =
      let at = owner_at h d b v lt block out in
      let same : e ≡ d =
        some-inj (sym (rw (==_self (block2arena b), if◌then◌else◌) at owner) ∙ at) in
      let more = blocks_in-append (block2arena b) b (h.descs d).free_list in
      rw (same, ==_self (block2arena b), ==_self d, if◌then◌else◌)
        (omega (arith, room, counted d at, (rw (==_self (block2arena b), if◌then◌else◌) at more)))
    where
      some-inj : {x y : ℕ} → some x ≡ some y → x ≡ y
      some-inj e = cc

  freed-IsCounted_there :
      (a : ℕ)
      → a == block2arena b ≡ false
      → IsCounted h a
      → IsCounted (freed_heap h d b v lt block out) a
  unfolding freed_heap
  freed-IsCounted_there a other counted e owner =
      let at : (h.arenas a).desc ≡ some e = rw (other, if◌then◌else◌) at owner in
      let more = blocks_in-append a b (h.descs e).free_list in
      rw (other, if◌then◌else◌) (ground (arith, counted e at, more, other))

  freed-IsCounted : (a : ℕ) → IsCounted h a → IsCounted (freed_heap h d b v lt block out) a
  freed-IsCounted a = elim (Bool-cases (a == block2arena b)) [
    | inl here ↦
        subst (λ a. IsCounted h a → IsCounted (freed_heap h d b v lt block out) a)
          (sym (==→eq a (block2arena b) here)) freed-IsCounted_here
    | inr other ↦ freed-IsCounted_there a other
  ]

-- `sys_free` where the arena has another block in use.
abbrev pub Puts : (h : Heap) (d b : ℕ) → Heap → Type 0
Puts h d b h' =
    ((h'.descs d).free_list ≡ (h.descs d).free_list ++ b ∷ [])
    × ((h'.arenas (block2arena b)).cnt ≡ (h.arenas (block2arena b)).cnt + 1)
    × ((e : ℕ) → e ≢ d → h'.descs e ≡ h.descs e)
    × ((a : ℕ) → a ≢ block2arena b → h'.arenas a ≡ h.arenas a)
    × (h'.pool ≡ h.pool)
    × (h'.mem ≡ h.mem)
    × ((a : ℕ) → IsCounted h a → IsCounted h' a)

pub sys_free-Puts :
    (h : Heap) (d b : ℕ)
    → IsHeap h
    → d < 7
    → IsBlock h d b
    → has b (h.descs d).free_list ≡ false
    → (h.arenas (block2arena b)).cnt + 1 < (h.descs d).blocks_per_arena
    → (h' : Heap) × (sys_free b h ≡ ok h') × IsHeap h' × Puts h d b h'
unfolding sys_free freed_heap
sys_free-Puts h d b v lt block out busy =
    let few : (h.descs d).blocks_per_arena ≤ 4080 =
      omega (arith, v.fits d lt, div-le_self 4080 (h.descs d).block_size) in
    let room : (h.arenas (block2arena b)).cnt + 1 < 2 ^ 64 = omega (arith, busy, few) in
    (
      freed_heap h d b v lt block out,
      step few,
      freed-IsHeap h d b v lt block out,
      (
        ground arith,
        rw (==_self (block2arena b), if◌then◌else◌) (omega (arith, room)),
        λ e ne. rw (ne→not_== e d ne, if◌then◌else◌) refl,
        λ a ne. rw (ne→not_== a (block2arena b) ne, if◌then◌else◌) refl,
        refl,
        refl,
        freed-IsCounted h d b v lt block out room,
      ),
    )
  where
    step : (h.descs d).blocks_per_arena ≤ 4080 → sys_free b h ≡ ok (freed_heap h d b v lt block out)
    step few =
        sys_free-desc b d h (omega (arith, block.at)) (owner_at h d b v lt block out)
        ∙ free_block-freed h d b v lt block out (omega (arith, busy, few))
