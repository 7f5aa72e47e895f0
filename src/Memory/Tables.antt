-- ===== src/Memory/Tables.antt =====
-- kernel/memory.c, the addresses of page table entries: `pml4e_ptr`, `pdpte_ptr`, `pde_ptr` and
-- `pte_ptr`. The last slot of the top table refers to that table itself.
use recover_os.Prelude.{ℕ, zero, suc, ◌+◌, ◌*◌, ◌/◌, ◌%◌, ◌^◌, ◌<◌, ◌≡◌, arith}

abbrev pub pg_size : ℕ
pg_size = 4096

-- `(addr & 0xff8000000000) >> 39` and so on.
unfoldable pub pml4e_idx : ℕ → ℕ
pml4e_idx addr = addr / 2 ^ 39 % 512

unfoldable pub pdpte_idx : ℕ → ℕ
pdpte_idx addr = addr / 2 ^ 30 % 512

unfoldable pub pde_idx : ℕ → ℕ
pde_idx addr = addr / 2 ^ 21 % 512

unfoldable pub pte_idx : ℕ → ℕ
pte_idx addr = addr / 2 ^ 12 % 512

unfoldable pub pml4e_ptr : ℕ → ℕ
unfolding pml4e_idx
pml4e_ptr vaddr = 0xfffffffffffff000 + pml4e_idx vaddr * 8

unfoldable pub pdpte_ptr : ℕ → ℕ
unfolding pml4e_idx pdpte_idx
pdpte_ptr vaddr = 0xffffffffffe00000 + pml4e_idx vaddr * 2 ^ 12 + pdpte_idx vaddr * 8

unfoldable pub pde_ptr : ℕ → ℕ
unfolding pml4e_idx pdpte_idx pde_idx
pde_ptr vaddr =
    0xffffffffc0000000 + pml4e_idx vaddr * 2 ^ 21 + pdpte_idx vaddr * 2 ^ 12 + pde_idx vaddr * 8

unfoldable pub pte_ptr : ℕ → ℕ
unfolding pml4e_idx pdpte_idx pde_idx pte_idx
pte_ptr vaddr =
    0xffffff8000000000
    + pml4e_idx vaddr * 2 ^ 30
    + pdpte_idx vaddr * 2 ^ 21
    + pde_idx vaddr * 2 ^ 12
    + pte_idx vaddr * 8

-- `fu[i]`
unfoldable pub fu : ℕ → ℕ → ℕ
fu zero = pml4e_ptr
fu (suc zero) = pdpte_ptr
fu (suc (suc zero)) = pde_ptr
fu (suc (suc (suc _))) = pte_ptr

-- The 36 bits of an address that name its page.
abbrev pub page : ℕ → ℕ
page vaddr = vaddr / 4096 % 2 ^ 36

pub pml4e_ptr-page : (v : ℕ) → pml4e_ptr v ≡ 0xfffffffffffff000 + page v / 2 ^ 27 * 8
unfolding pml4e_ptr
pml4e_ptr-page v = omega arith

pub pdpte_ptr-page : (v : ℕ) → pdpte_ptr v ≡ 0xffffffffffe00000 + page v / 2 ^ 18 * 8
unfolding pdpte_ptr
pdpte_ptr-page v = omega arith

pub pde_ptr-page : (v : ℕ) → pde_ptr v ≡ 0xffffffffc0000000 + page v / 2 ^ 9 * 8
unfolding pde_ptr
pde_ptr-page v = omega arith

pub pte_ptr-page : (v : ℕ) → pte_ptr v ≡ 0xffffff8000000000 + page v * 8
unfolding pte_ptr
pte_ptr-page v = omega arith

-- The tables are mapped by themselves: the entry of each level is the page table entry of the
-- entry below it. All of them are 64-bit addresses.
pub recursive_tables :
    (v : ℕ)
    → (pde_ptr v ≡ pte_ptr (pte_ptr v))
      × (pdpte_ptr v ≡ pte_ptr (pde_ptr v))
      × (pml4e_ptr v ≡ pte_ptr (pdpte_ptr v))
      × (pte_ptr v < 2 ^ 64)
      × (pde_ptr v < 2 ^ 64)
      × (pdpte_ptr v < 2 ^ 64)
      × (pml4e_ptr v < 2 ^ 64)
recursive_tables v = (
  omega (arith, pte_ptr-page v, pde_ptr-page v, pte_ptr-page (pte_ptr v)),
  omega (arith, pde_ptr-page v, pdpte_ptr-page v, pte_ptr-page (pde_ptr v)),
  omega (arith, pdpte_ptr-page v, pml4e_ptr-page v, pte_ptr-page (pdpte_ptr v)),
  omega (arith, pte_ptr-page v),
  omega (arith, pde_ptr-page v),
  omega (arith, pdpte_ptr-page v),
  omega (arith, pml4e_ptr-page v),
)
