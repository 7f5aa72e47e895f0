-- ===== src/Memory/Steps.antt =====
-- A round of `page_map`: the table that it adds, and the mappings that it leaves as they were.
use recover_os.Prelude.{
  ℕ, ◌+◌, ◌*◌, ◌/◌, ◌%◌, ◌^◌, ◌≤◌, ◌<◌, ◌≡◌, refl, sym, ◌∙◌, ap, ◌≢◌, true, false, arith, ok, ◌==◌,
  ne→not_==,
}
use recover_os.Bitmap.Laws.{IsValid}
use recover_os.Bitmap.Count.{free_bits, alloc-free_bits}
use recover_os.Memory.Tables.{pml4e_ptr, pdpte_ptr, pde_ptr, pte_ptr, fu, page}
use recover_os.Memory.{Memory, write_cell, clear_page, present, palloc, add_table}

-- The pool of physical pages begins behind page 0, on a page's border.
pub record IsPool (s : Memory) : Type 0 where
  pub bits : IsValid s.phy_bitmap
  pub aligned : s.phy_start % 4096 ≡ 0
  pub not_null : 0 < s.phy_start

-- What an operation that takes `n` physical pages at most does to the pool.
pub record Took (n : ℕ) (s s' : Memory) : Type 0 where
  pub pool : IsPool s'
  pub enough : free_bits s.phy_bitmap ≤ free_bits s'.phy_bitmap + n

pub palloc-Took :
    (s : Memory)
    → IsPool s
    → 0 < free_bits s.phy_bitmap
    → (p : ℕ) × (s' : Memory) × (palloc s ≡ ok (p, s'))
      × (p ≢ 0)
      × (p % 4096 ≡ 0)
      × Took 1 s s'
      × (s'.cells ≡ s.cells)
unfolding palloc
palloc-Took s v left =
    let (i, m, run, lt, clear, t, count) = alloc-free_bits s.phy_bitmap v.bits left in
    (
      s.phy_start + 4096 * i,
      record s { phy_bitmap = m },
      rw run refl,
      omega (arith, v.not_null),
      omega (arith, v.aligned),
      record {
        pool = record { bits = t.valid; aligned = v.aligned; not_null = v.not_null };
        enough = omega arith;
      },
      refl,
    )

-- All four entries of the address are present.
pub record IsMapped (s : Memory) (v : ℕ) : Type 0 where
  pub at_pml4e : present s (pml4e_ptr v) ≡ true
  pub at_pdpte : present s (pdpte_ptr v) ≡ true
  pub at_pde : present s (pde_ptr v) ≡ true
  pub at_pte : present s (pte_ptr v) ≡ true

-- The address is not one of the tables' own.
abbrev pub IsPlain : ℕ → Type 0
IsPlain v = page v < 511 * 2 ^ 27

-- The four entries of the address are the same in both.
pub record SameEntries (s s' : Memory) (w : ℕ) : Type 0 where
  pub at_pml4e : s'.cells (pml4e_ptr w) ≡ s.cells (pml4e_ptr w)
  pub at_pdpte : s'.cells (pdpte_ptr w) ≡ s.cells (pdpte_ptr w)
  pub at_pde : s'.cells (pde_ptr w) ≡ s.cells (pde_ptr w)
  pub at_pte : s'.cells (pte_ptr w) ≡ s.cells (pte_ptr w)

pub SameEntries-IsMapped :
    {s s' : Memory} (w : ℕ) → SameEntries s s' w → IsMapped s w → IsMapped s' w
SameEntries-IsMapped w same m = record {
  at_pml4e = ap (λ c. c % 2 == 1) same.at_pml4e ∙ m.at_pml4e;
  at_pdpte = ap (λ c. c % 2 == 1) same.at_pdpte ∙ m.at_pdpte;
  at_pde = ap (λ c. c % 2 == 1) same.at_pde ∙ m.at_pde;
  at_pte = ap (λ c. c % 2 == 1) same.at_pte ∙ m.at_pte;
}

pub SameEntries-back : {s s' : Memory} (w : ℕ) → SameEntries s s' w → IsMapped s' w → IsMapped s w
SameEntries-back {s} {s'} w same m = SameEntries-IsMapped {s = s'} {s' = s} w back m
  where
    back : SameEntries s' s w
    back = record {
      at_pml4e = sym same.at_pml4e;
      at_pdpte = sym same.at_pdpte;
      at_pde = sym same.at_pde;
      at_pte = sym same.at_pte;
    }

pub SameEntries-trans :
    {s t u : Memory} (w : ℕ) → SameEntries s t w → SameEntries t u w → SameEntries s u w
SameEntries-trans w a b = record {
  at_pml4e = b.at_pml4e ∙ a.at_pml4e;
  at_pdpte = b.at_pdpte ∙ a.at_pdpte;
  at_pde = b.at_pde ∙ a.at_pde;
  at_pte = b.at_pte ∙ a.at_pte;
}

-- A table was added: the entry `a` is present, the page of `b` is cleared, and all else is kept.
pub record Added (a b : ℕ) (s s' : Memory) : Type 0 where
  pub took : Took 1 s s'
  pub entry : present s' a ≡ true
  pub fresh : (c : ℕ) → c / 4096 ≡ b / 4096 → present s' c ≡ false
  pub kept : (c : ℕ) → c ≢ a → c / 4096 ≢ b / 4096 → s'.cells c ≡ s.cells c

pub add_table-Added :
    (stat v : ℕ) (s : Memory)
    → IsPool s
    → 0 < free_bits s.phy_bitmap
    → fu stat v / 4096 ≢ fu (stat + 1) v / 4096
    → (s' : Memory) × (add_table stat v s ≡ ok s') × Added (fu stat v) (fu (stat + 1) v) s s'
unfolding add_table
add_table-Added stat v s pool left apart =
    let (p, s1, run, pn, al, took, same) = palloc-Took s pool left in
    let s' = clear_page (write_cell s1 (fu stat v) (p + 7)) (fu (stat + 1) v) in
    (
      s',
      rw (run, ne→not_== p 0 pn) refl,
      record {
        took = record {
          pool = record {
            bits = took.pool.bits;
            aligned = took.pool.aligned;
            not_null = took.pool.not_null;
          };
          enough = took.enough;
        };
        entry = ground arith;
        fresh = λ c same_page. ground arith;
        kept = λ c ne off. ground (arith, ap (λ (f : ℕ → ℕ). f c) same);
      },
    )
