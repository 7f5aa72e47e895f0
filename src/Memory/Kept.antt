-- ===== src/Memory/Kept.antt =====
-- What a round of `page_map` and its last write leave of the mappings of other addresses.
use recover_os.Prelude.{ℕ, ◌/◌, ◌≡◌, ap, ◌≢◌, ◌⊎◌, inl, inr, true, false, arith}
use recover_os.Memory.Tables.{
  pml4e_ptr, pdpte_ptr, pde_ptr, pte_ptr, page, pml4e_ptr-page, pdpte_ptr-page, pde_ptr-page,
  pte_ptr-page,
}
use recover_os.Memory.{Memory, write_cell, present}
use recover_os.Memory.Steps.{Added, IsMapped, IsPlain, SameEntries}

ne_of_present : (s : Memory) (a b : ℕ) → present s a ≡ true → present s b ≡ false → a ≢ b
ne_of_present s a b there absent = λ e. ground (arith, ap s.cells e)

module _ (v w : ℕ) (plain : IsPlain v) (plain' : IsPlain w) where
  -- Entries of different levels are different words, also in their pages.
  pub apart :
      (pdpte_ptr w ≢ pml4e_ptr v)
      × (pde_ptr w ≢ pml4e_ptr v)
      × (pte_ptr w ≢ pml4e_ptr v)
      × (pml4e_ptr w ≢ pdpte_ptr v)
      × (pde_ptr w ≢ pdpte_ptr v)
      × (pte_ptr w ≢ pdpte_ptr v)
      × (pml4e_ptr w ≢ pde_ptr v)
      × (pdpte_ptr w ≢ pde_ptr v)
      × (pte_ptr w ≢ pde_ptr v)
      × (pml4e_ptr w ≢ pte_ptr v)
      × (pdpte_ptr w ≢ pte_ptr v)
      × (pde_ptr w ≢ pte_ptr v)
  apart = omega (
    arith,
    pml4e_ptr-page v,
    pdpte_ptr-page v,
    pde_ptr-page v,
    pte_ptr-page v,
    pml4e_ptr-page w,
    pdpte_ptr-page w,
    pde_ptr-page w,
    pte_ptr-page w,
  )

  pub apart_pages :
      (pml4e_ptr w / 4096 ≢ pdpte_ptr v / 4096)
      × (pde_ptr w / 4096 ≢ pdpte_ptr v / 4096)
      × (pte_ptr w / 4096 ≢ pdpte_ptr v / 4096)
      × (pml4e_ptr w / 4096 ≢ pde_ptr v / 4096)
      × (pdpte_ptr w / 4096 ≢ pde_ptr v / 4096)
      × (pte_ptr w / 4096 ≢ pde_ptr v / 4096)
      × (pml4e_ptr w / 4096 ≢ pte_ptr v / 4096)
      × (pdpte_ptr w / 4096 ≢ pte_ptr v / 4096)
      × (pde_ptr w / 4096 ≢ pte_ptr v / 4096)
  apart_pages = omega (
    arith,
    pml4e_ptr-page v,
    pdpte_ptr-page v,
    pde_ptr-page v,
    pte_ptr-page v,
    pml4e_ptr-page w,
    pdpte_ptr-page w,
    pde_ptr-page w,
    pte_ptr-page w,
  )

  -- Addresses that share a table share the entry that names it.
  shared_pdpt : pml4e_ptr w ≢ pml4e_ptr v → pdpte_ptr w / 4096 ≢ pdpte_ptr v / 4096
  shared_pdpt ne =
      omega (arith, pml4e_ptr-page v, pdpte_ptr-page v, pml4e_ptr-page w, pdpte_ptr-page w)

  shared_pd : pdpte_ptr w ≢ pdpte_ptr v → pde_ptr w / 4096 ≢ pde_ptr v / 4096
  shared_pd ne = omega (arith, pde_ptr-page v, pdpte_ptr-page v, pde_ptr-page w, pdpte_ptr-page w)

  shared_pt : pde_ptr w ≢ pde_ptr v → pte_ptr w / 4096 ≢ pte_ptr v / 4096
  shared_pt ne = omega (arith, pde_ptr-page v, pte_ptr-page v, pde_ptr-page w, pte_ptr-page w)

  module _ {s s' : Memory} where
    -- An address that is mapped before or after a table is added does not use that table.
    outside :
        (a b c d : ℕ)
        → Added a b s s'
        → present s a ≡ false
        → (c ≡ a → d / 4096 ≡ b / 4096)
        → (present s c ≡ true) ⊎ (present s' d ≡ true)
        → c ≢ a
    outside a b c d added absent shares (inl before) = ne_of_present s c a before absent
    outside a b c d added absent shares (inr after) = λ e. ground (arith, added.fresh d (shares e))

    pub kept_pdpt :
        Added (pml4e_ptr v) (pdpte_ptr v) s s'
        → present s (pml4e_ptr v) ≡ false
        → IsMapped s w ⊎ IsMapped s' w
        → SameEntries s s' w
    kept_pdpt a absent m =
        let ne =
          outside (pml4e_ptr v) (pdpte_ptr v) (pml4e_ptr w) (pdpte_ptr w) a absent
            (λ e.
              omega (arith, pml4e_ptr-page v, pdpte_ptr-page v, pml4e_ptr-page w, pdpte_ptr-page w))
            (either m) in
        record {
          at_pml4e = a.kept (pml4e_ptr w) ne apart_pages.0;
          at_pdpte = a.kept (pdpte_ptr w) apart.0 (shared_pdpt ne);
          at_pde = a.kept (pde_ptr w) apart.1 apart_pages.1;
          at_pte = a.kept (pte_ptr w) apart.2 apart_pages.2;
        }
      where
        either :
            IsMapped s w ⊎ IsMapped s' w
            → (present s (pml4e_ptr w) ≡ true) ⊎ (present s' (pdpte_ptr w) ≡ true)
        either (inl m) = inl m.at_pml4e
        either (inr m) = inr m.at_pdpte

    pub kept_pd :
        Added (pdpte_ptr v) (pde_ptr v) s s'
        → present s (pdpte_ptr v) ≡ false
        → IsMapped s w ⊎ IsMapped s' w
        → SameEntries s s' w
    kept_pd a absent m =
        let ne =
          outside (pdpte_ptr v) (pde_ptr v) (pdpte_ptr w) (pde_ptr w) a absent
            (λ e. omega (arith, pde_ptr-page v, pdpte_ptr-page v, pde_ptr-page w, pdpte_ptr-page w))
            (either m) in
        record {
          at_pml4e = a.kept (pml4e_ptr w) apart.3 apart_pages.3;
          at_pdpte = a.kept (pdpte_ptr w) ne apart_pages.4;
          at_pde = a.kept (pde_ptr w) apart.4 (shared_pd ne);
          at_pte = a.kept (pte_ptr w) apart.5 apart_pages.5;
        }
      where
        either :
            IsMapped s w ⊎ IsMapped s' w
            → (present s (pdpte_ptr w) ≡ true) ⊎ (present s' (pde_ptr w) ≡ true)
        either (inl m) = inl m.at_pdpte
        either (inr m) = inr m.at_pde

    pub kept_pt :
        Added (pde_ptr v) (pte_ptr v) s s'
        → present s (pde_ptr v) ≡ false
        → IsMapped s w ⊎ IsMapped s' w
        → SameEntries s s' w
    kept_pt a absent m =
        let ne =
          outside (pde_ptr v) (pte_ptr v) (pde_ptr w) (pte_ptr w) a absent
            (λ e. omega (arith, pde_ptr-page v, pte_ptr-page v, pde_ptr-page w, pte_ptr-page w))
            (either m) in
        record {
          at_pml4e = a.kept (pml4e_ptr w) apart.6 apart_pages.6;
          at_pdpte = a.kept (pdpte_ptr w) apart.7 apart_pages.7;
          at_pde = a.kept (pde_ptr w) ne apart_pages.8;
          at_pte = a.kept (pte_ptr w) apart.8 (shared_pt ne);
        }
      where
        either :
            IsMapped s w ⊎ IsMapped s' w
            → (present s (pde_ptr w) ≡ true) ⊎ (present s' (pte_ptr w) ≡ true)
        either (inl m) = inl m.at_pde
        either (inr m) = inr m.at_pte

  pub kept_pte :
      (s : Memory) (value : ℕ) → page w ≢ page v → SameEntries s (write_cell s (pte_ptr v) value) w
  kept_pte s value ne = record {
    at_pml4e = ground (arith, apart.9);
    at_pdpte = ground (arith, apart.10);
    at_pde = ground (arith, apart.11);
    at_pte = ground (arith, pte_ptr-page v, pte_ptr-page w);
  }
