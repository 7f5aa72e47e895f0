-- ===== src/FileSystem/Loading.antt =====
-- The inodes in memory, of which no two have the same number, with one opened again or loaded.
use recover_os.Prelude.{
  subst, ℕ, ◌+◌, ◌%◌, ◌^◌, ◌<◌, ◌≡◌, refl, sym, ◌∙◌, ap, ◌≢◌, ◌⊎◌, inl, inr, true, false, arith,
  Option, none, some, List, [], ◌∷◌, ◌==◌, if◌then◌else◌, Bool-cases, ==→eq, not_==→ne, ne→not_==,
}
use recover_os.LinkedList.Chain.{has, Distinct}
use recover_os.FileSystem.Inode.{Inode}
use recover_os.FileSystem.Open.{OpenInodes, set_inode, find_inode}

-- The inodes in memory are open, and no two have the same address or number.
pub record IsOpen (s : OpenInodes) : Type 0 where
  pub counted : (a : ℕ) → has a s.open_inodes ≡ true → 0 < (s.inode_at a).i_open_cnts
  pub distinct : Distinct s.open_inodes
  pub one_each :
      (a b : ℕ)
      → has a s.open_inodes ≡ true
      → has b s.open_inodes ≡ true
      → (s.inode_at a).i_no ≡ (s.inode_at b).i_no
      → a ≡ b

-- What `find_inode` comes to.
abbrev pub Found : (num : ℕ) → (ℕ → Inode) → List ℕ → Option ℕ → Type 0
Found num at l none = (a : ℕ) → has a l ≡ true → (at a).i_no ≢ num
Found num at l (some a) = (has a l ≡ true) × ((at a).i_no ≡ num)

pub find_inode-Found :
    (num : ℕ) (at : ℕ → Inode) (l : List ℕ) → Found num at l (find_inode num at l)
unfolding find_inode
find_inode-Found num at [] = λ a h. cc
find_inode-Found num at (a ∷ l) = elim (Bool-cases ((at a).i_no == num)) [
  | inl this ↦ rw this (ground (arith, this), ==→eq (at a).i_no num this)
  | inr other ↦ rw other (keep other (find_inode num at l) (find_inode-Found num at l))
]
  where
    keep : (at a).i_no == num ≡ false → (r : Option ℕ) → Found num at l r → Found num at (a ∷ l) r
    keep other none f = λ b h. elim (Bool-cases (a == b)) [
      | inl same ↦ subst (λ b. (at b).i_no ≢ num) (==→eq a b same) (not_==→ne (at a).i_no num other)
      | inr before ↦ f b (ground (arith, h, before))
    ]
    keep other (some b) (h, e) = (ground (arith, h), e)

-- An inode that is open is opened once more.
module _ (s : OpenInodes) (v : IsOpen s) (a : ℕ) (listed : has a s.open_inodes ≡ true)
    (room : (s.inode_at a).i_open_cnts + 1 < 2 ^ 64) where
  abbrev pub again : OpenInodes
  again =
      set_inode a
        (record (s.inode_at a) { i_open_cnts = ((s.inode_at a).i_open_cnts + 1) % 2 ^ 64 }) s

  pub again_no : (b : ℕ) → (again.inode_at b).i_no ≡ (s.inode_at b).i_no
  again_no b = elim (Bool-cases (b == a)) [
    | inl same ↦ rw (same, if◌then◌else◌) (ap (λ b. (s.inode_at b).i_no) (sym (==→eq b a same)))
    | inr other ↦ rw (other, if◌then◌else◌) refl
  ]

  pub again-IsOpen : IsOpen again
  again-IsOpen = record {
    counted = λ b h. elim (Bool-cases (b == a)) [
      | inl same ↦ rw (same, if◌then◌else◌) (omega (arith, room))
      | inr other ↦ rw (other, if◌then◌else◌) (v.counted b h)
    ];
    distinct = v.distinct;
    one_each = λ b c hb hc e. v.one_each b c hb hc (sym (again_no b) ∙ e ∙ again_no c);
  }

-- An inode is read from the disk to the address `a`.
module _ (s : OpenInodes) (v : IsOpen s) (a : ℕ) (out : has a s.open_inodes ≡ false) (inode : Inode)
    (absent : (b : ℕ) → has b s.open_inodes ≡ true → (s.inode_at b).i_no ≢ inode.i_no) where
  abbrev pub loaded : OpenInodes
  loaded = record (set_inode a (record inode { i_open_cnts = 1 }) s) {
    open_inodes = a ∷ s.open_inodes;
  }

  pub not_new : (b : ℕ) → has b s.open_inodes ≡ true → b == a ≡ false
  not_new b h = ne→not_== b a (λ e. ground (arith, ap (λ b. has b s.open_inodes) e, h, out))

  abbrev pub New : ℕ → Type 0
  New b =
      ((b ≡ a) × ((loaded.inode_at b).i_no ≡ inode.i_no))
      ⊎ ((has b s.open_inodes ≡ true) × ((loaded.inode_at b).i_no ≡ (s.inode_at b).i_no))

  pub loaded_no : (b : ℕ) → has b loaded.open_inodes ≡ true → New b
  loaded_no b h = elim (Bool-cases (b == a)) [
    | inl same ↦ inl (==→eq b a same, rw (same, if◌then◌else◌) refl)
    | inr other ↦ inr (ground (arith, h, other), rw (other, if◌then◌else◌) refl)
  ]

  pub loaded-IsOpen : IsOpen loaded
  loaded-IsOpen = record {
    counted = λ b h. elim (Bool-cases (b == a)) [
      | inl same ↦ rw (same, if◌then◌else◌) (omega arith)
      | inr other ↦ rw (other, if◌then◌else◌) (v.counted b (ground (arith, h, other)))
    ];
    distinct = (out, v.distinct);
    one_each = λ b c hb hc e. one (loaded_no b hb) (loaded_no c hc) e;
  }
    where
      one : {b c : ℕ} → New b → New c → (loaded.inode_at b).i_no ≡ (loaded.inode_at c).i_no → b ≡ c
      one (inl (eb, nb)) (inl (ec, nc)) e = eb ∙ sym ec
      one {b} {c} (inl (eb, nb)) (inr (hc, nc)) e = absurd (absent c hc (sym nc ∙ sym e ∙ nb))
      one {b} {c} (inr (hb, nb)) (inl (ec, nc)) e = absurd (absent b hb (sym nb ∙ e ∙ nc))
      one {b} {c} (inr (hb, nb)) (inr (hc, nc)) e = v.one_each b c hb hc (sym nb ∙ e ∙ nc)
