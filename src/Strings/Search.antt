-- ===== src/Strings/Search.antt =====
-- What `strcmp` and `strchr` say of a string, and `memset` of its bytes.
use recover_os.Prelude.{
  ℕ, zero, suc, ◌+◌, ◌<◌, ◌≡◌, refl, sym, ◌∙◌, ap, ◌≢◌, ◌⊎◌, inl, inr, List, [], ◌∷◌, arith, ok,
  ◌==◌, length, Bool-cases, ne→not_==, ==→eq, not_==→ne,
}
use recover_os.Strings.{
  Memory, store, memset_loop, memset, char_diff, strcmp_loop, strcmp, strchr_loop, strchr,
}
use recover_os.Strings.Copy.{Str, Outside, Outside-suc, store_same, store_other}

memset_loop-Outside :
    (n dst v : ℕ) (m : Memory) (q : ℕ) → Outside dst n q → memset_loop n dst v m q ≡ m q
unfolding memset_loop
memset_loop-Outside zero dst v m q out = refl
memset_loop-Outside (suc n) dst v m q out =
    let (ne, later) = Outside-suc dst n q out in
    memset_loop-Outside n (dst + 1) v (store m dst v) q later ∙ store_other m dst v q ne

memset_loop-inside :
    (n dst v : ℕ) (m : Memory) (i : ℕ) → i < n → memset_loop n dst v m (dst + i) ≡ v
unfolding memset_loop
memset_loop-inside zero dst v m i lt = absurd (omega arith)
memset_loop-inside (suc n) dst v m zero lt =
    ap (memset_loop n (dst + 1) v (store m dst v)) {x = dst + 0} {y = dst} (omega arith)
    ∙ memset_loop-Outside n (dst + 1) v (store m dst v) dst (inl (omega arith))
    ∙ store_same m dst v
memset_loop-inside (suc n) dst v m (suc i) lt =
    ap (memset_loop n (dst + 1) v (store m dst v)) {x = dst + suc i} {y = dst + 1 + i} (omega arith)
    ∙ memset_loop-inside n (dst + 1) v (store m dst v) i (omega arith)

-- `memset` at a pointer that is not NULL sets the bytes and changes nothing else.
pub memset_lem :
    (dst v size : ℕ) (m : Memory)
    → dst ≢ 0
    → (m' : Memory) × (memset dst v size m ≡ ok m')
      × ((i : ℕ) → i < size → m' (dst + i) ≡ v)
      × ((q : ℕ) → Outside dst size q → m' q ≡ m q)
unfolding memset
memset_lem dst v size m dn = (
  memset_loop size dst v m,
  rw (ne→not_== dst 0 dn) refl,
  memset_loop-inside size dst v m,
  memset_loop-Outside size dst v m,
)

char_diff-zero : (c d : ℕ) → c < 256 → d < 256 → char_diff c d ≡ 0 → c ≡ d
char_diff-zero c d lc ld e = ground arith

char_diff-same : (c : ℕ) → c < 256 → char_diff c c ≡ 0
char_diff-same c lc = ground arith

-- What a comparison says: 0 for the same string, another number for different ones.
abbrev pub Compared : List ℕ → List ℕ → ℕ → Type 0
Compared xs ys r = ((r ≡ 0) × (xs ≡ ys)) ⊎ ((r ≢ 0) × (xs ≢ ys))

module _ (m : Memory) (bytes : (q : ℕ) → m q < 256) where
  differ :
      (f a b : ℕ) (xs ys : List ℕ)
      → m a ≢ m b
      → xs ≢ ys
      → (r : ℕ) × (strcmp_loop (suc f) a b m ≡ ok r) × Compared xs ys r
  unfolding strcmp_loop
  differ f a b xs ys ne other = (
    char_diff (m a) (m b),
    ground (arith, ne→not_== (m a) (m b) ne),
    inr (λ e. ne (char_diff-zero (m a) (m b) (bytes a) (bytes b) e), other),
  )

  strcmp_loop-Compared :
      (f a b : ℕ) (xs ys : List ℕ)
      → length xs < f
      → Str m a xs
      → Str m b ys
      → (r : ℕ) × (strcmp_loop f a b m ≡ ok r) × Compared xs ys r
  unfolding strcmp_loop
  strcmp_loop-Compared zero a b xs ys lt left right = absurd (omega arith)
  strcmp_loop-Compared (suc f) a b [] [] lt left right =
      (char_diff (m a) (m b), rw left refl, inl (rw (left, right) refl, refl))
  strcmp_loop-Compared (suc f) a b [] (y ∷ ys) lt left (here, some_char, later) =
      differ f a b [] (y ∷ ys) (λ e. some_char (sym here ∙ sym e ∙ left)) (λ e. cc)
  strcmp_loop-Compared (suc f) a b (x ∷ xs) [] lt (here, some_char, later) right =
      differ f a b (x ∷ xs) [] (λ e. some_char (sym here ∙ e ∙ right)) (λ e. cc)
  strcmp_loop-Compared (suc f) a b (x ∷ xs) (y ∷ ys) lt (here, some_char, later)
        (here', some_char', later') =
      elim (Bool-cases (m a == m b)) [
        | inr ne ↦
            differ f a b (x ∷ xs) (y ∷ ys) (not_==→ne (m a) (m b) ne)
              (λ e. not_==→ne (m a) (m b) ne (heads e))
        | inl same ↦
            let (r, run, compared) =
              strcmp_loop-Compared f (a + 1) (b + 1) xs ys (omega arith) later later' in
            (
              r,
              rw (ne→not_== (m a) 0 (λ e. some_char (sym here ∙ e)), same) run,
              longer (==→eq (m a) (m b) same) r compared,
            )
      ]
    where
      heads : x ∷ xs ≡ y ∷ ys → m a ≡ m b
      heads e = cc

      longer : m a ≡ m b → (r : ℕ) → Compared xs ys r → Compared (x ∷ xs) (y ∷ ys) r
      longer same r (inl (none_left, e)) = inl (none_left, cc)
      longer same r (inr (some_left, ne)) = inr (some_left, λ e. ne cc)

  -- In a memory of bytes, `strcmp` of strings that are not NULL, with fuel for the first, returns 0 if
  -- they are the same and another number if they are not.
  pub strcmp-Compared :
      (fuel a b : ℕ) (xs ys : List ℕ)
      → a ≢ 0
      → b ≢ 0
      → length xs < fuel
      → Str m a xs
      → Str m b ys
      → (r : ℕ) × (strcmp fuel a b m ≡ ok r) × Compared xs ys r
  unfolding strcmp
  strcmp-Compared fuel a b xs ys an bn lt left right =
      let (r, run, compared) = strcmp_loop-Compared fuel a b xs ys lt left right in
      (r, rw (ne→not_== a 0 an, ne→not_== b 0 bn) run, compared)

-- `r` is the address of the first `ch` of the `n` characters at `p`, or 0 where there is none.
abbrev pub IsFirst : Memory → (p n ch r : ℕ) → Type 0
IsFirst m p n ch r =
    ((r ≡ 0) × ((j : ℕ) → j < n → m (p + j) ≢ ch))
    ⊎ ((i : ℕ) × (i < n) × (r ≡ p + i) × (m (p + i) ≡ ch) × ((j : ℕ) → j < i → m (p + j) ≢ ch))

strchr_loop-IsFirst :
    (f p ch : ℕ) (xs : List ℕ) (m : Memory)
    → length xs < f
    → Str m p xs
    → (r : ℕ) × (strchr_loop f p ch m ≡ ok r) × IsFirst m p (length xs) ch r
unfolding strchr_loop
strchr_loop-IsFirst zero p ch xs m lt str = absurd (omega arith)
strchr_loop-IsFirst (suc f) p ch [] m lt str =
    (0, rw str refl, inl (refl, λ j lt. absurd (omega arith)))
strchr_loop-IsFirst (suc f) p ch (x ∷ xs) m lt (here, some_char, later) =
    let going = ne→not_== (m p) 0 (λ e. some_char (sym here ∙ e)) in
    elim (Bool-cases (m p == ch)) [
      | inl found ↦ (
        p,
        rw (going, found) refl,
        inr (
          0,
          omega arith,
          omega arith,
          ap m {x = p + 0} {y = p} (omega arith) ∙ ==→eq (m p) ch found,
          λ j lt. absurd (omega arith),
        ),
      )
      | inr other ↦
          let (r, run, first) = strchr_loop-IsFirst f (p + 1) ch xs m (omega arith) later in
          (r, rw (going, other) run, further (not_==→ne (m p) ch other) r first)
    ]
  where
    not_before :
        m p ≢ ch
        → (n : ℕ) → ((j : ℕ) → j < n → m (p + 1 + j) ≢ ch)
        → (j : ℕ) → j < suc n
        → m (p + j) ≢ ch
    not_before ne n none_later zero lt = λ e. ne (ap m {x = p} {y = p + 0} (omega arith) ∙ e)
    not_before ne n none_later (suc j) lt =
        λ e. none_later j (omega arith) (ap m {x = p + 1 + j} {y = p + suc j} (omega arith) ∙ e)

    further :
        m p ≢ ch → (r : ℕ) → IsFirst m (p + 1) (length xs) ch r → IsFirst m p (suc (length xs)) ch r
    further ne r (inl (null, none_later)) = inl (null, not_before ne (length xs) none_later)
    further ne r (inr (i, lt, at, is, none_later)) = inr (
      suc i,
      omega arith,
      omega arith,
      ap m {x = p + suc i} {y = p + 1 + i} (omega arith) ∙ is,
      not_before ne i none_later,
    )

-- `strchr` in a string that is not NULL, with fuel for it, returns the address of the first such
-- character, or NULL where there is none.
pub strchr-IsFirst :
    (fuel p ch : ℕ) (xs : List ℕ) (m : Memory)
    → p ≢ 0
    → length xs < fuel
    → Str m p xs
    → (r : ℕ) × (strchr fuel p ch m ≡ ok r) × IsFirst m p (length xs) ch r
unfolding strchr
strchr-IsFirst fuel p ch xs m pn lt str =
    let (r, run, first) = strchr_loop-IsFirst fuel p ch xs m lt str in
    (r, rw (ne→not_== p 0 pn) run, first)
