-- ===== src/FileSystem/PathName.antt =====
-- fs/fs.c, `path_parse`: the name that it stores, and where the path goes on.
use recover_os.Prelude.{
  ℕ, zero, suc, ◌+◌, ◌-◌, ◌≤◌, ◌<◌, ◌≡◌, refl, sym, ◌∙◌, ap, subst, ◌≢◌, ◌⊎◌, inl, inr, true, false,
  arith, List, [], ◌∷◌, none, some, ok, ◌>>=◌, length, ltb, ◌==◌, if◌then◌else◌, Bool-cases,
  ne→not_==, ==_self,
}
use recover_os.Strings.{Memory, store}
use recover_os.Strings.Copy.{Str}
use recover_os.FileSystem.Path.{slash, skip_slashes, copy_name, path_parse}

-- There are `n` slashes from `p` on, and no more.
abbrev pub Slashes : Memory → (p n : ℕ) → Type 0
Slashes m p zero = m p ≢ slash
Slashes m p (suc n) = (m p ≡ slash) × Slashes m (p + 1) n

-- From `p` on stand the characters of a name, and then a slash or a zero.
abbrev pub Name : Memory → (p : ℕ) → List ℕ → Type 0
Name m p [] = (m p ≡ slash) ⊎ (m p ≡ 0)
Name m p (x ∷ l) = (m p ≡ x) × (x ≢ slash) × (x ≢ 0) × Name m (p + 1) l

-- The `n` bytes from `p` on and the one behind them are apart from those from `d` on.
abbrev pub Apart : (p d n : ℕ) → Type 0
Apart p d n = (i j : ℕ) → i ≤ n → j ≤ n → p + i ≢ d + j

skip_slashes-ok : (n f p : ℕ) (m : Memory) → n < f → Slashes m p n → skip_slashes f p m ≡ ok (p + n)
unfolding skip_slashes
skip_slashes-ok zero zero p m lt s = absurd (omega (arith, lt))
skip_slashes-ok (suc n) zero p m lt s = absurd (omega (arith, lt))
skip_slashes-ok zero (suc f) p m lt s =
    rw (skip_slashes, ne→not_== (m p) slash s) (ap ok {x = p} {y = p + 0} (omega arith))
skip_slashes-ok (suc n) (suc f) p m lt (here, s) =
    rw (skip_slashes, here)
      (skip_slashes-ok n f (p + 1) m (omega (arith, lt)) s
        ∙ ap ok {x = p + 1 + n} {y = p + suc n} (omega arith))

store-other : (m : Memory) (d v q : ℕ) → q ≢ d → store m d v q ≡ m q
store-other m d v q ne = rw (ne→not_== q d ne) refl

Name-store :
    (m : Memory) (d v p : ℕ) (l : List ℕ)
    → ((i : ℕ) → i ≤ length l → p + i ≢ d)
    → Name m p l
    → Name (store m d v) p l
Name-store m d v p [] out (inl e) =
    inl (store-other m d v p (λ e. out 0 (omega arith) (omega (arith, e))) ∙ e)
Name-store m d v p [] out (inr e) =
    inr (store-other m d v p (λ e. out 0 (omega arith) (omega (arith, e))) ∙ e)
Name-store m d v p (x ∷ l) out (here, ns, nz, rest) = (
  store-other m d v p (λ e. out 0 (omega arith) (omega (arith, e))) ∙ here,
  ns,
  nz,
  Name-store m d v (p + 1) l (λ i le e. out (suc i) (omega (arith, le)) (omega (arith, e))) rest,
)

-- The bytes from `d` on are those of a list.
abbrev pub Held : Memory → (d : ℕ) → List ℕ → Type 0
Held m d [] = Unit
Held m d (x ∷ l) = (m d ≡ x) × (x ≢ 0) × Held m (d + 1) l

-- What the loop comes to
pub record Copied (m m' : Memory) (d : ℕ) (l : List ℕ) : Type 0 where
  pub held : Held m' d l
  pub outside : (q : ℕ) → (q < d) ⊎ (d + length l ≤ q) → m' q ≡ m q

copy_name-end :
    (f p d : ℕ) (m : Memory) → (m p ≡ slash) ⊎ (m p ≡ 0) → copy_name (suc f) p d m ≡ ok (p, d, m)
unfolding copy_name
copy_name-end f p d m (inl e) = rw (copy_name, e) refl
copy_name-end f p d m (inr e) = rw (copy_name, e) refl

copy_name-next :
    (f p d x : ℕ) (m : Memory)
    → m p ≡ x
    → x ≢ slash
    → x ≢ 0
    → copy_name (suc f) p d m ≡ copy_name f (p + 1) (d + 1) (store m d x)
unfolding copy_name
copy_name-next f p d x m e ns nz =
    rw
      (
        copy_name,
        ne→not_== (m p) slash (λ z. ns (sym e ∙ z)),
        ne→not_== (m p) 0 (λ z. nz (sym e ∙ z)),
      )
      (ap (λ v. copy_name f (p + 1) (d + 1) (store m d v)) e)

copy_name-Copied :
    (l : List ℕ) (f p d : ℕ) (m : Memory)
    → length l < f
    → Name m p l
    → Apart p d (length l)
    → (m' : Memory) × (copy_name f p d m ≡ ok (p + length l, d + length l, m')) × Copied m m' d l
copy_name-Copied [] zero p d m lt name apart = absurd (omega (arith, lt))
copy_name-Copied (x ∷ l) zero p d m lt name apart = absurd (omega (arith, lt))
copy_name-Copied [] (suc f) p d m lt name apart =
    let at : p + 0 ≡ p = omega arith in
    let to : d + 0 ≡ d = omega arith in
    (m, rw (at, to) (copy_name-end f p d m name), record { held = tt; outside = λ q out. refl })
copy_name-Copied (x ∷ l) (suc f) p d m lt (here, ns, nz, rest) apart =
    let (m', run, c) =
      copy_name-Copied l f (p + 1) (d + 1) (store m d x) (omega (arith, lt))
        (Name-store m d x (p + 1) l
          (λ i le e. apart (suc i) 0 (omega (arith, le)) (omega arith) (omega (arith, e))) rest)
        (λ i j le le' e.
          apart (suc i) (suc j) (omega (arith, le)) (omega (arith, le')) (omega (arith, e))) in
    let at : p + suc (length l) ≡ p + 1 + length l = omega arith in
    let to : d + suc (length l) ≡ d + 1 + length l = omega arith in
    (
      m',
      rw (at, to) (copy_name-next f p d x m here ns nz ∙ run),
      record {
        held = (c.outside d (inl (omega arith)) ∙ rw (==_self d) refl, nz, c.held);
        outside = λ q out. c.outside q (later q out) ∙ store-other m d x q (ne q out);
      },
    )
  where
    later : (q : ℕ) → (q < d) ⊎ (d + suc (length l) ≤ q) → (q < d + 1) ⊎ (d + 1 + length l ≤ q)
    later q (inl lt) = inl (omega (arith, lt))
    later q (inr le) = inr (omega (arith, le))

    ne : (q : ℕ) → (q < d) ⊎ (d + suc (length l) ≤ q) → q ≢ d
    ne q (inl lt) e = omega (arith, lt, e)
    ne q (inr le) e = omega (arith, le, e)

-- The zero behind the name makes it a string.
Held-Str : (m : Memory) (d : ℕ) (l : List ℕ) → Held m d l → Str (store m (d + length l) 0) d l
Held-Str m d [] h = let same : d + 0 ≡ d = omega arith in rw (same, ==_self d) refl
Held-Str m d (x ∷ l) (e, nz, h) =
    let same : d + suc (length l) ≡ d + 1 + length l = omega arith in
    subst (λ z. Str (store m z 0) d (x ∷ l)) (sym same)
      (store-other m (d + 1 + length l) 0 d (omega arith) ∙ e, nz, Held-Str m (d + 1) l h)

-- The first step: the slashes are skipped.
start-ok :
    (n f p : ℕ) (m : Memory)
    → n < f
    → Slashes m p n
    → (if m p == slash then skip_slashes f (p + 1) m else ok p) ≡ ok (p + n)
start-ok zero f p m lt s =
    rw (ne→not_== (m p) slash s, if◌then◌else◌) (ap ok {x = p} {y = p + 0} (omega arith))
start-ok (suc n) f p m lt (e, s) =
    rw (e, if◌then◌else◌)
      (skip_slashes-ok n f (p + 1) m (omega (arith, lt)) s
        ∙ ap ok {x = p + 1 + n} {y = p + suc n} (omega arith))

path_parse-step :
    (f p d a e : ℕ) (m m' : Memory) (v : ℕ)
    → (if m p == slash then skip_slashes f (p + 1) m else ok p) ≡ ok a
    → copy_name f a d m ≡ ok (e, d + v, m')
    → path_parse f p d m
      ≡ ok (if store m' (d + v) 0 e == 0 then none else some e, store m' (d + v) 0)
unfolding path_parse
path_parse-step f p d a e m m' v start copied = rw (path_parse, start, ◌>>=◌, copied, ◌>>=◌) refl

-- `path_parse` of a path of `n` slashes, a name and a slash or a zero, whose characters from the name on are
-- apart from the memory for it, with more fuel than there are slashes and than the name has characters: the
-- name is stored as a string, and no other byte changes; the result is where the path goes on behind it,
-- or NULL at its end.
pub path_parse-Str :
    (n : ℕ) (l : List ℕ) (f p d : ℕ) (m : Memory)
    → n < f
    → length l < f
    → Slashes m p n
    → Name m (p + n) l
    → Apart (p + n) d (length l)
    → (m' : Memory) × (path_parse f p d m
        ≡ ok (if m (p + n + length l) == 0 then none else some (p + n + length l), m'))
      × Str m' d l
      × ((q : ℕ) → (q < d) ⊎ (d + length l < q) → m' q ≡ m q)
path_parse-Str n l f p d m lt lt' slashes name apart =
    let (m1, run, c) = copy_name-Copied l f (p + n) d m lt' name apart in
    let end = p + n + length l in
    let same : store m1 (d + length l) 0 end ≡ m end =
      store-other m1 (d + length l) 0 end (apart (length l) (length l) (omega arith) (omega arith))
      ∙ c.outside end (beside (Bool-cases (ltb end d)) (Bool-cases (ltb end (d + length l)))) in
    (
      store m1 (d + length l) 0,
      path_parse-step f p d (p + n) end m m1 (length l) (start-ok n f p m lt slashes) run
          ∙ ap (λ v. ok (if v == 0 then none else some end, store m1 (d + length l) 0)) same,
      Held-Str m1 d l c.held,
      λ q out. store-other m1 (d + length l) 0 q (ne q out) ∙ c.outside q (out_of q out),
    )
  where
    -- The end of the name is not among the bytes that are stored.
    beside :
        ((ltb (p + n + length l) d ≡ true) ⊎ (ltb (p + n + length l) d ≡ false))
        → ((ltb (p + n + length l) (d + length l) ≡ true)
            ⊎ (ltb (p + n + length l) (d + length l) ≡ false))
        → (p + n + length l < d) ⊎ (d + length l ≤ p + n + length l)
    beside (inl below) high = inl (ground (arith, below))
    beside (inr low) (inr above) = inr (ground (arith, above))
    beside (inr low) (inl within) =
        let le : d ≤ p + n + length l = ground (arith, low) in
        let lt : p + n + length l < d + length l = ground (arith, within) in
        absurd (
          apart (length l) (p + n + length l - d) (omega arith) (omega (arith, le, lt))
            (omega (arith, le)))

    ne : (q : ℕ) → (q < d) ⊎ (d + length l < q) → q ≢ d + length l
    ne q (inl lt) e = omega (arith, lt, e)
    ne q (inr le) e = omega (arith, le, e)

    out_of : (q : ℕ) → (q < d) ⊎ (d + length l < q) → (q < d) ⊎ (d + length l ≤ q)
    out_of q (inl lt) = inl lt
    out_of q (inr le) = inr (omega (arith, le))
