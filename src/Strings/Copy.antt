-- ===== src/Strings/Copy.antt =====
-- What `memcpy`, `strcpy` and `strcat` leave in the memory, and `strlen`.
use recover_os.Prelude.{
  ℕ, zero, suc, ◌+◌, ◌-◌, ◌≤◌, ◌<◌, ◌≡◌, refl, sym, ◌∙◌, ap, ◌≢◌, ◌⊎◌, inl, inr, List, [], ◌∷◌,
  ◌++◌, arith, ok, length, ne→not_==,
}
use recover_os.Strings.{
  Memory, store, memcpy_loop, memcpy, copy_loop, strcpy, strlen_loop, strlen, end_loop, strcat,
}

-- The characters `xs`, none of them 0, and a 0 behind them, stand at `p`.
abbrev pub Str : Memory → ℕ → List ℕ → Type 0
Str m p [] = m p ≡ 0
Str m p (x ∷ xs) = (m p ≡ x) × (x ≢ 0) × Str m (p + 1) xs

-- A copy from low to high addresses reads no byte that it has written.
abbrev pub NoClobber : (dst src n : ℕ) → Type 0
NoClobber dst src n = (dst ≤ src) ⊎ (src + n ≤ dst)

-- The address is none of the `n` from `p` on.
abbrev pub Outside : (p n q : ℕ) → Type 0
Outside p n q = (q < p) ⊎ (p + n ≤ q)

pub Outside-suc : (p n q : ℕ) → Outside p (suc n) q → (q ≢ p) × Outside (p + 1) n q
Outside-suc p n q (inl below) = (omega arith, inl (omega arith))
Outside-suc p n q (inr above) = (omega arith, inr (omega arith))

NoClobber-suc :
    (dst src n : ℕ)
    → NoClobber dst src (suc n)
    → NoClobber (dst + 1) (src + 1) n × ((i : ℕ) → i < n → src + 1 + i ≢ dst)
NoClobber-suc dst src n (inl below) = (inl (omega arith), λ i lt. omega arith)
NoClobber-suc dst src n (inr above) = (inr (omega arith), λ i lt. omega arith)

-- `n` bytes from `src` on stand at `dst`, and nothing else changed.
pub record Copied (dst src n : ℕ) (m m' : Memory) : Type 0 where
  pub inside : (i : ℕ) → i < n → m' (dst + i) ≡ m (src + i)
  pub outside : (q : ℕ) → Outside dst n q → m' q ≡ m q

pub store_same : (m : Memory) (p v : ℕ) → store m p v p ≡ v
store_same m p v = ground arith

pub store_other : (m : Memory) (p v q : ℕ) → q ≢ p → store m p v q ≡ m q
store_other m p v q ne = ground arith

memcpy_loop-Outside :
    (n dst src : ℕ) (m : Memory) (q : ℕ) → Outside dst n q → memcpy_loop n dst src m q ≡ m q
unfolding memcpy_loop
memcpy_loop-Outside zero dst src m q out = refl
memcpy_loop-Outside (suc n) dst src m q out =
    let (ne, later) = Outside-suc dst n q out in
    memcpy_loop-Outside n (dst + 1) (src + 1) (store m dst (m src)) q later
    ∙ store_other m dst (m src) q ne

memcpy_loop-inside :
    (n dst src : ℕ) (m : Memory)
    → NoClobber dst src n
    → (i : ℕ) → i < n
    → memcpy_loop n dst src m (dst + i) ≡ m (src + i)
unfolding memcpy_loop
memcpy_loop-inside zero dst src m free i lt = absurd (omega arith)
memcpy_loop-inside (suc n) dst src m free zero lt =
    ap (memcpy_loop n (dst + 1) (src + 1) (store m dst (m src))) {x = dst + 0} {y = dst}
      (omega arith)
    ∙ memcpy_loop-Outside n (dst + 1) (src + 1) (store m dst (m src)) dst (inl (omega arith))
    ∙ store_same m dst (m src)
    ∙ ap m {x = src} {y = src + 0} (omega arith)
memcpy_loop-inside (suc n) dst src m free (suc i) lt =
    let (later, clear) = NoClobber-suc dst src n free in
    ap (memcpy_loop n (dst + 1) (src + 1) (store m dst (m src))) {x = dst + suc i} {y = dst + 1 + i}
      (omega arith)
    ∙ memcpy_loop-inside n (dst + 1) (src + 1) (store m dst (m src)) later i (omega arith)
    ∙ store_other m dst (m src) (src + 1 + i) (clear i (omega arith))
    ∙ ap m {x = src + 1 + i} {y = src + suc i} (omega arith)

memcpy_loop-Copied :
    (n dst src : ℕ) (m : Memory)
    → NoClobber dst src n
    → Copied dst src n m (memcpy_loop n dst src m)
memcpy_loop-Copied n dst src m free = record {
  inside = memcpy_loop-inside n dst src m free;
  outside = memcpy_loop-Outside n dst src m;
}

-- `memcpy` between pointers that are not NULL, onto lower addresses or without an overlap, copies the
-- bytes that there were and changes nothing else.
pub memcpy-Copied :
    (dst src size : ℕ) (m : Memory)
    → dst ≢ 0
    → src ≢ 0
    → NoClobber dst src size
    → (m' : Memory) × (memcpy dst src size m ≡ ok m') × Copied dst src size m m'
unfolding memcpy
memcpy-Copied dst src size m dn sn free = (
  memcpy_loop size dst src m,
  rw (ne→not_== dst 0 dn, ne→not_== src 0 sn),
  memcpy_loop-Copied size dst src m free,
)

Str-store :
    (m : Memory) (p v q : ℕ) (xs : List ℕ)
    → Outside q (length xs + 1) p
    → Str m q xs
    → Str (store m p v) q xs
Str-store m p v q [] (inl below) str = store_other m p v q (omega arith) ∙ str
Str-store m p v q [] (inr above) str = store_other m p v q (omega arith) ∙ str
Str-store m p v q (x ∷ xs) out (here, some_char, later) =
    let (ne, out') = Outside-suc q (length xs + 1) p (widen out) in
    (store_other m p v q (λ e. ne (sym e)) ∙ here, some_char, Str-store m p v (q + 1) xs out' later)
  where
    widen : Outside q (length (x ∷ xs) + 1) p → Outside q (suc (length xs + 1)) p
    widen (inl below) = inl below
    widen (inr above) = inr (omega arith)

-- A loop that copies to the zero byte copies one byte more than there are characters.
copy_loop-memcpy :
    (f dst src : ℕ) (xs : List ℕ) (m : Memory)
    → length xs < f
    → Str m src xs
    → NoClobber dst src (length xs + 1)
    → copy_loop f dst src m ≡ ok (memcpy_loop (length xs + 1) dst src m)
unfolding copy_loop memcpy_loop
copy_loop-memcpy zero dst src xs m lt str free = absurd (omega arith)
copy_loop-memcpy (suc f) dst src [] m lt str free = rw str refl
copy_loop-memcpy (suc f) dst src (x ∷ xs) m lt (here, some_char, later) free =
    let (free', clear) = NoClobber-suc dst src (length xs + 1) (widen free) in
    let later' = Str-store m dst (m src) (src + 1) xs (behind free) later in
    rw (ne→not_== (m src) 0 (λ e. some_char (sym here ∙ e))) (
      copy_loop-memcpy f (dst + 1) (src + 1) xs (store m dst (m src)) (omega arith) later' free'
      ∙ ap (λ n. ok (memcpy_loop n dst src m)) {x = suc (length xs + 1)} {y = suc (length xs) + 1}
          (omega arith))
  where
    widen : NoClobber dst src (length (x ∷ xs) + 1) → NoClobber dst src (suc (length xs + 1))
    widen (inl below) = inl below
    widen (inr above) = inr (omega arith)

    behind : NoClobber dst src (length (x ∷ xs) + 1) → Outside (src + 1) (length xs + 1) dst
    behind (inl below) = inl (omega arith)
    behind (inr above) = inr (omega arith)

Str-moved :
    (m m' : Memory) (p q : ℕ) (xs : List ℕ)
    → ((i : ℕ) → i < length xs + 1 → m' (q + i) ≡ m (p + i))
    → Str m p xs
    → Str m' q xs
Str-moved m m' p q [] same str =
    ap m' {x = q} {y = q + 0} (omega arith)
    ∙ same 0 (omega arith)
    ∙ ap m {x = p + 0} {y = p} (omega arith)
    ∙ str
Str-moved m m' p q (x ∷ xs) same (here, some_char, later) = (
  ap m' {x = q} {y = q + 0} (omega arith)
      ∙ same 0 (omega arith)
      ∙ ap m {x = p + 0} {y = p} (omega arith)
      ∙ here,
  some_char,
  Str-moved m m' (p + 1) (q + 1) xs
      (λ i lt.
        ap m' {x = q + 1 + i} {y = q + suc i} (omega arith)
        ∙ same (suc i) (omega arith)
        ∙ ap m {x = p + suc i} {y = p + 1 + i} (omega arith))
      later,
)

-- `strcpy` between pointers that are not NULL, onto lower addresses or without an overlap and with
-- fuel for the source, returns `dst`, where the string then stands, and changes only its bytes
-- and the one of its 0.
pub strcpy-Str :
    (fuel dst src : ℕ) (xs : List ℕ) (m : Memory)
    → dst ≢ 0
    → src ≢ 0
    → length xs < fuel
    → Str m src xs
    → NoClobber dst src (length xs + 1)
    → (m' : Memory) × (strcpy fuel dst src m ≡ ok (dst, m'))
      × Str m' dst xs
      × ((q : ℕ) → Outside dst (length xs + 1) q → m' q ≡ m q)
unfolding strcpy
strcpy-Str fuel dst src xs m dn sn lt str free =
    let m' = memcpy_loop (length xs + 1) dst src m in
    (
      m',
      rw (ne→not_== dst 0 dn, ne→not_== src 0 sn, copy_loop-memcpy fuel dst src xs m lt str free),
      Str-moved m m' src dst xs (memcpy_loop-inside (length xs + 1) dst src m free) str,
      memcpy_loop-Outside (length xs + 1) dst src m,
    )

strlen_loop_lem :
    (f p len : ℕ) (xs : List ℕ) (m : Memory)
    → length xs < f
    → Str m (p + len) xs
    → strlen_loop f p len m ≡ ok (len + length xs + 1)
unfolding strlen_loop
strlen_loop_lem zero p len xs m lt str = absurd (omega arith)
strlen_loop_lem (suc f) p len [] m lt str =
    rw str (ap ok {x = len + 1} {y = len + 0 + 1} (omega arith))
strlen_loop_lem (suc f) p len (x ∷ xs) m lt (here, some_char, later) =
    rw (ne→not_== (m (p + len)) 0 (λ e. some_char (sym here ∙ e))) (
      strlen_loop_lem f p (len + 1) xs m (omega arith) (at later)
      ∙ ap ok {x = len + 1 + length xs + 1} {y = len + suc (length xs) + 1} (omega arith))
  where
    at : Str m (p + len + 1) xs → Str m (p + (len + 1)) xs
    at h = Str-moved m m (p + len + 1) (p + (len + 1)) xs (λ i lt. ap m (omega arith)) h

-- `strlen` of a string, with fuel for it, is its length.
pub strlen-length :
    (fuel p : ℕ) (xs : List ℕ) (m : Memory)
    → p ≢ 0
    → length xs < fuel
    → Str m p xs
    → strlen fuel p m ≡ ok (length xs)
unfolding strlen
strlen-length fuel p xs m pn lt str =
    let whole : Str m (p + 0) xs = Str-moved m m p (p + 0) xs (λ i lt. ap m (omega arith)) str in
    rw (ne→not_== p 0 pn, strlen_loop_lem fuel p 0 xs m lt whole)
      (ap ok {x = 0 + length xs + 1 - 1} {y = length xs} (omega arith))

end_loop_lem :
    (f p : ℕ) (xs : List ℕ) (m : Memory)
    → length xs < f
    → Str m p xs
    → end_loop f p m ≡ ok (p + length xs + 1)
unfolding end_loop
end_loop_lem zero p xs m lt str = absurd (omega arith)
end_loop_lem (suc f) p [] m lt str = rw str (ap ok {x = p + 1} {y = p + 0 + 1} (omega arith))
end_loop_lem (suc f) p (x ∷ xs) m lt (here, some_char, later) =
    rw (ne→not_== (m p) 0 (λ e. some_char (sym here ∙ e))) (
      end_loop_lem f (p + 1) xs m (omega arith) later
      ∙ ap ok {x = p + 1 + length xs + 1} {y = p + suc (length xs) + 1} (omega arith))

Str-append :
    (m m' : Memory) (p : ℕ) (xs ys : List ℕ)
    → ((i : ℕ) → i < length xs → m' (p + i) ≡ m (p + i))
    → Str m p xs
    → Str m' (p + length xs) ys
    → Str m' p (xs ++ ys)
Str-append m m' p [] ys same str tail =
    Str-moved m' m' (p + 0) p ys (λ i lt. ap m' (omega arith)) tail
Str-append m m' p (x ∷ xs) ys same (here, some_char, later) tail = (
  ap m' {x = p} {y = p + 0} (omega arith)
      ∙ same 0 (omega arith)
      ∙ ap m {x = p + 0} {y = p} (omega arith)
      ∙ here,
  some_char,
  Str-append m m' (p + 1) xs ys
      (λ i lt.
        ap m' {x = p + 1 + i} {y = p + suc i} (omega arith)
        ∙ same (suc i) (omega arith)
        ∙ ap m {x = p + suc i} {y = p + 1 + i} (omega arith))
      later
      (Str-moved m' m' (p + suc (length xs)) (p + 1 + length xs) ys (λ i lt. ap m' (omega arith))
        tail),
)

-- `strcat` with fuel for both strings, where the copy does not run into its own source, returns `dst`,
-- where the one string followed by the other then stands, and changes only the bytes from the
-- first one's 0 on.
pub strcat-Str :
    (fuel dst src : ℕ) (xs ys : List ℕ) (m : Memory)
    → dst ≢ 0
    → src ≢ 0
    → length xs < fuel
    → length ys < fuel
    → Str m dst xs
    → Str m src ys
    → NoClobber (dst + length xs) src (length ys + 1)
    → (m' : Memory) × (strcat fuel dst src m ≡ ok (dst, m'))
      × Str m' dst (xs ++ ys)
      × ((q : ℕ) → Outside (dst + length xs) (length ys + 1) q → m' q ≡ m q)
unfolding strcat
strcat-Str fuel dst src xs ys m dn sn lx ly first second free =
    let e = dst + length xs in
    let m' = memcpy_loop (length ys + 1) e src m in
    let outside = memcpy_loop-Outside (length ys + 1) e src m in
    let end : dst + length xs + 1 - 1 ≡ e = omega arith in
    (
      m',
      rw (
        ne→not_== dst 0 dn,
        ne→not_== src 0 sn,
        end_loop_lem fuel dst xs m lx first,
        end,
        copy_loop-memcpy fuel e src ys m ly second free,
      ),
      Str-append m m' dst xs ys (λ i lt. outside (dst + i) (inl (omega arith))) first
          (Str-moved m m' src e ys (memcpy_loop-inside (length ys + 1) e src m free) second),
      outside,
    )
