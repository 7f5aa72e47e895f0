-- ===== src/Ioqueue/Fifo.antt =====
-- An ioqueue seen as the sequence of its bytes.
use recover_os.Prelude.{
  ℕ, zero, suc, ◌+◌, ◌-◌, ◌%◌, ◌<◌, ◌≡◌, refl, sym, ◌∙◌, ap, ap₂, ◌≢◌, true, false, List, [], ◌∷◌,
  ◌++◌, arith, ok, ◌==◌, length, get_or, set, length-set, get_or-set_self, get_or-set_ne,
}
use recover_os.Thread.Tasks.{Tid}
use recover_os.Ioqueue.{
  Ioqueue, ioqueue_init, bufsize, next_pos, ioq_full, ioq_empty, got, no_byte, ioq_getchar, put,
  no_room, ioq_putchar, ioq_length,
}

pub record IsValid (q : Ioqueue) : Type 0 where
  pub storage : length q.buf ≡ bufsize
  pub head_in : q.head < bufsize
  pub tail_in : q.tail < bufsize

-- The `n` bytes from index `i` on, going round at the end of the storage.
abbrev pub window : List ℕ → (i n : ℕ) → List ℕ
window buf i zero = []
window buf i (suc n) = get_or buf i 0 ∷ window buf (next_pos i) n

-- How many steps lead from `tail` round to `head`.
abbrev pub steps : Ioqueue → ℕ
steps q = (q.head + bufsize - q.tail) % bufsize

-- The bytes from `tail` on, up to `head`.
unfoldable pub contents : Ioqueue → List ℕ
contents q = window q.buf q.tail (steps q)

length-window : (buf : List ℕ) (i n : ℕ) → length (window buf i n) ≡ n
length-window buf i zero = refl
length-window buf i (suc n) = ap suc (length-window buf (next_pos i) n)

ioq_length-steps : (q : Ioqueue) → IsValid q → ioq_length q ≡ steps q
unfolding ioq_length
ioq_length-steps q v = ground (arith, v.head_in, v.tail_in)

contents-window : (q : Ioqueue) → IsValid q → contents q ≡ window q.buf q.tail (ioq_length q)
unfolding contents
contents-window q v = ap (window q.buf q.tail) (sym (ioq_length-steps q v))

-- In a queue whose positions and storage are in order, `ioq_length` counts the bytes
-- from `tail` round to `head`; there are 2047 at most, and the two tests say when there are none and
-- when there are 2047.
pub length-contents :
    (q : Ioqueue)
    → IsValid q
    → (length (contents q) ≡ ioq_length q)
      × (ioq_length q < bufsize)
      × (ioq_empty q ≡ (ioq_length q == 0))
      × (ioq_full q ≡ (ioq_length q == 2047))
unfolding contents ioq_length ioq_empty ioq_full
length-contents q v = (
  length-window q.buf q.tail (steps q) ∙ sym (ioq_length-steps q v),
  ground (arith, v.head_in, v.tail_in),
  ground (arith, v.head_in, v.tail_in),
  ground (arith, v.head_in, v.tail_in),
)

-- Writing just past a window makes it longer by that byte.
window-set :
    (buf : List ℕ) (x n i j : ℕ)
    → length buf ≡ bufsize
    → i < bufsize
    → n < 2047
    → j ≡ (i + n) % bufsize
    → window (set buf j x) i (suc n) ≡ window buf i n ++ x ∷ []
window-set buf x zero i j len lt room e =
    ap (λ y. y ∷ [])
      (let e' : i ≡ j = omega arith in rw (e', get_or-set_self buf j x 0 (omega arith)))
window-set buf x (suc n) i j len lt room e =
    ap₂ ◌∷◌ (get_or-set_ne buf j i x 0 (omega arith))
      (window-set buf x n (next_pos i) j len (omega arith) (omega arith) (omega arith))

-- The queue after a byte was put into it, or taken out.
after_put : ℕ → Ioqueue → Ioqueue
after_put byte q = record q { buf = set q.buf q.head byte; head = next_pos q.head; consumer = 0 }

after_get : Ioqueue → Ioqueue
after_get q = record q { tail = next_pos q.tail; producer = 0 }

length-after_put :
    (q : Ioqueue) (byte : ℕ)
    → IsValid q
    → ioq_length q < 2047
    → (ioq_length (after_put byte q) ≡ suc (ioq_length q)) × IsValid (after_put byte q)
unfolding ioq_length after_put
length-after_put q byte v room = (
  ground (arith, v.head_in, v.tail_in),
  record {
    storage = length-set q.buf q.head byte ∙ v.storage;
    head_in = omega arith;
    tail_in = v.tail_in;
  },
)

head_at : (q : Ioqueue) → IsValid q → q.head ≡ (q.tail + ioq_length q) % bufsize
unfolding ioq_length
head_at q v = ground (arith, v.head_in, v.tail_in)

-- While there is room in a queue in order, a byte that is put comes last, and a waiting consumer is woken.
pub ioq_putchar-room :
    (q : Ioqueue) (t : Tid) (byte : ℕ)
    → IsValid q
    → ioq_length q < 2047
    → (q' : Ioqueue) × (ioq_putchar t byte q ≡ ok (put q.consumer, q'))
      × IsValid q'
      × (q'.consumer ≡ 0)
      × (q'.producer ≡ q.producer)
      × (contents q' ≡ contents q ++ byte ∷ [])
unfolding ioq_putchar contents after_put
ioq_putchar-room q t byte v room =
    let (len, lt, empty, full) = length-contents q v in
    let (longer, v') = length-after_put q byte v room in
    let not_full : ioq_full q ≡ false = ground arith in
    (
      after_put byte q,
      rw not_full,
      v',
      refl,
      refl,
      contents-window (after_put byte q) v'
          ∙ ap (window (set q.buf q.head byte) q.tail) longer
          ∙ window-set q.buf byte (ioq_length q) q.tail q.head v.storage v.tail_in room
              (head_at q v)
          ∙ ap (λ l. l ++ byte ∷ []) (sym (contents-window q v)),
    )

-- A full queue takes no byte: the thread becomes the producer that waits.
pub ioq_putchar-full :
    (q : Ioqueue) (t : Tid) (byte : ℕ)
    → IsValid q
    → ioq_length q ≡ 2047
    → q.producer ≡ 0
    → ioq_putchar t byte q ≡ ok (no_room, record q { producer = t })
unfolding ioq_putchar
ioq_putchar-full q t byte v e alone =
    let (len, lt, empty, full) = length-contents q v in
    let is_full : ioq_full q ≡ true = ground arith in rw is_full (rw alone refl)

-- The window without its first byte, where the code tests the length.
window-pos :
    (buf : List ℕ) (i n : ℕ)
    → n ≢ 0
    → window buf i n ≡ get_or buf i 0 ∷ window buf (next_pos i) (n - 1)
window-pos buf i zero ne = absurd (ne refl)
window-pos buf i (suc n) ne = ap (λ k. get_or buf i 0 ∷ window buf (next_pos i) k) (omega arith)

length-after_get :
    (q : Ioqueue)
    → IsValid q
    → ioq_length q ≢ 0
    → (ioq_length (after_get q) ≡ ioq_length q - 1) × IsValid (after_get q)
unfolding ioq_length after_get
length-after_get q v some_bytes = (
  ground (arith, v.head_in, v.tail_in),
  record { storage = v.storage; head_in = v.head_in; tail_in = omega arith },
)

-- From a queue in order with bytes the first is taken, and a waiting producer is woken.
pub ioq_getchar-some :
    (q : Ioqueue) (t byte : ℕ) (rest : List ℕ)
    → IsValid q
    → contents q ≡ byte ∷ rest
    → (q' : Ioqueue) × (ioq_getchar t q ≡ ok (got byte q.producer, q'))
      × IsValid q'
      × (q'.producer ≡ 0)
      × (q'.consumer ≡ q.consumer)
      × (contents q' ≡ rest)
unfolding ioq_getchar contents after_get
ioq_getchar-some q t byte rest v has =
    let (len, lt, empty, full) = length-contents q v in
    let some_bytes : ioq_length q ≢ 0 =
      λ z. not_empty (sym (ap (window q.buf q.tail) z) ∙ sym (contents-window q v) ∙ has) in
    let (shorter, v') = length-after_get q v some_bytes in
    let not_empty : ioq_empty q ≡ false = ground arith in
    let (first, others) =
      parts (
        sym (window-pos q.buf q.tail (ioq_length q) some_bytes)
        ∙ sym (contents-window q v)
        ∙ has) in
    (
      after_get q,
      rw (not_empty, first),
      v',
      refl,
      refl,
      contents-window (after_get q) v' ∙ ap (window q.buf (next_pos q.tail)) shorter ∙ others,
    )
  where
    not_empty : ◌≢◌ {A = List ℕ} [] (byte ∷ rest)
    not_empty e = cc

    parts : {a : ℕ} {r : List ℕ} → a ∷ r ≡ byte ∷ rest → (a ≡ byte) × (r ≡ rest)
    parts e = (cc, cc)

-- From an empty queue nothing is taken: the thread becomes the consumer that waits.
pub ioq_getchar-empty :
    (q : Ioqueue) (t : Tid)
    → IsValid q
    → contents q ≡ []
    → q.consumer ≡ 0
    → ioq_getchar t q ≡ ok (no_byte, record q { consumer = t })
unfolding ioq_getchar
ioq_getchar-empty q t v none_left alone =
    let (len, lt, empty, full) = length-contents q v in
    let is_empty : ioq_empty q ≡ true = ground (arith, ap length none_left) in
    rw is_empty (rw alone refl)

pub ioqueue_init-contents :
    (old : List ℕ)
    → length old ≡ bufsize
    → IsValid (ioqueue_init old) × (contents (ioqueue_init old) ≡ [])
unfolding ioqueue_init contents ioq_length
ioqueue_init-contents old len =
    (record { storage = len; head_in = omega arith; tail_in = omega arith }, refl)
