-- ===== src/Pipe/Transfer.antt =====
-- What a read and a write of a pipe transfer.
use recover_os.Prelude.{
  ℕ, zero, suc, ◌+◌, ◌-◌, ◌≤◌, ◌<◌, ◌≡◌, refl, sym, ◌∙◌, ap, ap₂, true, List, [], ◌∷◌, ◌++◌,
  append_assoc, append-nil, arith, ok, ltb, length, take, drop, length-append,
}
use recover_os.Thread.Tasks.{Tid}
use recover_os.Ioqueue.{Ioqueue, bufsize, ioq_length}
use recover_os.Ioqueue.Fifo.{
  IsValid, contents, length-contents, ioq_putchar-room, ioq_putchar-full, ioq_getchar-some,
}
use recover_os.Pipe.{done, asleep, write_loop, smaller, pipe_write, read_loop, pipe_read}

length-take : (n : ℕ) (xs : List ℕ) → n ≤ length xs → length (take n xs) ≡ n
length-take zero xs h = refl
length-take (suc n) [] h = absurd (omega arith)
length-take (suc n) (x ∷ xs) h = ap suc (length-take n xs (omega arith))

count_of : (q : Ioqueue) → IsValid q → ioq_length q ≡ length (contents q)
count_of q v = sym (length-contents q v).0

-- The loop writes all of its bytes if they fit.
write_loop-fits :
    (bytes : List ℕ) (t : Tid) (n : ℕ) (q : Ioqueue)
    → IsValid q
    → length (contents q) + length bytes ≤ 2047
    → (q' : Ioqueue) × (write_loop t bytes n q ≡ ok (done (n + length bytes), q'))
      × IsValid q'
      × (contents q' ≡ contents q ++ bytes)
unfolding write_loop
write_loop-fits [] t n q v room = (q, ap (λ k. ok (done k, q)) (omega arith), v, sym (append-nil _))
write_loop-fits (x ∷ xs) t n q v room =
    let (q1, put1, v1, c1, p1, more) = ioq_putchar-room q t x v (omega (arith, count_of q v)) in
    let longer : length (contents q1) ≡ length (contents q) + 1 =
      ap length more ∙ length-append (contents q) (x ∷ []) in
    let (q', run, v', all) = write_loop-fits xs t (n + 1) q1 v1 (omega arith) in
    (
      q',
      rw put1 (run ∙ ap (λ k. ok (done k, q')) (omega arith)),
      v',
      all ∙ ap (λ c. c ++ xs) more ∙ append_assoc (contents q) (x ∷ []) xs,
    )

-- One byte too many for the room: the loop fills the queue and sleeps.
write_loop-sleeps :
    (bytes : List ℕ) (t : Tid) (n : ℕ) (q : Ioqueue)
    → IsValid q
    → q.producer ≡ 0
    → length (contents q) + length bytes ≡ 2048
    → (q' : Ioqueue) × (write_loop t bytes n q ≡ ok (asleep (n + (length bytes - 1)), q'))
      × (q'.producer ≡ t)
      × (length (contents q) < 2048)
unfolding write_loop
write_loop-sleeps [] t n q v alone over =
    absurd (omega (arith, (length-contents q v).1, count_of q v))
write_loop-sleeps (x ∷ []) t n q v alone over = (
  record q { producer = t },
  rw (ioq_putchar-full q t x v (omega (arith, count_of q v)) alone)
      (ap (λ k. ok (asleep k, record q { producer = t })) (omega arith)),
  refl,
  omega arith,
)
write_loop-sleeps (x ∷ y ∷ ys) t n q v alone over =
    let (q1, put1, v1, c1, p1, more) = ioq_putchar-room q t x v (omega (arith, count_of q v)) in
    let longer : length (contents q1) ≡ length (contents q) + 1 =
      ap length more ∙ length-append (contents q) (x ∷ []) in
    let (q', run, waits, _) =
      write_loop-sleeps (y ∷ ys) t (n + 1) q1 v1 (p1 ∙ alone) (omega arith) in
    (q', rw put1 (run ∙ ap (λ k. ok (asleep k, q')) (omega arith)), waits, omega arith)

-- To a queue in order, a write of fewer bytes than `bufsize` less the bytes in the queue never sleeps: it puts all of them
-- behind those in the queue, in order, and returns their number.
pub pipe_write-fits :
    (t : Tid) (buf : List ℕ) (count : ℕ) (q : Ioqueue)
    → IsValid q
    → count ≤ length buf
    → length (contents q) + count ≤ 2047
    → (q' : Ioqueue) × (pipe_write t buf count q ≡ ok (done count, q'))
      × IsValid q'
      × (contents q' ≡ contents q ++ take count buf)
unfolding pipe_write
pipe_write-fits t buf count q v enough room =
    let fits : ltb count (bufsize - ioq_length q) ≡ true = ground (arith, count_of q v) in
    let len = length-take count buf enough in
    let (q', run, v', all) = write_loop-fits (take count buf) t 0 q v (omega (arith, len)) in
    (q', rw fits (run ∙ ap (λ k. ok (done k, q')) (omega (arith, len))), v', all)

pipe_write-cut :
    (t : Tid) (buf : List ℕ) (count : ℕ) (q : Ioqueue) (size : ℕ)
    → smaller (bufsize - ioq_length q) count ≡ size
    → pipe_write t buf count q ≡ write_loop t (take size buf) 0 q
unfolding pipe_write
pipe_write-cut t buf count q size e = ap (λ k. write_loop t (take k buf) 0 q) e

-- A longer write, with no other producer waiting, does not stop where the queue is full, though `pipe_write` cuts its count down to
-- what it takes for the room: it fills the queue and sleeps with a byte left to write.
pub pipe_write-sleeps :
    (t : Tid) (buf : List ℕ) (count : ℕ) (q : Ioqueue)
    → IsValid q
    → q.producer ≡ 0
    → count ≤ length buf
    → 2048 ≤ length (contents q) + count
    → (q' : Ioqueue) × (pipe_write t buf count q ≡ ok (asleep (2047 - length (contents q)), q'))
      × (q'.producer ≡ t)
pipe_write-sleeps t buf count q v alone enough over =
    let cut : smaller (bufsize - ioq_length q) count ≡ 2048 - length (contents q) =
      ground (arith, count_of q v) in
    let len = length-take (2048 - length (contents q)) buf (omega arith) in
    let below = (length-contents q v).1 in
    let (q', run, waits, _) =
      write_loop-sleeps (take (2048 - length (contents q)) buf) t 0 q v alone
        (omega (arith, len, below, count_of q v)) in
    (
      q',
      pipe_write-cut t buf count q (2048 - length (contents q)) cut
          ∙ run
          ∙ ap (λ k. ok (asleep k, q')) (omega (arith, len, below)),
      waits,
    )

uncons : (c : List ℕ) → 0 < length c → (x : ℕ) × (rest : List ℕ) × (c ≡ x ∷ rest)
uncons [] h = absurd (omega arith)
uncons (x ∷ rest) h = (x, rest, refl)

read_loop-takes :
    (k : ℕ) (t : Tid) (stored : List ℕ) (n : ℕ) (q : Ioqueue)
    → IsValid q
    → k ≤ length (contents q)
    → (q' : Ioqueue) × (read_loop t k stored n q
        ≡ ok (done (n + k), stored ++ take k (contents q), q'))
      × IsValid q'
      × (contents q' ≡ drop k (contents q))
unfolding read_loop
read_loop-takes zero t stored n q v enough =
    (q, ap₂ (λ k s. ok (done k, s, q)) (omega arith) (sym (append-nil stored)), v, refl)
read_loop-takes (suc k) t stored n q v enough =
    let (x, rest, e) = uncons (contents q) (omega arith) in
    let (q1, got1, v1, p1, c1, less) = ioq_getchar-some q t x rest v e in
    let (q', run, v', left) =
      read_loop-takes k t (stored ++ x ∷ []) (n + 1) q1 v1
        (omega (arith, ap length e, ap length less)) in
    (
      q',
      rw got1 (
          run
          ∙ ap₂ (λ j s. ok (done j, s, q')) (omega arith)
              (append_assoc stored (x ∷ []) (take k (contents q1))
                ∙ ap (λ c. stored ++ x ∷ take k c) less
                ∙ ap (λ c. stored ++ take (suc k) c) (sym e))),
      v',
      left ∙ ap (drop k) less ∙ sym (ap (drop (suc k)) e),
    )

-- A read of a queue in order never sleeps: it takes the first bytes of the queue, as many as it asked for or as there
-- are, in order, and leaves the rest.
pub pipe_read-takes :
    (t : Tid) (count : ℕ) (q : Ioqueue)
    → IsValid q
    → let size = smaller (length (contents q)) count in
      (q' : Ioqueue) × (pipe_read t count q ≡ ok (done size, take size (contents q), q'))
      × IsValid q'
      × (contents q' ≡ drop size (contents q))
unfolding pipe_read
pipe_read-takes t count q v =
    let (q', run, v', left) =
      read_loop-takes (smaller (length (contents q)) count) t [] 0 q v (ground arith) in
    (
      q',
      rw (count_of q v) (
          run
          ∙ ap (λ k. ok (done k, take (smaller (length (contents q)) count) (contents q), q'))
              {x = 0 + smaller (length (contents q)) count} (omega arith)),
      v',
      left,
    )
