-- ===== src/Pipe/Examples.antt =====
-- pipe/pipe.c on a pipe that holds two bytes.
use recover_os.Prelude.{
  ℕ, ◌-◌, ◌≡◌, refl, List, [], ◌∷◌, ◌++◌, arith, ok, length, take, drop, replicate,
}
use recover_os.Ioqueue.{Ioqueue}
use recover_os.Ioqueue.Examples.{two_bytes, two_bytes-IsValid, two_bytes-length-contents}
use recover_os.Ioqueue.Fifo.{IsValid, contents}
use recover_os.Pipe.{done, asleep, pipe_write, pipe_read, smaller}
use recover_os.Pipe.Transfer.{pipe_write-fits, pipe_write-sleeps, pipe_read-takes}

abbrev word : List ℕ
word = b'c' ∷ b'd' ∷ b'e' ∷ []

pipe_write_example :
    (q' : Ioqueue) × (pipe_write 7 word 2 two_bytes ≡ ok (done 2, q'))
    × IsValid q'
    × (contents q' ≡ contents two_bytes ++ take 2 word)
pipe_write_example =
    pipe_write-fits 7 word 2 two_bytes two_bytes-IsValid (omega arith)
      (omega (arith, two_bytes-length-contents))

pipe_write_long_example :
    (q' : Ioqueue) × (pipe_write 7 (replicate 2046 0) 2046 two_bytes
      ≡ ok (asleep (2047 - length (contents two_bytes)), q'))
    × (q'.producer ≡ 7)
pipe_write_long_example =
    pipe_write-sleeps 7 (replicate 2046 0) 2046 two_bytes two_bytes-IsValid refl (omega arith)
      (omega (arith, two_bytes-length-contents))

pipe_read_example :
    (q' : Ioqueue) × (pipe_read 7 5 two_bytes
      ≡ ok (
        done (smaller (length (contents two_bytes)) 5),
        take (smaller (length (contents two_bytes)) 5) (contents two_bytes),
        q',
      ))
    × IsValid q'
    × (contents q' ≡ drop (smaller (length (contents two_bytes)) 5) (contents two_bytes))
pipe_read_example = pipe_read-takes 7 5 two_bytes two_bytes-IsValid
