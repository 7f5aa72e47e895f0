-- ===== src/Ioqueue/Examples.antt =====
-- device/ioqueue.c on a queue that holds `a` and `b`.
use recover_os.Prelude.{ℕ, ◌<◌, ◌≡◌, refl, ap, List, [], ◌∷◌, ◌++◌, arith, ◌==◌, length, replicate}
use recover_os.Ioqueue.{Ioqueue, bufsize, ioq_length, ioq_empty, ioq_full}
use recover_os.Ioqueue.Fifo.{IsValid, contents, length-contents}

-- The bytes wrap at the end of the storage where `tail` is 2047.
abbrev pub storage_ab : List ℕ
storage_ab = b'b' ∷ replicate 2046 0 ++ b'a' ∷ []

abbrev pub two_bytes : Ioqueue
two_bytes = record { producer = 0; consumer = 0; buf = storage_ab; head = 1; tail = 2047 }

pub two_bytes-IsValid : IsValid two_bytes
two_bytes-IsValid = record { storage = refl; head_in = omega arith; tail_in = omega arith }

pub two_bytes-length : ioq_length two_bytes ≡ 2
unfolding ioq_length
two_bytes-length = refl

pub two_bytes-contents : contents two_bytes ≡ b'a' ∷ b'b' ∷ []
unfolding contents
two_bytes-contents = refl

pub two_bytes-length-contents : length (contents two_bytes) ≡ 2
two_bytes-length-contents = ap length two_bytes-contents

length-contents_example :
    (length (contents two_bytes) ≡ ioq_length two_bytes)
    × (ioq_length two_bytes < bufsize)
    × (ioq_empty two_bytes ≡ (ioq_length two_bytes == 0))
    × (ioq_full two_bytes ≡ (ioq_length two_bytes == 2047))
length-contents_example = length-contents two_bytes two_bytes-IsValid
