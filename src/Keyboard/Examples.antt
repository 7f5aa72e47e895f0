-- ===== src/Keyboard/Examples.antt =====
-- device/keyboard.c with an empty queue, and with caps lock on.
use recover_os.Prelude.{◌≡◌, ◌≢◌, refl, true, false, [], arith, ok, replicate}
use recover_os.Ioqueue.{Ioqueue, ioqueue_init}
use recover_os.Ioqueue.Fifo.{IsValid, contents, ioqueue_init-contents}
use recover_os.Keyboard.{Keys, intr_keyboard_hdl}
use recover_os.Keyboard.Typing.{AtMostOne, intr_keyboard_hdl-AtMostOne}
use recover_os.Keyboard.Letters.{keys, letter_on}

abbrev no_keys : Ioqueue
no_keys = ioqueue_init (replicate 2048 0)

no_keys-empty : IsValid no_keys × (contents no_keys ≡ [])
no_keys-empty = ioqueue_init-contents (replicate 2048 0) refl

intr_keyboard_hdl_example :
    (r : Keys × Ioqueue) × (intr_keyboard_hdl 7 0x1e (keys false false false true) no_keys ≡ ok r)
    × IsValid r.1
    × AtMostOne no_keys r.1
intr_keyboard_hdl_example =
    intr_keyboard_hdl-AtMostOne 7 0x1e (keys false false false true) no_keys no_keys-empty.0

is_letter : letter_on 0x1e ≢ 0
unfolding letter_on
is_letter = λ e. ground arith
