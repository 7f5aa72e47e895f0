-- ===== src/Keyboard/Typing.antt =====
-- What the keys do: letters and their case, the modifier keys, and what reaches the queue.
use recover_os.Prelude.{
  ℕ, ◌<◌, ◌≡◌, refl, ◌∙◌, ◌≢◌, ◌⊎◌, inl, inr, Bool, true, false, ◌&&◌, ◌||◌, [], ◌∷◌, ◌++◌, arith,
  ok, ltb, ◌==◌, length, Bool-cases, bit_and, bit_or, ==→eq, not_==→ne,
}
use recover_os.Thread.Tasks.{Tid}
use recover_os.Ioqueue.{Ioqueue, ioq_length}
use recover_os.Ioqueue.Fifo.{IsValid, contents, length-contents, ioq_putchar-room}
use recover_os.Keyboard.{
  Keys, break_key, make_key, shifted, mapped, with_ctrl, queue_char, handle_code, intr_keyboard_hdl,
  alt_r_make, ctrl_r_make,
}

-- The queue takes a character at its end, or is full and stays as it is.
abbrev pub Queued : ℕ → Ioqueue → Ioqueue → Type 0
Queued c q q' =
    ((contents q' ≡ contents q ++ c ∷ []) × (length (contents q) < 2047))
    ⊎ ((q' ≡ q) × (length (contents q) ≡ 2047))

pub queue_char-Queued :
    (t : Tid) (c : ℕ) (q : Ioqueue)
    → IsValid q
    → (q' : Ioqueue) × (queue_char t c q ≡ ok q') × IsValid q' × Queued c q q'
unfolding queue_char
queue_char-Queued t c q v =
    let (len, below, empty, full) = length-contents q v in
    elim (Bool-cases (ioq_length q == 2047)) [
      | inl at_end ↦ (q, rw (full, at_end), v, inr (refl, len ∙ ==→eq _ _ at_end))
      | inr room ↦
          let left : ioq_length q < 2047 = omega (arith, below, not_==→ne _ 2047 room) in
          let (q', run, v', c', p', more) = ioq_putchar-room q t c v left in
          (q', rw (full, room, run), v', inl (more, omega (arith, len)))
    ]

-- What an interrupt may do to the queue: nothing, or one character that is not 0.
abbrev pub AtMostOne : Ioqueue → Ioqueue → Type 0
AtMostOne q q' = (q' ≡ q) ⊎ ((c : ℕ) × (c ≢ 0) × (contents q' ≡ contents q ++ c ∷ []))

with_ctrl-ne-zero : (ctrl : Bool) (c : ℕ) → c ≢ 0 → with_ctrl ctrl c ≢ 0
unfolding with_ctrl
with_ctrl-ne-zero ctrl c ne = ground arith

handle_code-AtMostOne :
    (t : Tid) (code : ℕ) (k : Keys) (q : Ioqueue)
    → IsValid q
    → (r : Keys × Ioqueue) × (handle_code t code k q ≡ ok r) × IsValid r.1 × AtMostOne q r.1
unfolding handle_code
handle_code-AtMostOne t code k q v = elim (Bool-cases (bit_and code 0x0080 == 0)) [
  | inr is_break ↦ ((break_key (bit_and code 0xff7f) k, q), rw is_break, v, inl refl)
  | inl is_make ↦
      elim (Bool-cases
        ((ltb 0 code && ltb code 0x3b) || code == alt_r_make || code == ctrl_r_make)) [
          | inr unknown ↦ ((k, q), rw (is_make, unknown), v, inl refl)
          | inl known ↦ elim (Bool-cases (mapped (bit_and code 0x00ff) (shifted code k) == 0)) [
            | inl no_char ↦
                ((make_key (bit_and code 0x00ff) k, q), rw (is_make, known, no_char), v, inl refl)
            | inr char ↦
                let c = mapped (bit_and code 0x00ff) (shifted code k) in
                let (q', run, v', queued) = queue_char-Queued t (with_ctrl k.ctrl_status c) q v in
                (
                  (k, q'),
                  rw (is_make, known, char, run),
                  v',
                  one (with_ctrl k.ctrl_status c) q'
                      (with_ctrl-ne-zero k.ctrl_status c (not_==→ne _ 0 char)) queued,
                )
          ]
        ]
]
  where
    one : (c : ℕ) (q' : Ioqueue) → c ≢ 0 → Queued c q q' → AtMostOne q q'
    one c q' ne (inl (more, room)) = inr (c, ne, more)
    one c q' ne (inr (same, full)) = inl same

-- A code that is not 0xe0, with no 0xe0 before it, is handled as it is.
pub handle_plain :
    (t : Tid) (code : ℕ) (k : Keys) (q : Ioqueue)
    → k.ext_scancode ≡ false
    → code == 0xe0 ≡ false
    → intr_keyboard_hdl t code k q ≡ handle_code t code k q
unfolding intr_keyboard_hdl
handle_plain t code k q ext plain = rw (plain, ext)

-- While its queue is in order, the handler never fails and never sleeps, whatever the keyboard sends. It puts at most one
-- character, and not 0, behind those in the queue.
pub intr_keyboard_hdl-AtMostOne :
    (t : Tid) (scancode : ℕ) (k : Keys) (q : Ioqueue)
    → IsValid q
    → (r : Keys × Ioqueue) × (intr_keyboard_hdl t scancode k q ≡ ok r)
      × IsValid r.1
      × AtMostOne q r.1
unfolding intr_keyboard_hdl
intr_keyboard_hdl-AtMostOne t scancode k q v = elim (Bool-cases (scancode == 0xe0)) [
  | inl prefix ↦ ((record k { ext_scancode = true }, q), rw prefix, v, inl refl)
  | inr code ↦ elim (Bool-cases k.ext_scancode) [
    | inl ext ↦
        let (r, run, v', one) =
          handle_code-AtMostOne t (bit_or 0xe000 scancode) (record k { ext_scancode = false }) q
            v in
        (r, rw (code, ext) run, v', one)
    | inr plain ↦
        let (r, run, v', one) = handle_code-AtMostOne t scancode k q v in
        (r, handle_plain t scancode k q plain code ∙ run, v', one)
  ]
]
