-- ===== src/Keyboard/Letters.antt =====
-- The letter keys, by the rows of a keyboard, and the modifier keys.
use recover_os.Prelude.{
  all_below, all_below_sound, ℕ, ◌-◌, ◌≤◌, ◌<◌, ◌≡◌, refl, ◌∙◌, ◌≢◌, inl, inr, Bool, true, false,
  ◌&&◌, ◌||◌, not, List, [], ◌∷◌, ◌++◌, arith, Run, ok, ◌>>=◌, ltb, leb, ◌==◌, if◌then◌else◌,
  length, Bool-cases, bit_and, get_or,
}
use recover_os.Thread.Tasks.{Tid}
use recover_os.Ioqueue.{Ioqueue}
use recover_os.Ioqueue.Fifo.{IsValid, contents}
use recover_os.Keyboard.{
  Keys, break_key, make_key, has_two_chars, shifted, mapped, with_ctrl, queue_char, handle_code,
  intr_keyboard_hdl,
}
use recover_os.Keyboard.Keymap.{keymap}
use recover_os.Keyboard.Typing.{Queued, queue_char-Queued, handle_plain}

-- The letters of the three rows, from their first make codes 0x10, 0x1e and 0x2c on.
abbrev pub top_row : List ℕ
top_row = b'q' ∷ b'w' ∷ b'e' ∷ b'r' ∷ b't' ∷ b'y' ∷ b'u' ∷ b'i' ∷ b'o' ∷ b'p' ∷ []

abbrev pub home_row : List ℕ
home_row = b'a' ∷ b's' ∷ b'd' ∷ b'f' ∷ b'g' ∷ b'h' ∷ b'j' ∷ b'k' ∷ b'l' ∷ []

abbrev pub bottom_row : List ℕ
bottom_row = b'z' ∷ b'x' ∷ b'c' ∷ b'v' ∷ b'b' ∷ b'n' ∷ b'm' ∷ []

-- The letter on a key, 0 for any other key.
unfoldable pub letter_on : ℕ → ℕ
letter_on code =
    if ltb code 0x10
    then 0
    else if ltb code 0x1a
    then get_or top_row (code - 0x10) 0
    else if ltb code 0x1e
    then 0
    else if ltb code 0x27
    then get_or home_row (code - 0x1e) 0
    else if ltb code 0x2c
    then 0
    else get_or bottom_row (code - 0x2c) 0

-- `letter - 'a' + 'A'` where exactly one of shift and caps lock is on.
pub in_case : Bool → Bool → ℕ → ℕ
in_case true false c = c - 32
in_case false true c = c - 32
in_case shift caps c = c

-- A letter key is an ordinary make code, its characters are the letter and its capital, it is no
-- key of two characters, and the capital is not one that ctrl changes.
abbrev row : ℕ → Bool
row code =
    letter_on code == 0
    || ((bit_and code 0x80 == 0)
        && (bit_and code 0xff == code)
        && (mapped code false == letter_on code)
        && (mapped code true == letter_on code - 32)
        && leb b'a' (letter_on code)
        && leb (letter_on code) b'z'
        && not (has_two_chars code)
        && ltb code 0x3b
        && ltb 0 code)

table : all_below 0x3b row ≡ true
unfolding letter_on mapped keymap has_two_chars
table = refl

record Letter (code : ℕ) : Type 0 where
  make : bit_and code 0x80 == 0 ≡ true
  index : bit_and code 0xff ≡ code
  lower : mapped code false ≡ letter_on code
  upper : mapped code true ≡ letter_on code - 32
  low : b'a' ≤ letter_on code
  high : letter_on code ≤ b'z'
  one_char : has_two_chars code ≡ false
  known : (ltb 0 code && ltb code 0x3b) ≡ true

Letter-key : (code : ℕ) → code < 0x3b → letter_on code ≢ 0 → Letter code
Letter-key code lt is = ground (arith, all_below_sound 0x3b row code table lt)

mapped-Letter :
    (code : ℕ) (k : Keys)
    → Letter code
    → mapped code (shifted code k) ≡ in_case k.shift_status k.caps_lock_status (letter_on code)
unfolding shifted in_case
mapped-Letter code k l = elim (Bool-cases k.shift_status) [
  | inl s ↦ elim (Bool-cases k.caps_lock_status) [
    | inl c ↦ rw (l.one_char, s, c) l.lower
    | inr c ↦ rw (l.one_char, s, c) l.upper
  ]
  | inr s ↦ elim (Bool-cases k.caps_lock_status) [
    | inl c ↦ rw (l.one_char, s, c) l.upper
    | inr c ↦ rw (l.one_char, s, c) l.lower
  ]
]

in_case-letter :
    (s c : Bool) (x : ℕ) → b'a' ≤ x → x ≤ b'z' → (0x41 ≤ in_case s c x) × (in_case s c x ≤ b'z')
unfolding in_case
in_case-letter true true x lo hi = omega arith
in_case-letter true false x lo hi = omega arith
in_case-letter false true x lo hi = omega arith
in_case-letter false false x lo hi = omega arith

with_ctrl_up : (ctrl : Bool) (c : ℕ) → ctrl ≡ false → with_ctrl ctrl c ≡ c
unfolding with_ctrl
with_ctrl_up ctrl c up = rw up

handle-Letter :
    (t : Tid) (code : ℕ) (k : Keys) (q : Ioqueue) (c : ℕ)
    → Letter code
    → mapped code (shifted code k) ≡ c
    → c == 0 ≡ false
    → with_ctrl k.ctrl_status c ≡ c
    → handle_code t code k q ≡ (queue_char t c q >>= λ q'. ok (k, q'))
unfolding handle_code
handle-Letter t code k q c l is some_char plain =
    rw (l.make, l.known, l.index, is, some_char, plain)

-- The character that a letter key types.
abbrev pub typed_letter : ℕ → Keys → ℕ
typed_letter code k = in_case k.shift_status k.caps_lock_status (letter_on code)

-- A letter key that is pressed with ctrl up, no 0xe0 before it and room in the queue types its letter, and types it as
-- a capital exactly if one of shift and caps lock is on and the other is off. The modifiers stay
-- as they are.
pub letter_typed :
    (t : Tid) (code : ℕ) (k : Keys) (q : Ioqueue)
    → IsValid q
    → code < 0x3b
    → letter_on code ≢ 0
    → k.ext_scancode ≡ false
    → k.ctrl_status ≡ false
    → length (contents q) < 2047
    → (q' : Ioqueue) × (intr_keyboard_hdl t code k q ≡ ok (k, q'))
      × (contents q' ≡ contents q ++ typed_letter code k ∷ [])
letter_typed t code k q v lt is ext ctrl room =
    let l = Letter-key code lt is in
    let c = typed_letter code k in
    let range = in_case-letter k.shift_status k.caps_lock_status (letter_on code) l.low l.high in
    let (q', run, v', queued) = queue_char-Queued t c q v in
    (
      q',
      handle_plain t code k q ext (ground arith)
          ∙ handle-Letter t code k q c l (mapped-Letter code k l) (ground (arith, range))
              (with_ctrl_up k.ctrl_status c ctrl)
          ∙ rw run refl,
      more queued,
    )
  where
    more :
        {q' : Ioqueue}
        → Queued (typed_letter code k) q q'
        → contents q' ≡ contents q ++ typed_letter code k ∷ []
    more (inl (grown, _)) = grown
    more (inr (same, full)) = absurd (omega arith)

-- The scan codes of a key in turn.
pub codes : Tid → List ℕ → Keys → Ioqueue → Run (Keys × Ioqueue)
codes t [] k q = ok (k, q)
codes t (c ∷ cs) k q = intr_keyboard_hdl t c k q >>= λ (k', q'). codes t cs k' q'

-- The keys held down, with no 0xe0 pending.
abbrev pub keys : (ctrl shift alt caps : Bool) → Keys
keys ctrl shift alt caps = record {
  ctrl_status = ctrl;
  shift_status = shift;
  alt_status = alt;
  caps_lock_status = caps;
  ext_scancode = false;
}

-- From any state with no 0xe0 pending, the shift keys, the ctrl keys (the right one behind 0xe0) and
-- caps lock do what they are for, type nothing, and change nothing else: shift and ctrl are on
-- while the key is down and off afterwards, caps lock turns over and stays.
pub modifier_keys :
    (t : Tid) (q : Ioqueue) (ctrl shift alt caps : Bool)
    → (codes t (0x2a ∷ []) (keys ctrl shift alt caps) q ≡ ok (keys ctrl true alt caps, q))
      × (codes t (0x2a ∷ 0xaa ∷ []) (keys ctrl shift alt caps) q ≡ ok (keys ctrl false alt caps, q))
      × (codes t (0x36 ∷ 0xb6 ∷ []) (keys ctrl shift alt caps) q ≡ ok (keys ctrl false alt caps, q))
      × (codes t (0x1d ∷ []) (keys ctrl shift alt caps) q ≡ ok (keys true shift alt caps, q))
      × (codes t (0xe0 ∷ 0x1d ∷ []) (keys ctrl shift alt caps) q ≡ ok (keys true shift alt caps, q))
      × (codes t (0xe0 ∷ 0x1d ∷ 0xe0 ∷ 0x9d ∷ []) (keys ctrl shift alt caps) q
          ≡ ok (keys false shift alt caps, q))
      × (codes t (0x3a ∷ 0xba ∷ []) (keys ctrl shift alt caps) q
          ≡ ok (keys ctrl shift alt (not caps), q))
unfolding codes intr_keyboard_hdl handle_code make_key break_key mapped keymap shifted has_two_chars
    keys
modifier_keys t q ctrl true alt true = (refl, refl, refl, refl, refl, refl, refl)
modifier_keys t q ctrl true alt false = (refl, refl, refl, refl, refl, refl, refl)
modifier_keys t q ctrl false alt true = (refl, refl, refl, refl, refl, refl, refl)
modifier_keys t q ctrl false alt false = (refl, refl, refl, refl, refl, refl, refl)
