-- ===== src/Keyboard.antt =====
-- device/keyboard.c: from the scan codes of the keyboard to the characters in its queue.
--
-- The handler runs with the interrupts off. The port is an argument: `scancode` is the byte that
-- `inb(KBD_BUF_PORT)` returned.
mod Examples
pub mod Keymap
pub mod Letters
pub mod Typing
use recover_os.Prelude.{
  ℕ, ◌+◌, ◌-◌, ◌≡◌, Bool, true, false, ◌&&◌, ◌||◌, not, List, Run, ok, ◌>>=◌, bit_and, bit_or, ltb,
  ◌==◌, if◌then◌else◌, get_or,
}
use recover_os.Thread.Tasks.{Tid}
use recover_os.Ioqueue.{Ioqueue, ioq_full, ioq_putchar}
use recover_os.Keyboard.Keymap.{keymap}

abbrev pub shift_l_make : ℕ
shift_l_make = 0x2a

abbrev pub shift_r_make : ℕ
shift_r_make = 0x36

abbrev pub alt_l_make : ℕ
alt_l_make = 0x38

abbrev pub alt_r_make : ℕ
alt_r_make = 0xe038

abbrev pub ctrl_l_make : ℕ
ctrl_l_make = 0x1d

abbrev pub ctrl_r_make : ℕ
ctrl_r_make = 0xe01d

abbrev pub caps_lock_make : ℕ
caps_lock_make = 0x3a

-- The keys that are held down, and whether an 0xe0 was read.
pub record Keys : Type 0 where
  pub ctrl_status : Bool
  pub shift_status : Bool
  pub alt_status : Bool
  pub caps_lock_status : Bool
  pub ext_scancode : Bool

-- A key was let go: `code` is its make code.
pub break_key : ℕ → Keys → Keys
break_key code k =
    if code == ctrl_l_make || code == ctrl_r_make
    then record k { ctrl_status = false }
    else if code == shift_l_make || code == shift_r_make
    then record k { shift_status = false }
    else if code == alt_l_make || code == alt_r_make
    then record k { alt_status = false }
    else k

-- A key without a character was pressed. The high byte of the code is gone by now.
pub make_key : ℕ → Keys → Keys
make_key code k =
    if code == ctrl_l_make || code == ctrl_r_make
    then record k { ctrl_status = true }
    else if code == shift_l_make || code == shift_r_make
    then record k { shift_status = true }
    else if code == alt_l_make || code == alt_r_make
    then record k { alt_status = true }
    else if code == caps_lock_make
    then record k { caps_lock_status = not k.caps_lock_status }
    else k

-- The keys that have two characters apart from case.
pub has_two_chars : ℕ → Bool
has_two_chars code =
    ltb code 0x0e
    || code == 0x29
    || code == 0x1a
    || code == 0x1b
    || code == 0x2b
    || code == 0x27
    || code == 0x28
    || code == 0x33
    || code == 0x34
    || code == 0x35

-- Which column of `keymap` counts.
pub shifted : ℕ → Keys → Bool
shifted code k =
    if has_two_chars code
    then k.shift_status
    else if k.shift_status && k.caps_lock_status
    then false
    else if k.shift_status || k.caps_lock_status
    then true
    else false

-- `keymap[index][shift]`
pub mapped : ℕ → Bool → ℕ
mapped index shift = let row = get_or keymap index (0, 0) in if shift then row.1 else row.0

-- With ctrl held, l, u and c become `cur_char - 'a'`.
pub with_ctrl : Bool → ℕ → ℕ
with_ctrl ctrl c = if ctrl && (c == b'l' || c == b'u' || c == b'c') then c - b'a' else c

-- The queue takes the character while it has room.
pub queue_char : Tid → ℕ → Ioqueue → Run Ioqueue
queue_char current c q = if ioq_full q then ok q else (ioq_putchar current c q >>= λ (r, q'). ok q')

-- `intr_keyboard_hdl` behind the code for 0xe0: `code` has two bytes if one went before.
pub handle_code : Tid → ℕ → Keys → Ioqueue → Run (Keys × Ioqueue)
handle_code current code k q =
    if not (bit_and code 0x0080 == 0)
    then ok (break_key (bit_and code 0xff7f) k, q)
    else if (ltb 0 code && ltb code 0x3b) || code == alt_r_make || code == ctrl_r_make
    then (let index = bit_and code 0x00ff in
        let c = mapped index (shifted code k) in
        if c == 0
        then ok (make_key index k, q)
        else (queue_char current (with_ctrl k.ctrl_status c) q >>= λ q'. ok (k, q')))
    else ok (k, q)

pub intr_keyboard_hdl : Tid → (scancode : ℕ) → Keys → Ioqueue → Run (Keys × Ioqueue)
intr_keyboard_hdl current scancode k q =
    if scancode == 0xe0
    then ok (record k { ext_scancode = true }, q)
    else if k.ext_scancode
    then handle_code current (bit_or 0xe000 scancode) (record k { ext_scancode = false }) q
    else handle_code current scancode k q
