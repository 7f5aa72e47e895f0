-- ===== src/Strings.antt =====
-- lib/string.c: copies, comparisons and searches in a memory of bytes.
--
-- A pointer is a number, and the memory a function from addresses to bytes. A loop that ends at a
-- zero byte has fuel; more fuel than the string has characters is enough.
pub mod Copy
mod Examples
pub mod Search
use recover_os.Prelude.{
  ℕ, zero, suc, ◌+◌, ◌-◌, ◌%◌, ◌^◌, Bool, true, false, ◌&&◌, ◌||◌, not, Run, ok, out_of_fuel, ◌>>=◌,
  ◌>>◌, assert, ltb, ◌==◌, if◌then◌else◌,
}

abbrev pub Memory : Type 0
Memory = ℕ → ℕ

abbrev pub store : Memory → ℕ → ℕ → Memory
store m p v q = if q == p then v else m q

abbrev pub not_null : ℕ → Bool
not_null p = not (p == 0)

pub memcpy_loop : (size dst src : ℕ) → Memory → Memory
memcpy_loop zero dst src m = m
memcpy_loop (suc n) dst src m = memcpy_loop n (dst + 1) (src + 1) (store m dst (m src))

pub memcpy : (dst src size : ℕ) → Memory → Run Memory
memcpy dst src size m = do assert (not_null dst && not_null src); ok (memcpy_loop size dst src m)

pub memset_loop : (size dst value : ℕ) → Memory → Memory
memset_loop zero dst value m = m
memset_loop (suc n) dst value m = memset_loop n (dst + 1) value (store m dst value)

-- `value` is a `uint8_t`.
pub memset : (dst value size : ℕ) → Memory → Run Memory
memset dst value size m = do assert (not_null dst); ok (memset_loop size dst value m)

-- A `char` as an `int`, as a bit pattern.
abbrev pub as_int : ℕ → ℕ
as_int c = if ltb c 128 then c else c + 2 ^ 32 - 2 ^ 8

-- `*(char *)a - *(char *)b`
abbrev pub char_diff : ℕ → ℕ → ℕ
char_diff c d = (as_int c + 2 ^ 32 - as_int d) % 2 ^ 32

memcmp_loop : (size a b : ℕ) → Memory → ℕ
memcmp_loop zero a b m = 0
memcmp_loop (suc n) a b m =
    let rest = memcmp_loop n (a + 1) (b + 1) m in if m a == m b then rest else char_diff (m a) (m b)

-- The ASSERT asks for one pointer that is not NULL.
pub memcmp : (a b size : ℕ) → Memory → Run ℕ
memcmp a b size m = do assert (not_null a || not_null b); ok (memcmp_loop size a b m)

-- `while ((*dst++ = *src++)) {}`
pub copy_loop : (fuel dst src : ℕ) → Memory → Run Memory
copy_loop zero dst src m = out_of_fuel
copy_loop (suc f) dst src m =
    let m' = store m dst (m src) in
    let rest = copy_loop f (dst + 1) (src + 1) m' in if m src == 0 then ok m' else rest

pub strcpy : (fuel dst src : ℕ) → Memory → Run (ℕ × Memory)
strcpy fuel dst src m = do
  assert (not_null dst && not_null src)
  m' ← copy_loop fuel dst src m
  ok (dst, m')

-- `while (str[len++]) {}`, with the value of `len` behind it.
strlen_loop : (fuel str len : ℕ) → Memory → Run ℕ
strlen_loop zero str len m = out_of_fuel
strlen_loop (suc f) str len m =
    let rest = strlen_loop f str (len + 1) m in if m (str + len) == 0 then ok (len + 1) else rest

pub strlen : (fuel str : ℕ) → Memory → Run ℕ
strlen fuel str m = do assert (not_null str); len ← strlen_loop fuel str 0 m; ok (len - 1)

-- `while (*str++) {}`, with the value of `str` behind it.
end_loop : (fuel str : ℕ) → Memory → Run ℕ
end_loop zero str m = out_of_fuel
end_loop (suc f) str m =
    let rest = end_loop f (str + 1) m in if m str == 0 then ok (str + 1) else rest

pub strcat : (fuel dst src : ℕ) → Memory → Run (ℕ × Memory)
strcat fuel dst src m = do
  assert (not_null dst && not_null src)
  str ← end_loop fuel dst m
  m' ← copy_loop fuel (str - 1) src m
  ok (dst, m')

strcmp_loop : (fuel a b : ℕ) → Memory → Run ℕ
strcmp_loop zero a b m = out_of_fuel
strcmp_loop (suc f) a b m =
    let rest = strcmp_loop f (a + 1) (b + 1) m in
    if not (m a == 0) && (m a == m b) then rest else ok (char_diff (m a) (m b))

pub strcmp : (fuel a b : ℕ) → Memory → Run ℕ
strcmp fuel a b m = do assert (not_null a && not_null b); strcmp_loop fuel a b m

strrchr_loop : (fuel str ch last_char : ℕ) → Memory → Run ℕ
strrchr_loop zero str ch last_char m = out_of_fuel
strrchr_loop (suc f) str ch last_char m =
    let rest = strrchr_loop f (str + 1) ch (if m str == ch then str else last_char) m in
    if m str == 0 then ok last_char else rest

pub strrchr : (fuel str ch : ℕ) → Memory → Run ℕ
strrchr fuel str ch m = do assert (not_null str); strrchr_loop fuel str ch 0 m

strchr_loop : (fuel str ch : ℕ) → Memory → Run ℕ
strchr_loop zero str ch m = out_of_fuel
strchr_loop (suc f) str ch m =
    let rest = strchr_loop f (str + 1) ch m in
    if m str == 0 then ok 0 else if m str == ch then ok str else rest

pub strchr : (fuel str ch : ℕ) → Memory → Run ℕ
strchr fuel str ch m = do assert (not_null str); strchr_loop fuel str ch m
