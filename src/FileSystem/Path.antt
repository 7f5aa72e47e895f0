-- ===== src/FileSystem/Path.antt =====
-- fs/fs.c, `path_parse`: the first name of a path.
--
-- A pointer is a number, and the memory a function from addresses to bytes. A loop has fuel; more fuel
-- than the path has characters is enough.
use recover_os.Prelude.{
  ℕ, zero, suc, ◌+◌, true, false, ◌||◌, ◌==◌, if◌then◌else◌, Option, none, some, Run, ok,
  out_of_fuel, ◌>>=◌,
}
use recover_os.Strings.{Memory, store}

-- '/'
abbrev pub slash : ℕ
slash = 47

-- `while (*(++pathname) == '/') {}`, from the incremented pointer on
unfoldable pub skip_slashes : (fuel pathname : ℕ) → Memory → Run ℕ
skip_slashes zero p m = out_of_fuel
skip_slashes (suc f) p m = elim (m p == slash) [ true ↦ skip_slashes f (p + 1) m | false ↦ ok p ]

-- The loop that copies the name: the two pointers behind it, and the memory.
unfoldable pub copy_name : (fuel pathname name_store : ℕ) → Memory → Run (ℕ × ℕ × Memory)
copy_name zero p d m = out_of_fuel
copy_name (suc f) p d m = elim ((m p == slash) || (m p == 0)) [
  | true ↦ ok (p, d, m)
  | false ↦ copy_name f (p + 1) (d + 1) (store m d (m p))
]

-- A result of none is NULL.
unfoldable pub path_parse : (fuel pathname name_store : ℕ) → Memory → Run (Option ℕ × Memory)
path_parse fuel pathname name_store m = do
  p ← if m pathname == slash then skip_slashes fuel (pathname + 1) m else ok pathname
  (p, d, m) ← copy_name fuel p name_store m
  let m' : Memory = store m d 0
  ok (if m' p == 0 then none else some p, m')
