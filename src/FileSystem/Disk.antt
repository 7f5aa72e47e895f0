-- ===== src/FileSystem/Disk.antt =====
-- What the file system knows of a disk, and the layout of its words.
--
-- A sector is what `ide_read` and `ide_write` of device/ide.c move, as the bytes at its offsets.
use recover_os.Prelude.{ℕ, ◌+◌, ◌-◌, ◌*◌, ◌^◌, ◌&&◌, ltb, leb, if◌then◌else◌}

abbrev pub block_size : ℕ
block_size = 512

-- Bytes from a pointer on.
abbrev pub Buffer : Type 0
Buffer = ℕ → ℕ

-- The sector at each logical block address.
abbrev pub Disk : Type 0
Disk = ℕ → Buffer

-- The 32-bit word at index `i`, its lowest byte first.
unfoldable pub word : Buffer → ℕ → ℕ
word b i = b (4 * i) + 256 * b (4 * i + 1) + 256 ^ 2 * b (4 * i + 2) + 256 ^ 3 * b (4 * i + 3)

-- A block is copied to an offset of a buffer.
abbrev pub copy_block : (at : ℕ) → (block : Buffer) → Buffer → Buffer
copy_block at block buf = λ i. if leb at i && ltb i (at + block_size) then block (i - at) else buf i
