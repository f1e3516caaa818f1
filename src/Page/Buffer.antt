-- ===== src/Page/Buffer.antt =====
-- The buffer of a page, `&mut [u8; PAGE_SIZE]`: a byte for each offset below the page size. Every
-- access checks its range, and panics as the slice operations do.
pub mod Laws
use rarm_db.Base.{
  ℕ, zero, suc, ◌+◌, ◌-◌, List, [], ◌∷◌, if◌then◌else◌, ltb, leb, ◌==◌, ◌&&◌, length, get_or,
  Outcome, done, panic, ◌>>=◌, from_le_bytes, to_le_bytes,
}
use rarm_db.Page.{page_size}

abbrev pub Buffer : Type 0
Buffer = ℕ → ℕ

-- The bytes at `off`, `off + 1`, ... and what stays after a write of `data` at `off`.
unfoldable pub slice : Buffer → ℕ → ℕ → List ℕ
slice b off zero = []
slice b off (suc n) = b off ∷ slice b (off + 1) n

unfoldable pub overlay : Buffer → ℕ → List ℕ → Buffer
overlay b off bytes i =
    if leb off i && ltb i (off + length bytes) then get_or bytes (i - off) 0 else b i

unfoldable pub move : Buffer → ℕ → ℕ → ℕ → Buffer
move b src n dst i = if leb dst i && ltb i (dst + n) then b (src + (i - dst)) else b i

unfoldable pub zeroed : Buffer → ℕ → ℕ → Buffer
zeroed b off n i = if leb off i && ltb i (off + n) then 0 else b i

-- `&buffer[off..off + n]`
unfoldable pub read_slice : Buffer → ℕ → ℕ → Outcome (List ℕ)
read_slice b off n = if ltb page_size (off + n) then panic else done (slice b off n)

-- `buffer[off..off + n].copy_from_slice(bytes)`
unfoldable pub write_slice : Buffer → ℕ → ℕ → List ℕ → Outcome Buffer
write_slice b off n bytes =
    if ltb page_size (off + n)
    then panic
    else if length bytes == n
    then done (overlay b off bytes)
    else panic

-- `buffer.copy_within(src..src + n, dst)`
unfoldable pub copy_within : Buffer → ℕ → ℕ → ℕ → Outcome Buffer
copy_within b src n dst =
    if ltb page_size (src + n)
    then panic
    else if ltb page_size (dst + n)
    then panic
    else done (move b src n dst)

-- `buffer[off..off + n].fill(0)`
unfoldable pub fill_zero : Buffer → ℕ → ℕ → Outcome Buffer
fill_zero b off n = if ltb page_size (off + n) then panic else done (zeroed b off n)

-- The word of two bytes at `off`, where both lie in the page.
unfoldable pub u16_at : Buffer → ℕ → ℕ
u16_at b off = from_le_bytes (slice b off 2)

unfoldable pub u32_at : Buffer → ℕ → ℕ
u32_at b off = from_le_bytes (slice b off 4)
