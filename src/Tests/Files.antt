-- ===== src/Tests/Files.antt =====
-- A write of a page and reads of it and of another page, over a file system in memory.
use native.Mathlib.Decide.{ℕ_discrete}
use mathlib.Core.Bool.{true≢false}
use rarm_db.Base.{
  ◌+◌, Bool, leb, ◌*◌, none, Bool-cases, Returns, ℕ, ◌≡◌, ◌∙◌, inl, inr, refl, ap, sym, some, true,
  ◌==◌, ◌&&◌, eq→==, ne→==, if◌then◌else◌, arith,
}
use rarm_db.Page.{PageId, page_size}
use rarm_db.Page.Buffer.{Buffer}
use rarm_db.Disk.{allocate_page, FileSystem, Disks, get_file_handle, new_disks, write_page}
use rarm_db.Disk.Next.{Allocated, allocate_page-Allocated}
use rarm_db.Disk.Pages.{KeepsFiles, Inside, Apart, same_page, bytes_read, read_page-write_page}

abbrev pub Files : Type 0
Files = ℕ → ℕ → Buffer

abbrev pub put : Files → ℕ → ℕ → Buffer → Files
put w t off bytes t' off' = if (t == t') && (off == off') then bytes else w t' off'

abbrev pub file_size : ℕ
file_size = 8 * page_size

abbrev pub room : ℕ → Bool
room off = leb (off + page_size) file_size

-- Every file is there with eight pages, and there is no space for more. A read past the end leaves
-- the buffer.
abbrev pub in_memory : FileSystem
in_memory = record {
  World = Files;
  open_file = λ w t. some file_size;
  create_file = λ w t. some w;
  file_exists = λ w t. some true;
  read_at = λ w t off buffer. if room off then some (w t off) else some buffer;
  write_at = λ w t off bytes. if room off then some (put w t off bytes) else none;
}

pub put-Apart :
    (w : Files) (t off t' off' : ℕ) (bytes : Buffer)
    → Apart in_memory w t off t' off'
    → put w t off bytes t' off' ≡ w t' off'
put-Apart w t off t' off' bytes (inl n) = rw (ne→== t t' n)
put-Apart w t off t' off' bytes (inr (inside, h)) = elim (ℕ_discrete t t') [
  | no n ↦ rw (ne→== t t' n)
  | yes e ↦ rw (eq→== t t' e, ne→== off off' (λ same. omega arith))
]

pub write_at-put :
    (w w' : Files) (t off : ℕ) (bytes : Buffer)
    → (if room off then some (put w t off bytes) else none) ≡ some w'
    → (room off ≡ true) × (put w t off bytes ≡ w')
write_at-put w w' t off bytes e = elim (Bool-cases (room off)) [
  | inl fits ↦ (fits, let q : some (put w t off bytes) ≡ some w' = rw fits at e in cc)
  | inr full ↦ let no : none ≡ some w' = rw full at e in absurd (cc)
]

abbrev pub in_memory-KeepsFiles : KeepsFiles in_memory
in_memory-KeepsFiles = record {
  read-write = λ w w' t off bytes buffer e.
      let (fits, q) = write_at-put w w' t off bytes e in
      rw fits (ap (λ x. some (x t off)) (sym q) ∙ (rw (eq→== t t refl, eq→== off off refl)));
  read-write_other = λ w w' t off t' off' bytes buffer e a.
      let (fits, q) = write_at-put w w' t off bytes e in
      ap (λ x. if room off' then some x else some buffer)
        (ap (λ x. x t' off') (sym q) ∙ put-Apart w t off t' off' bytes a);
  opens-write = λ w w' t off t' bytes e. refl;
  inside-write = λ w w' t off t' off' bytes e h. h;
}

-- Pages inside the files are written.
pub in_memory_writes :
    (w : Files) (t off : ℕ) (bytes : Buffer)
    → Inside in_memory w t off
    → (w' : Files) × (in_memory.write_at w t off bytes ≡ some w')
in_memory_writes w t off bytes (n, e, h) =
    let same : file_size ≡ n = cc in
    let fits : room off ≡ true = ground arith in (put w t off bytes, rw fits)

abbrev pub fresh : Disks in_memory
fresh = new_disks in_memory (λ t off k. 1)

abbrev sevens : Buffer
sevens = λ k. 7

abbrev pub page_three : PageId
page_three = record { table_id = 2; page_index = 3 }

abbrev page_five : PageId
page_five = record { table_id = 2; page_index = 5 }

read_page-write_page_example :
    bytes_read in_memory page_five sevens (write_page in_memory page_three sevens fresh).0 ≡ (
      if same_page page_three page_five
      then some sevens
      else bytes_read in_memory page_five sevens fresh)
unfolding write_page get_file_handle
read_page-write_page_example =
    read_page-write_page in_memory in_memory-KeepsFiles fresh page_three page_five sevens sevens
      (omega arith) (inr (omega arith, (file_size, refl, omega arith))) refl

allocate_page-Allocated_example : Returns (allocate_page in_memory 2 fresh) (Allocated in_memory 2)
allocate_page-Allocated_example =
    allocate_page-Allocated in_memory fresh 2 (λ t e. absurd (true≢false (sym e)))
