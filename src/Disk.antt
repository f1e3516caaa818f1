-- ===== src/Disk.antt =====
-- crates/storage/src/disk_manager.rs: one file of pages for each table. The file system
-- (file_system.rs, over tokio) is a parameter: a file is named by its table id, and a handle by its
-- file. Each method is one step.
pub mod Pages
pub mod Next
pub mod Keeping
use rarm_db.Base.{
  ℕ, ◌+◌, ◌*◌, ◌/◌, ◌%◌, ◌^◌, Option, none, some, Bool, true, false, ◌==◌, if◌then◌else◌, Outcome,
  done, panic, ◌>>=◌, unwrap,
}
use rarm_db.Page.{PageId, page_size}
use rarm_db.Page.Buffer.{Buffer}

-- `open_file` with the length of the file, `create_file` after `create_dir_all`, `file_exists`,
-- and `read_at` and `write_at` of a page of bytes at an offset of the file of a table. `read_at`
-- has the buffer that it fills. `none` is an error.
pub record FileSystem : Type 1 where
  pub World : Type 0
  pub open_file : World → ℕ → Option ℕ
  pub create_file : World → ℕ → Option World
  pub file_exists : World → ℕ → Option Bool
  pub read_at : World → ℕ → ℕ → Buffer → Option Buffer
  pub write_at : World → ℕ → ℕ → Buffer → Option World

abbrev pub zero_buffer : Buffer
zero_buffer = λ i. 0

-- The offset of a page, on `u64`.
abbrev pub offset_of : ℕ → ℕ
offset_of page_index = page_index * page_size % 2 ^ 64

abbrev pub insert_id {ℓ} : {A : Type ℓ} → (ℕ → A) → ℕ → A → ℕ → A
insert_id m t a t' = if t == t' then a else m t'

abbrev pub or_insert : Option ℕ → ℕ → Option ℕ
or_insert none n = some n
or_insert (some k) n = some k

module _ (fs : FileSystem) where
  pub record Disks : Type 0 where
    pub world : fs.World
    pub file_handles : ℕ → Bool
    pub next_page_ids : ℕ → Option ℕ

  -- `DiskManager::new`.
  abbrev pub new_disks : fs.World → Disks
  new_disks w = record { world = w; file_handles = λ t. false; next_page_ids = λ t. none }

  abbrev pub with_handle : ℕ → Disks → ℕ → Disks
  with_handle table_id s file_length = record s {
    file_handles = insert_id s.file_handles table_id true;
    next_page_ids =
        insert_id s.next_page_ids table_id
          (or_insert (s.next_page_ids table_id) (file_length / page_size % 2 ^ 32));
  }

  unfoldable pub get_file_handle : ℕ → Disks → Option Disks
  get_file_handle table_id s =
      if s.file_handles table_id then some s else (elim (fs.open_file s.world table_id) [
        | none ↦ none
        | some file_length ↦ some (with_handle table_id s file_length)
      ])

  abbrev pub allocate_at : ℕ → ℕ → Disks → Option fs.World → Disks × Option PageId
  allocate_at table_id next_index s none = (s, none)
  allocate_at table_id next_index s (some w) =
      (record s { world = w }, some (record { table_id = table_id; page_index = next_index }))

  abbrev pub allocate_next : ℕ → Disks → Option Disks → Outcome (Disks × Option PageId)
  allocate_next table_id s none = done (s, none)
  allocate_next table_id s (some s') = unwrap (s'.next_page_ids table_id) >>= λ next_index. done (
      allocate_at table_id next_index
        (record s' {
          next_page_ids = insert_id s'.next_page_ids table_id (some ((next_index + 1) % 2 ^ 32));
        })
        (fs.write_at s'.world table_id (offset_of next_index) zero_buffer))

  unfoldable pub allocate_page : ℕ → Disks → Outcome (Disks × Option PageId)
  allocate_page table_id s = allocate_next table_id s (get_file_handle table_id s)

  unfoldable pub create_table_file : ℕ → Disks → Option Disks
  create_table_file table_id s = elim (fs.create_file s.world table_id) [
    | none ↦ none
    | some w ↦ some (record {
      world = w;
      file_handles = insert_id s.file_handles table_id true;
      next_page_ids = insert_id s.next_page_ids table_id (some 0);
    })
  ]

  abbrev pub read_at_handle : PageId → Buffer → Disks → Option Disks → Disks × Option Buffer
  read_at_handle p buffer s none = (s, none)
  read_at_handle p buffer s (some s') =
      (s', fs.read_at s'.world p.table_id (offset_of p.page_index) buffer)

  unfoldable pub read_page : PageId → Buffer → Disks → Disks × Option Buffer
  read_page p buffer s = read_at_handle p buffer s (get_file_handle p.table_id s)

  unfoldable pub table_file_exists : ℕ → Disks → Option Bool
  table_file_exists table_id s = fs.file_exists s.world table_id

  -- With whether the write did not fail.
  abbrev pub written : Disks → Option fs.World → Disks × Bool
  written s none = (s, false)
  written s (some w) = (record s { world = w }, true)

  abbrev pub write_at_handle : PageId → Buffer → Disks → Option Disks → Disks × Bool
  write_at_handle p buffer s none = (s, false)
  write_at_handle p buffer s (some s') =
      written s' (fs.write_at s'.world p.table_id (offset_of p.page_index) buffer)

  unfoldable pub write_page : PageId → Buffer → Disks → Disks × Bool
  write_page p buffer s = write_at_handle p buffer s (get_file_handle p.table_id s)
