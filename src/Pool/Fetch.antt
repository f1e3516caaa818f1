-- ===== src/Pool/Fetch.antt =====
-- `fetch_and_pin_frame` as a whole, for one task while no other runs. The disk manager is a
-- parameter. An error has the page in place of the text of its message.
use rarm_db.Base.{ℕ, Option, none, some, false, ◌≡◌, if◌then◌else◌, Outcome, done, ◌>>=◌}
use rarm_db.Page.{PageId}
use rarm_db.Page.Buffer.{Buffer}
use rarm_db.Pool.{
  BufferPoolManager, Reservation, cached, reserved, buffer_full, page_id_eq, reserve, install,
  end_flush,
}

-- `read_page` and `write_page` of crates/storage/src/disk_manager.rs; `none` is an error.
pub record DiskManager : Type 1 where
  pub Disk : Type 0
  pub read_page : Disk → PageId → Option Buffer
  pub write_page : Disk → PageId → Buffer → Option Disk

-- A page that was written is read back. The pages that are stored on a disk stay there, and a write
-- of one leaves the others as before.
pub record KeepsPages (m : DiskManager) : Type 1 where
  pub IsStored : m.Disk → PageId → Type 0
  pub read-write :
      (d d' : m.Disk) (p : PageId) (bytes : Buffer)
      → m.write_page d p bytes ≡ some d'
      → m.read_page d' p ≡ some bytes
  pub read-write_other :
      (d d' : m.Disk) (p q : PageId) (bytes : Buffer)
      → m.write_page d p bytes ≡ some d'
      → IsStored d p
      → IsStored d q
      → page_id_eq p q ≡ false
      → m.read_page d' q ≡ m.read_page d q
  pub stays :
      (d d' : m.Disk) (p q : PageId) (bytes : Buffer)
      → m.write_page d p bytes ≡ some d'
      → IsStored d q
      → IsStored d' q

pub data BufferPoolError : Type 0 where
  no_frame : BufferPoolError
  disk_read disk_write : PageId → BufferPoolError

-- The frame; an error; or the task waits for the channel of another.
pub data Fetched : Type 0 where
  fetched : ℕ → Fetched
  failed : BufferPoolError → Fetched
  waits : Fetched

module _ (m : DiskManager) where
  -- The evicted page is written at the end.
  unfoldable pub finish :
      Option (PageId × Buffer)
      → ℕ
      → BufferPoolManager
      → m.Disk
      → BufferPoolManager × m.Disk × Fetched
  finish none i s d = (s, d, fetched i)
  finish (some (q, bytes)) i s d = elim (m.write_page d q bytes) [
    | none ↦ (end_flush q s, d, failed (BufferPoolError.disk_write q))
    | some d' ↦ (end_flush q s, d', fetched i)
  ]

  unfoldable pub load :
      PageId
      → ℕ
      → Option (PageId × Buffer)
      → BufferPoolManager
      → m.Disk
      → Outcome (BufferPoolManager × m.Disk × Fetched)
  load p i to_flush s d = if s.flushes p then done (s, d, waits) else (elim (m.read_page d p) [
    | none ↦ done (s, d, failed (BufferPoolError.disk_read p))
    | some read_buffer ↦ install p i read_buffer s >>= λ s'. done (finish to_flush i s' d)
  ])

  unfoldable pub answer :
      PageId
      → BufferPoolManager × Reservation
      → m.Disk
      → Outcome (BufferPoolManager × m.Disk × Fetched)
  answer p (s, cached i) d = if s.fetches p then done (s, d, waits) else done (s, d, fetched i)
  answer p (s, reserved i to_flush) d = load p i to_flush s d
  answer p (s, buffer_full) d = done (s, d, failed BufferPoolError.no_frame)

  unfoldable pub fetch_and_pin_frame :
      PageId → BufferPoolManager → m.Disk → Outcome (BufferPoolManager × m.Disk × Fetched)
  fetch_and_pin_frame p s d = reserve p s >>= λ x. answer p x d

  -- `fetch_page_read` and `fetch_page_write` have one error for all of `fetch_and_pin_frame`; the
  -- guard that they return is its frame.
  abbrev pub buffer_full_for : Fetched → Fetched
  buffer_full_for (fetched i) = fetched i
  buffer_full_for (failed e) = failed BufferPoolError.no_frame
  buffer_full_for waits = waits

  unfoldable pub fetch_page_read :
      PageId → BufferPoolManager → m.Disk → Outcome (BufferPoolManager × m.Disk × Fetched)
  fetch_page_read p s d = fetch_and_pin_frame p s d >>= λ x. done (x.0, x.1, buffer_full_for x.2)

  unfoldable pub fetch_page_write :
      PageId → BufferPoolManager → m.Disk → Outcome (BufferPoolManager × m.Disk × Fetched)
  fetch_page_write p s d = fetch_and_pin_frame p s d >>= λ x. done (x.0, x.1, buffer_full_for x.2)
