-- ===== src/Pool.antt =====
-- crates/storage/src/buffer_pool_manager.rs: the buffer pool. A method is a sequence of atomic
-- steps, one for each stretch in which it holds the locks; between them it awaits the disk. The
-- hash maps are functions, and of the channels in page_processing_map.rs only the pages that have
-- one are kept.
pub mod Consistent
pub mod Vacant
pub mod Available
pub mod Update
pub mod Reserve
pub mod Create
pub mod Steps
pub mod Halves
pub mod Start
pub mod Reachable
pub mod Keeping
pub mod Linked
pub mod Opened
pub mod Placed
pub mod Interleaved
pub mod Fetch
pub mod Contents
pub mod Transparent
pub mod Failure
use rarm_db.Base.{
  ℕ, zero, suc, List, [], ◌∷◌, Option, none, some, Bool, true, false, ◌&&◌, ◌==◌, if◌then◌else◌,
  get_elem?, set, map, Outcome, done, panic, ◌>>=◌, unwrap,
}
use rarm_db.Page.{PageId}
use rarm_db.Page.Buffer.{Buffer}
use rarm_db.Evictor.{ClockEvictorState, new, add, victim}
use rarm_db.Frame.{
  Frame, Pinned, new_frame, set_dirty, set_page_id, pin_frame, unpin_frame, decrement_pin_count,
}

pub record BufferPoolManager : Type 0 where
  pub evictor : ClockEvictorState
  pub frames : List Frame
  pub free_frames : List ℕ
  pub fetches : PageId → Bool
  pub flushes : PageId → Bool
  pub page_table : PageId → Option ℕ

abbrev pub page_id_eq : PageId → PageId → Bool
page_id_eq p q = p.table_id == q.table_id && p.page_index == q.page_index

-- `insert` and `remove` of a hash map.
abbrev pub insert_key {ℓ} : {A : Type ℓ} → (PageId → A) → PageId → A → PageId → A
insert_key m p a q = if page_id_eq p q then a else m q

abbrev pub indices_from : ℕ → ℕ → List ℕ
indices_from i zero = []
indices_from i (suc n) = i ∷ indices_from (suc i) n

-- `BufferPoolManager::new`.
unfoldable pub new_pool : ℕ → BufferPoolManager
new_pool size = record {
  evictor = new size;
  frames = map new_frame (indices_from 0 size);
  free_frames = indices_from 0 size;
  fetches = λ p. false;
  flushes = λ p. false;
  page_table = λ p. none;
}

-- `Vec::pop`.
unfoldable pub pop : List ℕ → Option (ℕ × List ℕ)
pop [] = none
pop (x ∷ xs) = elim (pop xs) [ none ↦ some (x, []) | some (y, ys) ↦ some (y, x ∷ ys) ]

abbrev pub frame_at : BufferPoolManager → ℕ → Outcome Frame
frame_at s i = unwrap (get_elem? s.frames i)

abbrev pub with_frame : BufferPoolManager → ℕ → Frame → BufferPoolManager
with_frame s i f = record s { frames = set s.frames i f }

-- `pin_frame` and `unpin_frame`.
unfoldable pub pin : BufferPoolManager → ℕ → Outcome BufferPoolManager
pin s i = do
  f ← frame_at s i
  x ← pin_frame (record { frame = f; evictor = s.evictor })
  done (record s { frames = set s.frames i x.frame; evictor = x.evictor })

unfoldable pub unpin : BufferPoolManager → ℕ → Outcome BufferPoolManager
unpin s i = do
  f ← frame_at s i
  x ← unpin_frame (record { frame = f; evictor = s.evictor })
  done (record s { frames = set s.frames i x.frame; evictor = x.evictor })

-- The two halves of `unpin_frame` and of the drop of a guard: no lock is held from one to the other.
-- `unpin` is the two in a row, the second one when the previous count was 1.
unfoldable pub decrement : ℕ → BufferPoolManager → Outcome (BufferPoolManager × ℕ)
decrement i s = do f ← frame_at s i; x ← decrement_pin_count f; done (with_frame s i x.0, x.1)

unfoldable pub add_evictable : ℕ → BufferPoolManager → Outcome BufferPoolManager
add_evictable i s = add s.evictor i >>= λ evictor. done (record s { evictor = evictor })

-- A frame to use, with the page that is to be flushed from it.
abbrev pub Available : Type 0
Available = Option (ℕ × Option (PageId × Buffer))

abbrev evicted :
    BufferPoolManager → ClockEvictorState → Option ℕ → Outcome (BufferPoolManager × Available)
evicted s evictor none = done (record s { evictor = evictor }, none)
evicted s evictor (some i) = do
  f ← frame_at s i
  victim_page_id ← unwrap f.page_id
  done (
    record s { evictor = evictor; page_table = insert_key s.page_table victim_page_id none },
    some (i, if f.is_dirty then some (victim_page_id, f.bytes) else none),
  )

-- `none` is the error `BufferFull`.
unfoldable pub evict_page : BufferPoolManager → Outcome (BufferPoolManager × Available)
evict_page s = do (evictor, free) ← victim s.evictor; evicted s evictor free

-- The channel for the page that is to be flushed.
abbrev note_flush : BufferPoolManager × Available → BufferPoolManager × Available
note_flush (s, none) = (s, none)
note_flush (s, some (i, none)) = (s, some (i, none))
note_flush (s, some (i, some (p, bytes))) =
    (record s { flushes = insert_key s.flushes p true }, some (i, some (p, bytes)))

unfoldable pub available_frame : BufferPoolManager → Outcome (BufferPoolManager × Available)
available_frame s = elim (pop s.free_frames) [
  | some (i, rest) ↦ done (record s { free_frames = rest }, some (i, none))
  | none ↦ evict_page s >>= λ x. done (note_flush x)
]

-- What the first step of `fetch_and_pin_frame` finds.
pub data Reservation : Type 0 where
  cached : ℕ → Reservation
  reserved : ℕ → Option (PageId × Buffer) → Reservation
  buffer_full : Reservation

unfoldable pub claim :
    PageId → BufferPoolManager × Available → Outcome (BufferPoolManager × Reservation)
claim p (s, none) = done (s, buffer_full)
claim p (s, some (i, to_flush)) = do
  f ← frame_at s i
  let clean = set_dirty (set_page_id f (some p)) false
  s' ← pin (with_frame (record s { page_table = insert_key s.page_table p (some i) }) i clean) i
  done (record s' { fetches = insert_key s'.fetches p true }, reserved i to_flush)

unfoldable pub reserve : PageId → BufferPoolManager → Outcome (BufferPoolManager × Reservation)
reserve p s = elim (s.page_table p) [
  | some i ↦ pin s i >>= λ s'. done (s', cached i)
  | none ↦ available_frame s >>= λ x. claim p x
]

-- The first step of `create_page`, after the allocation of the page. `none` is the `unwrap` of
-- `BufferFull`.
unfoldable pub place :
    PageId
    → BufferPoolManager × Available
    → Outcome (BufferPoolManager × ℕ × Option (PageId × Buffer))
place p (s, none) = panic
place p (s, some (i, to_flush)) = do
  s' ← pin s i
  f ← frame_at s' i
  let used = set_page_id f (some p)
  done (
    with_frame (record s' { page_table = insert_key s'.page_table p (some i) }) i used,
    i,
    to_flush,
  )

unfoldable pub create :
    PageId → BufferPoolManager → Outcome (BufferPoolManager × ℕ × Option (PageId × Buffer))
create p s = available_frame s >>= λ x. place p x

-- The step after the read from the disk: the frame gets the page, and the channel goes.
unfoldable pub install : PageId → ℕ → Buffer → BufferPoolManager → Outcome BufferPoolManager
install p i read_buffer s = do
  f ← frame_at s i
  done (record s {
    frames = set s.frames i (record f { bytes = read_buffer });
    fetches = insert_key s.fetches p false;
  })

-- What the holder of a write guard does: it changes the bytes of its frame, and marks it dirty.
unfoldable pub write_bytes : ℕ → Buffer → BufferPoolManager → Outcome BufferPoolManager
write_bytes i bytes s = do f ← frame_at s i; done (with_frame s i (record f { bytes = bytes }))

unfoldable pub mark_dirty_at : ℕ → BufferPoolManager → Outcome BufferPoolManager
mark_dirty_at i s = do f ← frame_at s i; done (with_frame s i (set_dirty f true))

-- The step after the write of the evicted page.
abbrev pub end_flush : PageId → BufferPoolManager → BufferPoolManager
end_flush p s = record s { flushes = insert_key s.flushes p false }
