-- ===== src/Frame.antt =====
-- crates/storage/src/frame.rs and page_guard.rs, and `pin_frame` and `unpin_frame` of
-- crates/storage/src/buffer_pool_manager.rs: a frame of the buffer pool, and how pinning keeps the evictor in step.
-- The atomics are plain fields, so each method is one step; the locks around the data and the page
-- id are not part of the state.
pub mod Pinning
use rarm_db.Base.{
  ℕ, ◌+◌, ◌-◌, ◌%◌, ◌^◌, Bool, true, false, Option, none, some, if◌then◌else◌, ◌==◌, Outcome, done,
  panic, ◌>>=◌, unwrap,
}
use rarm_db.Evictor.{ClockEvictorState, add, remove}
use rarm_db.Page.{PageId}
use rarm_db.Page.Buffer.{Buffer}

pub record Frame : Type 0 where
  pub bytes : Buffer
  pub id : ℕ
  pub is_dirty : Bool
  pub page_id : Option PageId
  pub pin_count : ℕ

unfoldable pub new_frame : ℕ → Frame
new_frame id = record { bytes = λ i. 0; id = id; is_dirty = false; page_id = none; pin_count = 0 }

-- `fetch_sub` and the assertion that the previous count is positive; the result has that count.
unfoldable pub decrement_pin_count : Frame → Outcome (Frame × ℕ)
decrement_pin_count f =
    if f.pin_count == 0 then panic else done (record f { pin_count = f.pin_count - 1 }, f.pin_count)

-- `fetch_add` wraps around.
unfoldable pub increment_pin_count : Frame → Frame × ℕ
increment_pin_count f = (record f { pin_count = (f.pin_count + 1) % 2 ^ 64 }, f.pin_count)

abbrev pub set_dirty : Frame → Bool → Frame
set_dirty f val = record f { is_dirty = val }

abbrev pub set_page_id : Frame → Option PageId → Frame
set_page_id f page_id = record f { page_id = page_id }

-- A frame of the pool and the evictor.
pub record Pinned : Type 0 where
  pub frame : Frame
  pub evictor : ClockEvictorState

unfoldable pub pin_frame : Pinned → Outcome Pinned
pin_frame s = do
  let (frame, prev_count) = increment_pin_count s.frame
  evictor ← if prev_count == 0 then remove s.evictor s.frame.id else done s.evictor
  done (record { frame = frame; evictor = evictor })

unfoldable pub unpin_frame : Pinned → Outcome Pinned
unpin_frame s = do
  (frame, prev_count) ← decrement_pin_count s.frame
  evictor ← if prev_count == 1 then add s.evictor s.frame.id else done s.evictor
  done (record { frame = frame; evictor = evictor })

-- The drop of a `PageReadGuard` or a `PageWriteGuard` makes the same calls. No lock is held between
-- the two: `unpin_frame` and `drop_guard` are the calls of one task, which no other comes between.
abbrev pub drop_guard : Pinned → Outcome Pinned
drop_guard = unpin_frame

-- The methods of `PageWriteGuard`.
abbrev pub mark_dirty : Pinned → Pinned
mark_dirty s = record s { frame = set_dirty s.frame true }

abbrev pub guard_page_id : Pinned → Outcome PageId
guard_page_id s = unwrap s.frame.page_id
