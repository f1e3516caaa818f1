-- ===== src/Tests/Fetches.antt =====
-- A fetch over the disk manager of a file system in memory, and one over a disk that fails.
use rarm_db.Base.{ℕ, ◌≡◌, refl, ap, sym, ◌∙◌, none, some, Returns, arith}
use rarm_db.Frame.{new_frame}
use rarm_db.Pool.{new_pool}
use rarm_db.Pool.Start.{new_frame_at, new_pool-IsConsistent}
use rarm_db.Pool.Reachable.{HasRoom}
use rarm_db.Pool.Fetch.{DiskManager, fetch_and_pin_frame}
use rarm_db.Disk.{read_page, get_file_handle}
use rarm_db.Disk.Keeping.{disk_manager, disk_manager-KeepsPages, writes-IsStored}
use rarm_db.Tests.Files.{
  file_size, in_memory, in_memory-KeepsFiles, in_memory_writes, fresh, page_three,
}
use rarm_db.Pool.Contents.{IsCoherent}
use rarm_db.Pool.Transparent.{IsQuiet, FramesStored, Fetches, fetch_and_pin_frame-Fetches}
use rarm_db.Pool.Failure.{FailsToRead, fetch_and_pin_frame-FailsToRead}

-- A disk that reads no page.
abbrev broken : DiskManager
broken = record { Disk = Unit; read_page = λ d p. none; write_page = λ d p bytes. none }

new_pool-Room : (n : ℕ) → HasRoom (new_pool n)
unfolding new_pool new_frame
new_pool-Room n i f e =
    let unpinned : f.pin_count ≡ 0 = ap (λ x. x.pin_count) (new_frame_at n 0 i f e) in omega arith

new_pool-IsCoherent : IsCoherent (disk_manager in_memory) (new_pool 2) fresh
unfolding new_pool new_frame
new_pool-IsCoherent i f q e page clean =
    let no : none ≡ some q = sym (ap (λ x. x.page_id) (new_frame_at 2 0 i f e)) ∙ page in
    absurd (cc)

new_pool-IsQuiet : IsQuiet (new_pool 2)
unfolding new_pool
new_pool-IsQuiet q = (refl, refl)

new_pool-FramesStored :
    FramesStored
      (disk_manager in_memory)
      (disk_manager-KeepsPages in_memory in_memory-KeepsFiles)
      (new_pool 2)
      fresh
unfolding new_pool new_frame
new_pool-FramesStored i f q e page =
    let no : none ≡ some q = sym (ap (λ x. x.page_id) (new_frame_at 2 0 i f e)) ∙ page in
    absurd (cc)

-- A page of a file, through the disk manager.
fetch_and_pin_frame-Fetches_example :
    Returns (fetch_and_pin_frame (disk_manager in_memory) page_three (new_pool 2) fresh) (
      Fetches
        (disk_manager in_memory)
        (disk_manager-KeepsPages in_memory in_memory-KeepsFiles)
        page_three
        (new_pool 2)
        fresh)
unfolding read_page get_file_handle
fetch_and_pin_frame-Fetches_example =
    fetch_and_pin_frame-Fetches (disk_manager in_memory) (new_pool 2) fresh page_three (λ k. 1)
      (disk_manager-KeepsPages in_memory in_memory-KeepsFiles)
      (λ q b stored. writes-IsStored in_memory in_memory_writes fresh q b stored)
      new_pool-FramesStored (omega arith, (file_size, refl, omega arith))
      (new_pool-IsConsistent 2 (omega arith)) (new_pool-Room 2) new_pool-IsQuiet new_pool-IsCoherent
      refl

fetch_and_pin_frame-FailsToRead_example :
    Returns
      (fetch_and_pin_frame broken page_three (new_pool 2) tt)
      (FailsToRead broken page_three (new_pool 2) tt)
unfolding new_pool
fetch_and_pin_frame-FailsToRead_example =
    fetch_and_pin_frame-FailsToRead broken (new_pool 2) tt page_three
      (new_pool-IsConsistent 2 (omega arith)) (new_pool-Room 2) new_pool-IsQuiet refl refl
