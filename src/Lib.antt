-- ===== src/Lib.antt =====
-- A model of the storage engine of rarm-db (a relational database in Rust), with proofs.
--
-- The engine keeps each table in a file of pages of 8192 bytes. A page is a slotted page: a header,
-- an array of slots that grows upwards and a heap of records that grows downwards.
-- `ClockEvictor` chooses the frame of the buffer pool that is given up when a page is loaded.
--
-- Base: the names that all modules share. `Outcome` is the result of code that may panic: every
-- slice and index is checked, and unsigned arithmetic is checked for overflow, as a build with
-- overflow checks does. Words of the machine are native numbers with `% 2 ^ w` where the code
-- casts.
-- Evictor (crates/storage/src/evictor.rs): `ClockEvictorState` with `new`, `add`, `remove` and
-- `victim`. The mutex makes each method one step. The loop of `victim` is `sweep`, by recursion on
-- the rounds left; it starts with twice the number of frames, as the code does.
-- Page (crates/storage/src/page.rs, page_id.rs, slot.rs, storage_error.rs): the layout of a page.
-- Page.Buffer is the access to the bytes of the borrowed array, with the bounds checks of slices;
-- Page.Slotted (crates/storage/src/slotted_page_view.rs) has every method of `SlottedPageView`
-- under its own name. Page.Shape states the invariant `IsSlotted`; Init, Insert, Delete, Update
-- and Compact prove the operations. The loops recur on the slots left, so no fuel is chosen.
--
-- Leaf (crates/storage/src/btree/leaf_node_view.rs and ops.rs): `LeafNodeView`, a slotted page with
-- its page id. Leaf.Codec is the interface to records, keys and their serializer, a parameter of
-- the search and of the operations; its laws are those of the order of the keys. Leaf.Rows fills it
-- with the rows of a table, the order of Value.Order and the serializer. Leaf.Search is `find_key`;
-- its loop has as many rounds as the page has items, which is enough since each round halves the
-- range. Leaf.Ops has `insert_record`, `update_record` and `merge`, and Leaf.Split has `split_and_insert`; a leaf that the source borrows
-- is passed and returned.
--
-- Frame (crates/storage/src/frame.rs, page_guard.rs, and pin_frame and unpin_frame of
-- buffer_pool_manager.rs): a frame with its pin count, beside the evictor; each method is one step.
-- Pool (crates/storage/src/buffer_pool_manager.rs): the frames, the free list, the page table and
-- the evictor. A method is split where it awaits: `reserve` is what `fetch_and_pin_frame` does
-- under the lock of the page table, `create` what `create_page` does there, and `install` and
-- `end_flush` what they do after the disk has answered. Pool.Consistent is the invariant,
-- Pool.Reachable the relation of the interleavings of these steps and the drops of guards, and
-- Pool.Halves the drop of a guard as the two steps that the code makes of it. Pool.Interleaved lets
-- any step come between those two; Pool.Linked is the invariant that is left then.
-- Pool.Fetch is `fetch_and_pin_frame` as a whole for a task that runs alone, over the interface
-- `DiskManager`, whose laws are about the pages that are stored on the disk; Pool.Contents is the
-- view of the pool and the disk as one store of pages.
-- Disk (crates/storage/src/disk_manager.rs): a file of pages for each table, with the cache of
-- handles and the next page indexes. The trait `FileSystem` of file_system.rs is the parameter
-- `FileSystem`; its laws in Disk.Pages are about the pages inside a file.
-- Disk.Next is about the lookup of the next page index, and Disk.Keeping fills the interface of
-- Pool.Fetch. A file handle that reads fewer bytes than a page in the middle of a file is left out.
--
-- Schema (crates/schema_def/src): data types, columns, constraints and tables, with the checks of
-- their constructors; a text is the list of its code points. Schema.Keys has what the constraints
-- promise.
-- Value (crates/data_model/src): the values of columns; a signed number or a float is its bit
-- pattern, a text the list of its bytes. The decimals of the crate rust_decimal are the parameter
-- `Decimals`; its law is that the 16 bytes of a decimal are read back to it. Value.PrimaryKey is
-- `Record::get_primary_key`, and Value.Order the order of values and keys; the order of decimals is a
-- parameter.
-- Serial (crates/storage/src/record_serializer.rs): records as bytes. `Attempt` is a value, an
-- error or a panic. Serial.Write has `serialize`, Serial.Read `deserialize` and Serial.Key
-- `deserialize_key` and `deserialize_primary_key`. Serial.Cell says how a value of each type is
-- stored and Serial.Layout where the values of a row stand; Written and Reading prove that the
-- writer puts them there and that the reader finds them. All loops recur on the columns.
--
-- Not modelled: how tasks wait for each other in the buffer pool, the end of `create_page` (the
-- write of the evicted page), the race of two tasks that open one file, the file system over tokio
-- and the internal nodes (crates/storage/src); the parser and printer of data types
-- (crates/schema_def), the hash and the printers of values (crates/data_model). The crates client, common, network,
-- server and sql hold no code of their own.
mod Base
pub mod Evictor
pub mod Page
pub mod Leaf
pub mod Frame
pub mod Pool
pub mod Schema
pub mod Value
pub mod Serial
pub mod Disk
mod Tests
