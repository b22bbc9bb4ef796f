-- ===== src/Storage.antt =====
-- src/jekv_storage.h and src/jekv_storage.c: groups and typed items of one partition. The functions
-- are in the children: `State` (the record, and the walk over the items of a sector), `Groups`,
-- `Check` (blobs at the start), `Blob` and `WriteBlob` (segments of a blob), `Items` (write, read,
-- delete) and `Opening`.
pub mod State
pub mod Groups
pub mod Check
pub mod Blob
pub mod WriteBlob
pub mod Items
pub mod Opening
