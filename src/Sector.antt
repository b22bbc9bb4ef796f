-- ===== src/Sector.antt =====
-- src/jekv_sector.h and src/jekv_sector.c: one flash sector, a header slice and 127 entry slices.
-- The functions are in the children: `State` (the record, its header, erase and init), `Write`
-- (writing and dropping items), `Find` (the search), `Load` (the scan at start) and `Copy`.
pub mod State
pub mod Write
pub mod Find
pub mod Load
pub mod Copy
