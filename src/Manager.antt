-- ===== src/Manager.antt =====
-- src/jekv_sector_manager.h and src/jekv_sector_manager.c: the sectors of one partition, as an array
-- with a list of active and a list of idle ones. The functions are in the children: `State` (the
-- record and its accessors), `Request` (activation and garbage collection), `Load` (the start),
-- `Recover` (the checks after a power failure) and `Query` (search, room and status).
pub mod State
pub mod Request
pub mod Recover
pub mod Load
pub mod Query
