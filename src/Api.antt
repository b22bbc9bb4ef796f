-- ===== src/Api.antt =====
-- src/jekv_base.c: the public interface. Every call checks its parameters, takes the lock, checks
-- the handle and calls the layer below. Calls run one at a time under the lock, so that it is no
-- part of the state. A pointer that may be NULL is an `Option`, or a `Bool` where only that counts.
pub mod Sessions
pub mod Values
pub mod Entries
pub mod Refusals
pub mod Calls
pub mod RoundTrip
pub mod Numbers
pub mod Deletion
pub mod Walks
