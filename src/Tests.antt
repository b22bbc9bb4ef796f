-- ===== src/Tests.antt =====
-- The theorems at concrete inputs: `Data` has the inputs, the other children apply the theorems.
pub mod Data
pub mod Flashing
pub mod Searching
pub mod Managing
pub mod Sessions
pub mod Storing
pub mod Framing
pub mod Walking
pub mod Porting
