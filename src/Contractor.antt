-- ===== src/Contractor.antt =====
-- The contractors of src/dreal/contractor: the status that they share, and how they are combined.
pub mod Status
pub mod Explanation
pub mod Combine
pub mod Integral
pub mod Worklist
