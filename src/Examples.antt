-- ===== src/Examples.antt =====
-- Concrete runs of the theorems, and tests of the operations.
pub mod World
pub mod Paying
pub mod Hiring
pub mod SigningIn
pub mod Probing
pub mod Scoring
pub mod Opening
pub mod Settling
pub mod Indexing
pub mod Classing
pub mod Syncing
pub mod Bookmarking
