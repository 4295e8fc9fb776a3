-- ===== src/Hires.antt =====
-- app/routers/hires.py and app/routers/escrow_hires.py: a hire from its creation to its payment or its
-- job, and its theorems.
pub mod Types
pub mod Create
pub mod Pay
pub mod Rows
pub mod Payment
pub mod Sweep
pub mod Creation
pub mod Jobs
pub mod Escrow
pub mod Opening
pub mod Submit
pub mod Table
pub mod Steps
pub mod Ledger
pub mod Closed
