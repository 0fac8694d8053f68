-- ===== src/Tasks.antt =====
-- The life of a task in the database: what the generator, the solver, the screener and the judge read
-- and write there (tau/db/).
pub mod Rows
pub mod Generation
pub mod Screening
pub mod Solving
pub mod Judgments
pub mod Qualification
pub mod Invariant
pub mod Run
