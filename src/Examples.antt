-- ===== src/Examples.antt =====
-- Concrete data, the theorems at that data, and runs of the code.
mod Data
mod Trees
mod Store
mod Programs
mod Use
mod Batches
mod Candidates
mod Plans
mod Ancestors
