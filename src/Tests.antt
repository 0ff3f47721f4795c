-- ===== src/Tests.antt =====
-- Runs of the theorems at concrete values.
pub mod Boost
pub mod Codecs
pub mod Equations
pub mod Cells
pub mod Tokens
pub mod Transactions
pub mod Applications
pub mod Frames
pub mod Digits
pub mod Vectors
pub mod Graphs
pub mod Sets
pub mod Trees
pub mod Inserts
pub mod Reloads
