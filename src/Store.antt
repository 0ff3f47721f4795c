-- ===== src/Store.antt =====
-- src/store: the key-value storage, and the wrappers that the contracts keep their fields in.
pub mod Backend
pub mod Data
pub mod Sides
pub mod Naming
pub mod Cells
pub mod Vector
pub mod Set
