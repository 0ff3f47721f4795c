-- ===== src/Ledger/Views.antt =====
-- The ledger that the contracts stand for: what each balance, supply, base and curve reads as,
-- whether the token is loaded or not, and how an action may change it.
mod Cells
mod Accesses
mod Assigns
pub use Cells.*
unfoldable pub use Cells.{balance_in, supply_in, base_in, curve_in}
pub use Accesses.*
unfoldable pub use Accesses.{object_at, balance, supply, base_of, curve_of}
pub use Assigns.*
