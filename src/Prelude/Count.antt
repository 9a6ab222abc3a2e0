-- ===== src/Prelude/Count.antt =====
-- Tables as lists of rows, and the laws of their operations.
mod Tables
mod Laws
mod First
unfoldable pub use Tables.{count, any, all, select, first, update_where, delete_where}
pub use Tables.{one}
pub use Laws.*
pub use First.*
