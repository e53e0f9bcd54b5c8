-- ===== src/Store.antt =====
-- Services as actions on the database. A write made before an exception stays, unless the action
-- is a transaction (`prisma.$transaction`), which then leaves the database as it was.
mod Monad
mod Queries
pub use Monad.*
pub use Queries.*
