-- ===== src/Schema.antt =====
-- The database of the API: apps/api/prisma/schema.prisma. Identifiers are numbers, since the code
-- only compares them; the text of an identifier, where it is used, comes from `Env.id_text`.
mod Enums
mod Rows
mod Listings
mod Support
mod Tables
pub use Enums.*
pub use Rows.*
pub use Listings.*
pub use Support.*
pub use Tables.*
