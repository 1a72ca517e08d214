-- ===== src/Models.antt =====
-- models/: the persisted enumerations and the columns of the tables.
mod Enums
mod Tables
pub use Enums.*
pub use Tables.*
