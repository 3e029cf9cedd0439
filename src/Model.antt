-- ===== src/Model.antt =====
-- The data model of model.go: the string constants as enumerations, the rows of the tables, the
-- inputs of the repository's operations, and the errors.
mod Enums
mod Rows
mod Inputs
mod Requests
mod Providers
mod External
mod Lists
unfoldable pub use Enums.*
pub use Rows.*
pub use Inputs.*
pub use Requests.*
pub use Providers.*
pub use External.*
pub use Lists.*
