-- ===== src/Parser/Safe.antt =====
-- Parsing actions that end, and leave no more tokens than a bound.
mod Rules
mod Takes
mod Actions
pub use Rules.*
pub use Takes.*
pub use Actions.*
