-- ===== src/Parser.antt =====
-- src/parser.c: the tokens of a program, read by recursive descent.
mod Kinds
mod Stream
mod Expressions
mod Statements
mod Blocks
mod Program
pub mod Safe
pub mod TotalExpressions
pub mod TotalStatements
pub mod TotalBranches
pub mod TotalCases
pub mod TotalBlocks
pub mod Total
pub mod BeginBlock
pub mod Grammar
pub mod Reads
pub mod Shape
pub mod Precedence
pub mod Operands
pub mod ExpressionTrees
unfoldable pub use Kinds.*
unfoldable pub use Stream.*
unfoldable pub use Expressions.*
unfoldable pub use Statements.*
unfoldable pub use Blocks.*
unfoldable pub use Program.*
