-- ===== src/Sema.antt =====
-- src/sema.c: the semantic analysis of a program.
mod Builtins
mod Env
mod Matching
mod Resolve
mod Types
mod Validate
mod ValidateBlock
mod Returns
mod ValidateFunction
mod Declarations
mod Infer
mod InferBlock
mod Analyze
pub mod DistinctNames
pub mod Kept
pub mod InferKept
pub mod InferBlockKept
pub mod Runs
pub mod LeavesByReturn
pub mod Reports
pub mod BlockReports
pub mod Jumps
pub mod StepScope
pub mod Typing
pub mod OperatorTyping
pub mod WellTyped
pub mod FunctionRuns
pub mod WellResolved
pub mod Assign
pub mod Supplied
pub mod ResolveTree
pub mod Accepted
unfoldable pub use Builtins.*
unfoldable pub use Env.*
unfoldable pub use Matching.*
unfoldable pub use Resolve.*
unfoldable pub use Types.*
unfoldable pub use Validate.*
unfoldable pub use ValidateBlock.*
unfoldable pub use Returns.*
unfoldable pub use ValidateFunction.*
unfoldable pub use Declarations.*
unfoldable pub use Infer.*
unfoldable pub use InferBlock.*
unfoldable pub use Analyze.*
