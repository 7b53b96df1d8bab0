-- ===== src/FileSystem.antt =====
-- src/runtime/i386-disk.c: the BAFS1 file system of the i386 runtime.
mod Layout
mod Directory
mod Encoding
mod Allocate
mod Operations
mod Files
mod Paths
unfoldable pub use Layout.*
unfoldable pub use Directory.*
unfoldable pub use Encoding.*
unfoldable pub use Allocate.*
unfoldable pub use Operations.*
unfoldable pub use Files.*
unfoldable pub use Paths.*
pub mod FirstOverlap
pub mod FirstFit
pub mod Splice
pub mod EntryBytes
pub mod Commit
pub mod WriteTotal
