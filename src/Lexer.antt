-- ===== src/Lexer.antt =====
-- src/lexer.c: the source text as a list of bytes, cut into tokens.
mod Chars
mod Words
mod Strings
mod Comments
mod Scan
pub mod Trace
pub mod Rules
pub mod Place
pub mod Classes
pub mod Shapes
pub mod StringShape
pub mod Keywords
pub mod Arms
pub mod Order
pub mod Print
pub mod Literals
pub mod Lexemes
pub mod RoundTrip
unfoldable pub use Chars.*
unfoldable pub use Words.*
unfoldable pub use Strings.*
unfoldable pub use Comments.*
unfoldable pub use Scan.*
