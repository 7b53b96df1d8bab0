-- ===== src/Lexer/Chars.antt =====
-- The cursor of `Lexer`: the source from `current` on, `line` and `column`; `peek` and
-- `advance_char`; the character classes of <ctype.h> in the C locale.
use back_and_forth.Prelude.{
  ℕ, ◌+◌, Bool, ◌&&◌, ◌||◌, List, [], ◌∷◌, ◌++◌, Text, leb, ◌==◌, if◌then◌else◌,
}
use back_and_forth.Token.{Position, Token}
use back_and_forth.Diagnostic.{Diagnostics}

-- `lexer->source[lexer->current]`; a C string ends with a NUL.
abbrev pub peek : Text → ℕ
peek [] = 0
peek (c ∷ cs) = c

-- The effect of `advance_char` on `line` and `column` when it reads `ch`.
unfoldable pub advance : ℕ → Position → Position
advance ch at =
    if ch == b'\n'
    then record { line = at.line + 1; column = 1 }
    else record at { column = at.column + 1 }

pub record Lexer : Type 0 where
  pub source : Text
  pub at : Position
  pub tokens : List Token
  pub diag : Diagnostics

abbrev pub start_position : Position
start_position = record { line = 1; column = 1 }

-- `token_push`; the growth of the array is not modelled.
abbrev pub token_push : Lexer → Token → Lexer
token_push l t = record l { tokens = l.tokens ++ (t ∷ []) }

unfoldable pub is_digit : ℕ → Bool
is_digit c = leb b'0' c && leb c b'9'

unfoldable pub is_alpha : ℕ → Bool
is_alpha c = (leb b'a' c && leb c b'z') || (leb b'A' c && leb c b'Z')

-- The test of the loop of `lex_identifier`.
unfoldable pub is_word : ℕ → Bool
unfolding is_alpha is_digit
is_word c = is_alpha c || is_digit c || c == b'_'

-- `while (test(peek(lexer))) advance_char(lexer);` for a test that fails at NUL.
unfoldable pub advance_while : (ℕ → Bool) → Text → Position → Text × Position
unfolding advance
advance_while test [] at = ([], at)
advance_while test (c ∷ cs) at =
    if test c then advance_while test cs (advance c at) else (c ∷ cs, at)
