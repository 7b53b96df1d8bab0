-- ===== src/Lexer/Comments.antt =====
-- The body of a block comment in `lex_source`; that of a line comment is an `advance_while`.
use back_and_forth.Prelude.{
  ℕ, Bool, true, false, ◌&&◌, not, [], ◌∷◌, Text, ◌==◌, if◌then◌else◌, tail,
}
use back_and_forth.Token.{Position}
use back_and_forth.Lexer.Chars.{peek, advance}

-- The test of the loop over a line comment.
unfoldable pub in_line_comment : ℕ → Bool
in_line_comment c = not (c == b'\n') && not (c == 0)

-- The loop behind `/*`: whether it closed, and the cursor behind it.
unfoldable pub skip_block_comment : Text → Position → Bool × Text × Position
unfolding advance
skip_block_comment [] at = (false, [], at)
skip_block_comment (c ∷ cs) at =
    let next = advance c at in
    if c == 0
    then (false, c ∷ cs, at)
    else if c == b'*' && peek cs == b'/'
    then (true, tail cs, advance b'/' next)
    else skip_block_comment cs next
