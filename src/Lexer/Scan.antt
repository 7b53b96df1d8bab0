-- ===== src/Lexer/Scan.antt =====
-- `lex_source`: the loop over the source and its `switch (ch)`.
use back_and_forth.Prelude.{
  ℕ, zero, suc, true, false, ◌||◌, List, [], ◌∷◌, Text, codes, ◌==◌, if◌then◌else◌, length, pos,
}
use back_and_forth.Token.{Position, Token, TokenKind}
use back_and_forth.Diagnostic.{
  Diagnostics, diag_error, unterminated_block_comment, expected_second, unexpected_character,
}
use back_and_forth.Lexer.Chars.{
  Lexer, token_push, peek, advance, advance_while, is_alpha, is_digit, start_position,
}
use back_and_forth.Lexer.Words.{lex_identifier, lex_number}
use back_and_forth.Lexer.Strings.{lex_string}
use back_and_forth.Lexer.Comments.{in_line_comment, skip_block_comment}

-- `add_simple`
abbrev pub add_simple : Lexer → TokenKind → Position → Text → Lexer
add_simple l kind at text =
    token_push l (record { kind = kind; text = text; value = pos 0; at = at })

-- What an arm of the `switch` does. `pair` reads a second byte with `advance_char` first.
pub data Action : Type 0 where
  skip line_comment block_comment literal word number : Action
  simple pair : TokenKind → Text → Action
  lone unexpected : ℕ → Action

-- An operator that the byte `second` may extend.
abbrev maybe_pair : ℕ → ℕ → TokenKind → Text → TokenKind → Text → Action
maybe_pair next second two two_text one one_text =
    if next == second then pair two two_text else simple one one_text

-- The arm taken at `ch`, where `next` is `peek(&lexer)` behind it.
unfoldable pub classify : ℕ → ℕ → Action
unfolding is_alpha is_digit
classify ch next =
    if ch == b' ' || ch == b'\t' || ch == b'\r'
    then skip
    else if ch == b'\n'
    then simple TokenKind.newline (codes "\\n")
    else if ch == b'/'
    then if next == b'/'
      then line_comment
      else if next == b'*'
      then block_comment
      else maybe_pair next b'=' TokenKind.slash_equal (codes "/=") TokenKind.slash (codes "/")
    else if ch == b'{'
    then simple TokenKind.lbrace (codes "{")
    else if ch == b'}'
    then simple TokenKind.rbrace (codes "}")
    else if ch == b'('
    then simple TokenKind.lparen (codes "(")
    else if ch == b')'
    then simple TokenKind.rparen (codes ")")
    else if ch == b','
    then simple TokenKind.comma (codes ",")
    else if ch == b':'
    then simple TokenKind.colon (codes ":")
    else if ch == b';'
    then simple TokenKind.semicolon (codes ";")
    else if ch == b'.'
    then simple TokenKind.dot (codes ".")
    else if ch == b'='
    then maybe_pair next b'=' TokenKind.equal_equal (codes "==") TokenKind.equal (codes "=")
    else if ch == b'+'
    then maybe_pair next b'=' TokenKind.plus_equal (codes "+=") TokenKind.plus (codes "+")
    else if ch == b'*'
    then maybe_pair next b'=' TokenKind.star_equal (codes "*=") TokenKind.star (codes "*")
    else if ch == b'%'
    then maybe_pair next b'=' TokenKind.percent_equal (codes "%=") TokenKind.percent (codes "%")
    else if ch == b'<'
    then maybe_pair next b'=' TokenKind.less_equal (codes "<=") TokenKind.less (codes "<")
    else if ch == b'>'
    then maybe_pair next b'=' TokenKind.greater_equal (codes ">=") TokenKind.greater (codes ">")
    else if ch == b'!'
    then maybe_pair next b'=' TokenKind.bang_equal (codes "!=") TokenKind.bang (codes "!")
    else if ch == b'&'
    then if next == b'&' then pair TokenKind.and_and (codes "&&") else lone b'&'
    else if ch == b'|'
    then if next == b'|' then pair TokenKind.or_or (codes "||") else lone b'|'
    else if ch == b'-'
    then if next == b'>'
      then pair TokenKind.arrow (codes "->")
      else maybe_pair next b'=' TokenKind.minus_equal (codes "-=") TokenKind.minus (codes "-")
    else if ch == b'"'
    then literal
    else if is_alpha ch || ch == b'_'
    then word
    else if is_digit ch
    then number
    else unexpected ch

-- `advance_char`, which the `switch` calls only where `peek` has seen a byte.
abbrev pub advance_over : Text → Lexer → Lexer
advance_over [] l = l
advance_over (c ∷ cs) l = record l { source = cs; at = advance c l.at }

abbrev pub advance_char : Lexer → Lexer
advance_char l = advance_over l.source l

-- The arm itself: `where_at` and `start` are the position and the source at the token's first
-- byte, and `l` is the lexer behind that byte.
unfoldable pub perform : Action → Position → Text → Lexer → Lexer
unfolding advance advance_while in_line_comment skip_block_comment lex_string lex_identifier
    lex_number
perform skip where_at start l = l
perform line_comment where_at start l =
    let (rest, at) = advance_while in_line_comment l.source l.at in
    record l { source = rest; at = at }
perform block_comment where_at start l =
    let opened = advance_char l in
    let (closed, rest, at) = skip_block_comment opened.source opened.at in
    record l {
      source = rest;
      at = at;
      diag = if closed then l.diag else diag_error l.diag where_at unterminated_block_comment;
    }
perform literal where_at start l = lex_string where_at l
perform word where_at start l = lex_identifier where_at start l
perform number where_at start l = lex_number where_at start l
perform (simple kind text) where_at start l = add_simple l kind where_at text
perform (pair kind text) where_at start l = add_simple (advance_char l) kind where_at text
perform (lone ch) where_at start l = record l {
  diag = diag_error l.diag where_at (expected_second ch);
}
perform (unexpected ch) where_at start l = record l {
  diag = diag_error l.diag where_at (unexpected_character ch);
}

-- One round of the loop.
unfoldable pub lex_token : Lexer → Lexer
lex_token l =
    let behind = advance_char l in
    perform (classify (peek l.source) (peek behind.source)) l.at l.source behind

-- `while (peek(&lexer) != '\0')`, with fuel for the rounds.
unfoldable pub lex_loop : ℕ → Lexer → Lexer
lex_loop zero l = l
lex_loop (suc fuel) l = elim (peek l.source == 0) [ true ↦ l | false ↦ lex_loop fuel (lex_token l) ]

abbrev pub initial : Text → Lexer
initial source = record { source = source; at = start_position; tokens = []; diag = [] }

-- The tokens in `out` and the reports. A round reads at least a byte, so the length of the source
-- is enough fuel.
unfoldable pub lex_source : Text → List Token × Diagnostics
unfolding lex_loop lex_token classify perform
lex_source source =
    let l = lex_loop (length source) (initial source) in
    let done = add_simple l TokenKind.eof l.at (codes "<eof>") in (done.tokens, done.diag)
