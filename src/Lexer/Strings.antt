-- ===== src/Lexer/Strings.antt =====
-- `lex_string`.
use back_and_forth.Prelude.{
  ℕ, ◌-◌, Bool, true, false, ◌&&◌, not, [], ◌∷◌, ◌++◌, Text, ◌==◌, if◌then◌else◌, pos,
}
use back_and_forth.Token.{Position, TokenKind}
use back_and_forth.Diagnostic.{
  Diagnostics, diag_error, unterminated_string_before_end_of_line, nul_escapes_are_not_supported,
  unknown_escape_sequence, unterminated_string_literal,
}
use back_and_forth.Lexer.Chars.{Lexer, token_push, peek, advance}

-- The state of the loop over the body of a literal.
pub record StringLoop : Type 0 where
  pub source : Text
  pub at : Position
  pub value : Text
  pub terminated : Bool
  pub diag : Diagnostics

-- `append_decoded`
abbrev pub append_decoded : StringLoop → ℕ → StringLoop
append_decoded s ch = record s { value = s.value ++ (ch ∷ []) }

-- The `switch (escaped)`, after `advance_char` has read the escaped byte.
unfoldable pub decode_escape : ℕ → StringLoop → StringLoop
decode_escape escaped s =
    -- `lexer->line, lexer->column - 1`
    let before : Position = record { line = s.at.line; column = s.at.column - 1 } in
    if escaped == b'n'
    then append_decoded s b'\n'
    else if escaped == b'r'
    then append_decoded s b'\r'
    else if escaped == b't'
    then append_decoded s b'\t'
    else if escaped == b'\\'
    then append_decoded s b'\\'
    else if escaped == b'"'
    then append_decoded s b'"'
    else if escaped == b'0'
    then record s { diag = diag_error s.diag before nul_escapes_are_not_supported }
    else append_decoded
        (record s { diag = diag_error s.diag before (unknown_escape_sequence escaped) }) escaped

-- What the loop does at the byte `ch` that `advance_char` returned.
pub data StringByte : Type 0 where
  nul closing_quote line_end backslash plain : StringByte

unfoldable pub string_byte : ℕ → StringByte
string_byte ch =
    if ch == 0
    then nul
    else if ch == b'"'
    then closing_quote
    else if ch == b'\n'
    then line_end
    else if ch == b'\\'
    then backslash
    else plain

-- `advance_char`, with the rest of the source given.
abbrev pub read_byte : ℕ → Text → StringLoop → StringLoop
read_byte ch rest s = record s { source = rest; at = advance ch s.at }

abbrev pub close_string : StringLoop → StringLoop
close_string s = record s { terminated = true }

abbrev pub line_ends : Position → StringLoop → StringLoop
line_ends where_at s = record s {
  diag = diag_error s.diag where_at unterminated_string_before_end_of_line;
}

-- `while (peek(lexer) != '\0')`. A backslash takes the byte behind it too, unless that is the NUL.
unfoldable pub string_loop : Position → Text → StringLoop → StringLoop
unfolding decode_escape
string_loop where_at [] s = record s { source = [] }
string_loop where_at (c ∷ []) s =
    let t = read_byte c [] s in
    elim (string_byte c) [
      | nul ↦ record s { source = c ∷ [] }
      | closing_quote ↦ close_string t
      | line_end ↦ line_ends where_at t
      | backslash ↦ t
      | plain ↦ append_decoded t c
    ]
string_loop where_at (c ∷ escaped ∷ cs) s =
    let t = read_byte c (escaped ∷ cs) s in
    elim (string_byte c) [
      | nul ↦ record s { source = c ∷ escaped ∷ cs }
      | closing_quote ↦ close_string t
      | line_end ↦ line_ends where_at t
      | backslash ↦ elim (escaped == 0) [
        | true ↦ t
        | false ↦ string_loop where_at cs (decode_escape escaped (read_byte escaped cs t))
      ]
      | plain ↦ string_loop where_at (escaped ∷ cs) (append_decoded t c)
    ]

-- The variables of `lex_string` before its loop.
abbrev pub string_start : Lexer → StringLoop
string_start l = record {
  source = l.source;
  at = l.at;
  value = [];
  terminated = false;
  diag = l.diag;
}

unfoldable pub lex_string : Position → Lexer → Lexer
unfolding string_loop
lex_string where_at l =
    let s = string_loop where_at l.source (string_start l) in
    let diag =
      if not s.terminated && peek s.source == 0
      then diag_error s.diag where_at unterminated_string_literal
      else s.diag in
    token_push (record l { source = s.source; at = s.at; diag = diag })
      (record { kind = TokenKind.string; text = s.value; value = pos 0; at = where_at })
