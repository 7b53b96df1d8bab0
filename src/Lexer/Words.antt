-- ===== src/Lexer/Words.antt =====
-- `keyword_kind`, `lex_identifier` and `lex_number`.
use back_and_forth.Prelude.{
  ℕ, ◌+◌, ◌-◌, ◌*◌, Bool, true, false, List, [], ◌∷◌, Text, codes, text_eq, ltb, if◌then◌else◌,
  length, take, pos,
}
use back_and_forth.Token.{Position, TokenKind}
use back_and_forth.Diagnostic.{diag_error, invalid_integer_literal}
use back_and_forth.Lexer.Chars.{Lexer, token_push, is_digit, is_word, advance_while}

-- The `if` ladder as the table that it searches from the top.
abbrev pub keywords : List (Text × TokenKind)
keywords =
    (codes "begin", TokenKind.begin_kw)
    ∷ (codes "func", TokenKind.func_kw)
    ∷ (codes "static", TokenKind.static_kw)
    ∷ (codes "int", TokenKind.int_kw)
    ∷ (codes "str", TokenKind.str_kw)
    ∷ (codes "string", TokenKind.str_kw)
    ∷ (codes "bool", TokenKind.bool_kw)
    ∷ (codes "true", TokenKind.true_kw)
    ∷ (codes "false", TokenKind.false_kw)
    ∷ (codes "while", TokenKind.while_kw)
    ∷ (codes "for", TokenKind.for_kw)
    ∷ (codes "if", TokenKind.if_kw)
    ∷ (codes "elsif", TokenKind.elsif_kw)
    ∷ (codes "elif", TokenKind.elsif_kw)
    ∷ (codes "else", TokenKind.else_kw)
    ∷ (codes "return", TokenKind.return_kw)
    ∷ (codes "break", TokenKind.break_kw)
    ∷ (codes "continue", TokenKind.continue_kw)
    ∷ (codes "void", TokenKind.void_kw)
    ∷ (codes "switch", TokenKind.switch_kw)
    ∷ (codes "case", TokenKind.case_kw)
    ∷ (codes "default", TokenKind.default_kw)
    ∷ []

unfoldable pub find_keyword : Text → List (Text × TokenKind) → TokenKind
unfolding text_eq
find_keyword text [] = TokenKind.identifier
find_keyword text ((word, kind) ∷ rest) = if text_eq text word then kind else find_keyword text rest

unfoldable pub keyword_kind : Text → TokenKind
unfolding find_keyword
keyword_kind text = find_keyword text keywords

-- `baf_xstrndup(lexer->source + start, lexer->current - start)`, where `start` is the source from
-- the token's first byte on and `rest` the source that is left.
abbrev pub slice : Text → Text → Text
slice start rest = take (length start - length rest) start

unfoldable pub lex_identifier : Position → Text → Lexer → Lexer
unfolding advance_while is_word keyword_kind
lex_identifier where_at start l =
    let (rest, at) = advance_while is_word l.source l.at in
    let text = slice start rest in
    token_push (record l { source = rest; at = at })
      (record { kind = keyword_kind text; text = text; value = pos 0; at = where_at })

-- `strtoll(text, &end, 10)` on a text that starts with a digit, as every text of `lex_number`
-- does: the value, which stops at LLONG_MAX, and the text from `end` on.
unfoldable pub digits_value : ℕ → Text → ℕ × Text
unfolding is_digit
digits_value acc [] = (acc, [])
digits_value acc (c ∷ cs) =
    if is_digit c then digits_value (acc * 10 + (c - b'0')) cs else (acc, c ∷ cs)

abbrev pub llong_max : ℕ
llong_max = 0x7fffffffffffffff

unfoldable pub strtoll : Text → ℕ × Text
unfolding digits_value
strtoll text =
    let (value, end) = digits_value 0 text in
    (if ltb llong_max value then llong_max else value, end)

abbrev is_empty : Text → Bool
is_empty [] = true
is_empty (c ∷ cs) = false

unfoldable pub lex_number : Position → Text → Lexer → Lexer
unfolding advance_while is_digit strtoll
lex_number where_at start l =
    let (rest, at) = advance_while is_digit l.source l.at in
    let text = slice start rest in
    let (value, end) = strtoll text in
    let diag =
      if is_empty end then l.diag else diag_error l.diag where_at (invalid_integer_literal text) in
    token_push (record l { source = rest; at = at; diag = diag })
      (record { kind = TokenKind.integer; text = text; value = pos value; at = where_at })
