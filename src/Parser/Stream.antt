-- ===== src/Parser/Stream.antt =====
-- The parser's state, and the functions of src/parser.c that look at a token or take one.
use Prim.Native.String.{String}
use back_and_forth.Prelude.{
  Bool, true, false, List, [], ◌∷◌, Option, none, some, codes, pos, if◌then◌else◌,
}
use back_and_forth.Token.{Token, TokenKind}
use back_and_forth.Diagnostic.{
  Diagnostics, Message, diag_error, expected_token, expected_type_name, expected_statement_end,
}
use back_and_forth.Syntax.{BafType}
use back_and_forth.Parser.Kinds.{is_kind}

-- `tokens` are those from `current` on. The array ends with an end of file, which no function
-- passes, so the list is never empty.
pub record Parser : Type 0 where
  pub tokens : List Token
  pub diag : Diagnostics

-- `none`: the fuel ran out.
abbrev pub M : Type 0 → Type 0
M A = Parser → Option (A × Parser)

abbrev pub pure : {A : Type 0} → A → M A
pure a p = some (a, p)

infixl 5 ◌>>=◌ ◌>>◌
unfoldable pub ◌>>=◌ : {A B : Type 0} → M A → (A → M B) → M B
◌>>=◌ m f p = elim (m p) [ none ↦ none | some (a, q) ↦ f a q ]

abbrev pub ◌>>◌ : {A B : Type 0} → M A → M B → M B
m >> k = m >>= λ _. k

abbrev pub out_of_fuel : {A : Type 0} → M A
out_of_fuel p = none

-- What a read behind the array would give.
abbrev no_token : Token
no_token = record {
  kind = TokenKind.eof;
  text = [];
  value = pos 0;
  at = record { line = 0; column = 0 };
}

abbrev pub first_token : List Token → Token
first_token [] = no_token
first_token (t ∷ ts) = t

-- `*lookahead(parser, 1)`: the last token stands for those behind it.
abbrev pub second_token : List Token → Token
second_token [] = no_token
second_token (t ∷ []) = t
second_token (t ∷ u ∷ ts) = u

-- The tokens behind the first one, which stays if it is the end of file.
unfoldable pub drop_first : List Token → List Token
unfolding is_kind
drop_first [] = []
drop_first (t ∷ ts) = if is_kind t.kind TokenKind.eof then t ∷ ts else ts

abbrev pub peek_token : M Token
peek_token p = some (first_token p.tokens, p)

abbrev pub lookahead : M Token
lookahead p = some (second_token p.tokens, p)

-- `advance_token`, which hands back the token that it passes.
unfoldable pub advance_token : M Token
unfolding drop_first
advance_token p = some (first_token p.tokens, record p { tokens = drop_first p.tokens })

unfoldable pub check : TokenKind → M Bool
unfolding is_kind
check kind p = some (is_kind (first_token p.tokens).kind kind, p)

-- `match`, and the token that was taken.
unfoldable pub match : TokenKind → M (Option Token)
unfolding is_kind drop_first
match kind p =
    let t = first_token p.tokens in
    if is_kind t.kind kind
    then some (some t, record p { tokens = drop_first p.tokens })
    else some (none, p)

abbrev pub report_at : Token → Message → M (Unit {0})
report_at t m p = some (tt, record p { diag = diag_error p.diag t.at m })

-- `consume`: NULL is `none`.
unfoldable pub consume : TokenKind → String → M (Option Token)
unfolding match
consume kind message = do
  taken ← match kind
  elim taken [
    | some t ↦ pure (some t)
    | none ↦ do t ← peek_token; report_at t (expected_token (codes message) t.kind); pure none
  ]

abbrev pub is_separator : TokenKind → Bool
is_separator TokenKind.newline = true
is_separator TokenKind.semicolon = true
is_separator _ = false

abbrev pub is_newline : TokenKind → Bool
is_newline TokenKind.newline = true
is_newline _ = false

-- The tokens from the first one on whose kind fails the test.
unfoldable pub drop_kinds : (TokenKind → Bool) → List Token → List Token
drop_kinds test [] = []
drop_kinds test (t ∷ ts) = if test t.kind then drop_kinds test ts else t ∷ ts

unfoldable pub skip_separators : M (Unit {0})
unfolding drop_kinds
skip_separators p = some (tt, record p { tokens = drop_kinds is_separator p.tokens })

unfoldable pub skip_newlines : M (Unit {0})
unfolding drop_kinds
skip_newlines p = some (tt, record p { tokens = drop_kinds is_newline p.tokens })

-- The type that a keyword names.
abbrev pub type_of_kind : TokenKind → Option BafType
type_of_kind TokenKind.int_kw = some BafType.int
type_of_kind TokenKind.str_kw = some BafType.str
type_of_kind TokenKind.bool_kw = some BafType.bool
type_of_kind _ = none

-- The end of `parse_type_name`, at the first token.
unfoldable pub type_name_at : Token → Option BafType → M BafType
unfolding advance_token
type_name_at t (some type) = advance_token >> pure type
type_name_at t none = report_at t expected_type_name >> pure BafType.unknown

unfoldable pub parse_type_name : M BafType
unfolding type_name_at
parse_type_name = peek_token >>= λ t. type_name_at t (type_of_kind t.kind)

abbrev pub ends_statement : TokenKind → Bool
ends_statement TokenKind.rbrace = true
ends_statement TokenKind.eof = true
ends_statement _ = false

unfoldable pub consume_statement_end : M (Unit {0})
unfolding skip_separators
consume_statement_end = peek_token >>= λ t.
    if ends_statement t.kind
    then pure tt
    else if is_separator t.kind
    then skip_separators
    else report_at t expected_statement_end
