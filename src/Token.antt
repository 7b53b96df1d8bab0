-- ===== src/Token.antt =====
-- Tokens and diagnostics: include/baf.h, and `token_kind_name` of src/lexer.c.
use back_and_forth.Prelude.{ℕ, ℤ, Text, codes}

-- `enum TokenKind`, without the prefix `TOK_`.
pub data TokenKind : Type 0 where
  eof newline identifier integer string : TokenKind
  begin_kw func_kw static_kw int_kw str_kw bool_kw true_kw false_kw : TokenKind
  while_kw for_kw switch_kw case_kw default_kw if_kw elsif_kw else_kw : TokenKind
  return_kw break_kw continue_kw void_kw : TokenKind
  lbrace rbrace lparen rparen comma colon semicolon dot : TokenKind
  equal plus minus star slash percent : TokenKind
  plus_equal minus_equal star_equal slash_equal percent_equal : TokenKind
  equal_equal bang_equal less less_equal greater greater_equal : TokenKind
  and_and or_or bang arrow : TokenKind

-- `line` and `column` are `int` in the source; here they have no bound.
pub record Position : Type 0 where
  pub line : ℕ
  pub column : ℕ

pub record Token : Type 0 where
  pub kind : TokenKind
  pub text : Text
  pub value : ℤ
  pub at : Position

-- `token_kind_name`
unfoldable pub token_kind_name : TokenKind → Text
token_kind_name eof = codes "end of file"
token_kind_name newline = codes "newline"
token_kind_name identifier = codes "identifier"
token_kind_name integer = codes "integer"
token_kind_name string = codes "string"
token_kind_name begin_kw = codes "begin"
token_kind_name func_kw = codes "func"
token_kind_name static_kw = codes "static"
token_kind_name int_kw = codes "int"
token_kind_name str_kw = codes "str"
token_kind_name bool_kw = codes "bool"
token_kind_name true_kw = codes "true"
token_kind_name false_kw = codes "false"
token_kind_name while_kw = codes "while"
token_kind_name for_kw = codes "for"
token_kind_name if_kw = codes "if"
token_kind_name elsif_kw = codes "elsif"
token_kind_name else_kw = codes "else"
token_kind_name return_kw = codes "return"
token_kind_name break_kw = codes "break"
token_kind_name continue_kw = codes "continue"
token_kind_name void_kw = codes "void"
token_kind_name switch_kw = codes "switch"
token_kind_name case_kw = codes "case"
token_kind_name default_kw = codes "default"
token_kind_name lbrace = codes "{"
token_kind_name rbrace = codes "}"
token_kind_name lparen = codes "("
token_kind_name rparen = codes ")"
token_kind_name comma = codes ","
token_kind_name colon = codes ":"
token_kind_name semicolon = codes ";"
token_kind_name dot = codes "."
token_kind_name equal = codes "="
token_kind_name plus = codes "+"
token_kind_name minus = codes "-"
token_kind_name star = codes "*"
token_kind_name slash = codes "/"
token_kind_name percent = codes "%"
token_kind_name plus_equal = codes "+="
token_kind_name minus_equal = codes "-="
token_kind_name star_equal = codes "*="
token_kind_name slash_equal = codes "/="
token_kind_name percent_equal = codes "%="
token_kind_name equal_equal = codes "=="
token_kind_name bang_equal = codes "!="
token_kind_name less = codes "<"
token_kind_name less_equal = codes "<="
token_kind_name greater = codes ">"
token_kind_name greater_equal = codes ">="
token_kind_name and_and = codes "&&"
token_kind_name or_or = codes "||"
token_kind_name bang = codes "!"
token_kind_name arrow = codes "->"
