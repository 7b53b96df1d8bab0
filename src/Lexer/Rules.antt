-- ===== src/Lexer/Rules.antt =====
-- The lexical rules of docs/LANGUAGE.md: which bytes a round of the lexer reads, and the token that
-- they stand for. Of the code they share `peek` and the character
-- classes of <ctype.h>.
use back_and_forth.Prelude.{
  ℕ, suc, ◌+◌, ◌*◌, ◌-◌, ◌≡◌, ◌≢◌, ◌⊎◌, ℤ, pos, true, false, List, [], ◌∷◌, ◌++◌, Option, none,
  some, Text, codes, All, ◌==◌, if◌then◌else◌,
}
use Prim.Native.Nat.{min}
use back_and_forth.Token.{Position, Token, TokenKind}
use back_and_forth.Lexer.Chars.{peek, is_alpha, is_digit, is_word}

-- The line and the column behind a text: one more than its newlines, and one more than the bytes
-- behind the last of them.
unfoldable pub newlines : Text → ℕ
newlines [] = 0
newlines (c ∷ cs) = if c == b'\n' then suc (newlines cs) else newlines cs

-- The column behind a text, from the one in front of it.
unfoldable pub column_from : ℕ → Text → ℕ
column_from k [] = k
column_from k (c ∷ cs) = if c == b'\n' then column_from 1 cs else column_from (k + 1) cs

unfoldable pub place : Text → Position
unfolding newlines column_from
place w = record { line = 1 + newlines w; column = column_from 1 w }

pub data OneByte : ℕ → TokenKind → Type 0 where
  one_lbrace : OneByte b'{' TokenKind.lbrace
  one_rbrace : OneByte b'}' TokenKind.rbrace
  one_lparen : OneByte b'(' TokenKind.lparen
  one_rparen : OneByte b')' TokenKind.rparen
  one_comma : OneByte b',' TokenKind.comma
  one_colon : OneByte b':' TokenKind.colon
  one_semicolon : OneByte b';' TokenKind.semicolon
  one_dot : OneByte b'.' TokenKind.dot
  one_equal : OneByte b'=' TokenKind.equal
  one_plus : OneByte b'+' TokenKind.plus
  one_minus : OneByte b'-' TokenKind.minus
  one_star : OneByte b'*' TokenKind.star
  one_slash : OneByte b'/' TokenKind.slash
  one_percent : OneByte b'%' TokenKind.percent
  one_less : OneByte b'<' TokenKind.less
  one_greater : OneByte b'>' TokenKind.greater
  one_bang : OneByte b'!' TokenKind.bang

pub data TwoBytes : ℕ → ℕ → TokenKind → Type 0 where
  two_slash_equal : TwoBytes b'/' b'=' TokenKind.slash_equal
  two_equal_equal : TwoBytes b'=' b'=' TokenKind.equal_equal
  two_plus_equal : TwoBytes b'+' b'=' TokenKind.plus_equal
  two_minus_equal : TwoBytes b'-' b'=' TokenKind.minus_equal
  two_star_equal : TwoBytes b'*' b'=' TokenKind.star_equal
  two_percent_equal : TwoBytes b'%' b'=' TokenKind.percent_equal
  two_less_equal : TwoBytes b'<' b'=' TokenKind.less_equal
  two_greater_equal : TwoBytes b'>' b'=' TokenKind.greater_equal
  two_bang_equal : TwoBytes b'!' b'=' TokenKind.bang_equal
  two_and_and : TwoBytes b'&' b'&' TokenKind.and_and
  two_or_or : TwoBytes b'|' b'|' TokenKind.or_or
  two_arrow : TwoBytes b'-' b'>' TokenKind.arrow

-- A space, a tab or a carriage return.
abbrev pub Blank : ℕ → Type 0
Blank c = (c ≡ b' ') ⊎ (c ≡ b'\t') ⊎ (c ≡ b'\r')

-- The two bytes that open a comment.
abbrev pub OpensComment : ℕ → ℕ → Type 0
OpensComment c d = (c ≡ b'/') × ((d ≡ b'/') ⊎ (d ≡ b'*'))

pub data Keyword : Text → TokenKind → Type 0 where
  keyword_begin : Keyword (codes "begin") TokenKind.begin_kw
  keyword_func : Keyword (codes "func") TokenKind.func_kw
  keyword_static : Keyword (codes "static") TokenKind.static_kw
  keyword_int : Keyword (codes "int") TokenKind.int_kw
  keyword_str : Keyword (codes "str") TokenKind.str_kw
  keyword_string : Keyword (codes "string") TokenKind.str_kw
  keyword_bool : Keyword (codes "bool") TokenKind.bool_kw
  keyword_true : Keyword (codes "true") TokenKind.true_kw
  keyword_false : Keyword (codes "false") TokenKind.false_kw
  keyword_while : Keyword (codes "while") TokenKind.while_kw
  keyword_for : Keyword (codes "for") TokenKind.for_kw
  keyword_if : Keyword (codes "if") TokenKind.if_kw
  keyword_elsif : Keyword (codes "elsif") TokenKind.elsif_kw
  keyword_elif : Keyword (codes "elif") TokenKind.elsif_kw
  keyword_else : Keyword (codes "else") TokenKind.else_kw
  keyword_return : Keyword (codes "return") TokenKind.return_kw
  keyword_break : Keyword (codes "break") TokenKind.break_kw
  keyword_continue : Keyword (codes "continue") TokenKind.continue_kw
  keyword_void : Keyword (codes "void") TokenKind.void_kw
  keyword_switch : Keyword (codes "switch") TokenKind.switch_kw
  keyword_case : Keyword (codes "case") TokenKind.case_kw
  keyword_default : Keyword (codes "default") TokenKind.default_kw

-- A word is a keyword, or a name if it is none.
pub data Word (text : Text) : TokenKind → Type 0 where
  reserved : (k : TokenKind) → Keyword text k → Word text k
  plain_name : ((k : TokenKind) → Keyword text k → ⊥) → Word text TokenKind.identifier

-- The value of decimal digits behind those of `n`.
unfoldable pub decimal : ℕ → Text → ℕ
decimal n [] = n
decimal n (c ∷ cs) = decimal (n * 10 + (c - b'0')) cs

-- What is left of a block comment behind its opening, up to its end or the end of the source.
pub data CommentBody : Text → Text → Type 0 where
  comment_closes : (rest : Text) → CommentBody (b'*' ∷ b'/' ∷ []) rest
  comment_unclosed : (rest : Text) → peek rest ≡ 0 → CommentBody [] rest
  comment_byte :
      (c : ℕ) (body rest : Text)
      → c ≢ 0
      → ((c ≡ b'*') × (peek (body ++ rest) ≡ b'/') → ⊥)
      → CommentBody body rest
      → CommentBody (c ∷ body) rest

pub data Escape : ℕ → Text → Type 0 where
  escape_newline : Escape b'n' (b'\n' ∷ [])
  escape_return : Escape b'r' (b'\r' ∷ [])
  escape_tab : Escape b't' (b'\t' ∷ [])
  escape_nul : Escape b'0' []
  escape_itself : (e : ℕ) → e ≢ b'n' → e ≢ b'r' → e ≢ b't' → e ≢ b'0' → Escape e (e ∷ [])

-- What is left of a string literal, and the bytes that it adds to the value. An unescaped newline
-- ends it as the quote does.
pub data StringBody : Text → Text → Text → Type 0 where
  string_closes : (rest : Text) → StringBody (b'"' ∷ []) rest []
  string_line_end : (rest : Text) → StringBody (b'\n' ∷ []) rest []
  string_unclosed : (rest : Text) → peek rest ≡ 0 → StringBody [] rest []
  string_cut : (rest : Text) → peek rest ≡ 0 → StringBody (b'\\' ∷ []) rest []
  string_escape :
      (e : ℕ) (v body rest value : Text)
      → e ≢ 0
      → Escape e v
      → StringBody body rest value
      → StringBody (b'\\' ∷ e ∷ body) rest (v ++ value)
  string_byte :
      (c : ℕ) (body rest value : Text)
      → c ≢ 0
      → c ≢ b'"'
      → c ≢ b'\n'
      → c ≢ b'\\'
      → StringBody body rest value
      → StringBody (c ∷ body) rest (c ∷ value)

-- A token but for its position.
abbrev pub Plain : Type 0
Plain = TokenKind × Text × ℤ

-- The bytes that a round reads, what is behind them, and the token.
pub data Round : Text → Text → Option Plain → Type 0 where
  blank : (c : ℕ) (rest : Text) → Blank c → Round (c ∷ []) rest none
  newline : (rest : Text) → Round (b'\n' ∷ []) rest (some (TokenKind.newline, codes "\\n", pos 0))
  line_comment :
      (body rest : Text)
      → All (λ c. (c ≢ b'\n') × (c ≢ 0)) body
      → (peek rest ≡ b'\n') ⊎ (peek rest ≡ 0)
      → Round (b'/' ∷ b'/' ∷ body) rest none
  block_comment : (body rest : Text) → CommentBody body rest → Round (b'/' ∷ b'*' ∷ body) rest none
  two_bytes :
      (c d : ℕ) (rest : Text) (k : TokenKind)
      → TwoBytes c d k
      → Round (c ∷ d ∷ []) rest (some (k, c ∷ d ∷ [], pos 0))
  one_byte :
      (c : ℕ) (rest : Text) (k : TokenKind)
      → OneByte c k
      → ((l : TokenKind) → TwoBytes c (peek rest) l → ⊥)
      → (OpensComment c (peek rest) → ⊥)
      → Round (c ∷ []) rest (some (k, c ∷ [], pos 0))
  literal :
      (body rest value : Text)
      → StringBody body rest value
      → Round (b'"' ∷ body) rest (some (TokenKind.string, value, pos 0))
  word :
      (c : ℕ) (cs rest : Text) (k : TokenKind)
      → (is_alpha c ≡ true) ⊎ (c ≡ b'_')
      → All (λ d. is_word d ≡ true) cs
      → is_word (peek rest) ≡ false
      → Word (c ∷ cs) k
      → Round (c ∷ cs) rest (some (k, c ∷ cs, pos 0))
  number :
      (c : ℕ) (cs rest : Text)
      → All (λ d. is_digit d ≡ true) (c ∷ cs)
      → is_digit (peek rest) ≡ false
      → Round
          (c ∷ cs)
          rest
          (some (TokenKind.integer, c ∷ cs, pos (min (decimal 0 (c ∷ cs)) 0x7fffffffffffffff)))
  -- Any other byte; it is reported.
  unknown :
      (c : ℕ) (rest : Text)
      → c ≢ 0
      → (Blank c → ⊥)
      → c ≢ b'\n'
      → c ≢ b'"'
      → is_alpha c ≡ false
      → c ≢ b'_'
      → is_digit c ≡ false
      → ((k : TokenKind) → OneByte c k → ⊥)
      → ((k : TokenKind) → TwoBytes c (peek rest) k → ⊥)
      → Round (c ∷ []) rest none

-- The token of a round that starts behind `w`.
abbrev pub tokens_at : Text → Option Plain → List Token
tokens_at w none = []
tokens_at w (some (kind, text, value)) =
    record { kind = kind; text = text; value = value; at = place w } ∷ []

-- The rounds over a source: what they have read, what is left, and the tokens.
pub data Rounds (source : Text) : Text → Text → List Token → Type 0 where
  start : Rounds source [] source []
  again :
      (w piece rest : Text) (ts : List Token) (o : Option Plain)
      → Rounds source w (piece ++ rest) ts
      → Round piece rest o
      → Rounds source (w ++ piece) rest (ts ++ tokens_at w o)
