-- ===== src/Lexer/Print.antt =====
-- Source text written from lexemes, the way docs/LANGUAGE.md describes literals and names: what the
-- lexer is held against.
use back_and_forth.Prelude.{
  ℕ, zero, suc, ◌+◌, ◌/◌, ◌%◌, ◌≡◌, ◌≢◌, Bool, true, false, ◌||◌, List, [], ◌∷◌, ◌++◌, Text, ◌==◌,
  ltb, if◌then◌else◌, All, ℤ, pos,
}
use back_and_forth.Token.{TokenKind, Token, token_kind_name}
use back_and_forth.Lexer.Chars.{is_alpha, is_word}
use back_and_forth.Lexer.Words.{keyword_kind, llong_max}

pub data Lexeme : Type 0 where
  word string : Text → Lexeme
  number : ℕ → Lexeme
  symbol : TokenKind → Lexeme

-- The punctuation and operators of the language.
abbrev pub is_symbol : TokenKind → Bool
is_symbol TokenKind.lbrace = true
is_symbol TokenKind.rbrace = true
is_symbol TokenKind.lparen = true
is_symbol TokenKind.rparen = true
is_symbol TokenKind.comma = true
is_symbol TokenKind.colon = true
is_symbol TokenKind.semicolon = true
is_symbol TokenKind.dot = true
is_symbol TokenKind.equal = true
is_symbol TokenKind.plus = true
is_symbol TokenKind.minus = true
is_symbol TokenKind.star = true
is_symbol TokenKind.slash = true
is_symbol TokenKind.percent = true
is_symbol TokenKind.plus_equal = true
is_symbol TokenKind.minus_equal = true
is_symbol TokenKind.star_equal = true
is_symbol TokenKind.slash_equal = true
is_symbol TokenKind.percent_equal = true
is_symbol TokenKind.equal_equal = true
is_symbol TokenKind.bang_equal = true
is_symbol TokenKind.less = true
is_symbol TokenKind.less_equal = true
is_symbol TokenKind.greater = true
is_symbol TokenKind.greater_equal = true
is_symbol TokenKind.and_and = true
is_symbol TokenKind.or_or = true
is_symbol TokenKind.bang = true
is_symbol TokenKind.arrow = true
is_symbol _ = false

abbrev pub WordText : Text → Type 0
WordText [] = ⊥
WordText (c ∷ cs) = ((is_alpha c || c == b'_') ≡ true) × All (λ d. is_word d ≡ true) cs

-- Words are names and keywords; a literal holds no NUL byte, which the language cannot write.
abbrev pub IsLexeme : Lexeme → Type 0
IsLexeme (word w) = WordText w
IsLexeme (string s) = All (λ c. c ≢ 0) s
IsLexeme (number n) = Unit {0}
IsLexeme (symbol k) = is_symbol k ≡ true

abbrev backslashed : ℕ → Text
backslashed c = b'\\' ∷ c ∷ []

unfoldable pub escape_byte : ℕ → Text
escape_byte c =
    if c == b'\n'
    then backslashed b'n'
    else if c == b'\r'
    then backslashed b'r'
    else if c == b'\t'
    then backslashed b't'
    else if c == b'\\'
    then backslashed b'\\'
    else if c == b'"'
    then backslashed b'"'
    else c ∷ []

unfoldable pub escape : Text → Text
unfolding escape_byte
escape [] = []
escape (c ∷ cs) = escape_byte c ++ escape cs

-- The decimal digits of a number, on fuel above it.
unfoldable pub decimal_fuel : ℕ → ℕ → Text
decimal_fuel zero n = []
decimal_fuel (suc fuel) n =
    let more = decimal_fuel fuel (n / 10) ++ ((n % 10 + b'0') ∷ []) in
    if ltb n 10 then (n + b'0') ∷ [] else more

unfoldable pub decimal : ℕ → Text
unfolding decimal_fuel
decimal n = decimal_fuel (suc n) n

unfoldable pub print_lexeme : Lexeme → Text
unfolding escape decimal token_kind_name
print_lexeme (word w) = w
print_lexeme (string s) = b'"' ∷ (escape s ++ (b'"' ∷ []))
print_lexeme (number n) = decimal n
print_lexeme (symbol k) = token_kind_name k

-- A space behind each lexeme.
unfoldable pub print : List Lexeme → Text
unfolding print_lexeme
print [] = []
print (x ∷ xs) = print_lexeme x ++ (b' ' ∷ print xs)

-- A token without its position.
pub record Plain : Type 0 where
  pub kind : TokenKind
  pub text : Text
  pub value : ℤ

abbrev pub plain_of : Token → Plain
plain_of t = record { kind = t.kind; text = t.text; value = t.value }

-- The token that a lexeme stands for. A number above LLONG_MAX becomes LLONG_MAX.
unfoldable pub meaning : Lexeme → Plain
unfolding keyword_kind decimal
meaning (word w) = record { kind = keyword_kind w; text = w; value = pos 0 }
meaning (string s) = record { kind = TokenKind.string; text = s; value = pos 0 }
meaning (number n) = record {
  kind = TokenKind.integer;
  text = decimal n;
  value = pos (if ltb llong_max n then llong_max else n);
}
meaning (symbol k) = record { kind = k; text = token_kind_name k; value = pos 0 }
