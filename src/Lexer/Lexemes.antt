-- ===== src/Lexer/Lexemes.antt =====
-- One round of the loop of `lex_source` reads one printed lexeme.
use mathlib.Core.List.{append_assoc, map-append}
use back_and_forth.Prelude.{
  ℕ, ◌+◌, ◌-◌, ◌≡◌, ◌≢◌, refl, sym, ap, ◌∙◌, Bool, true, false, ◌||◌, List, [], ◌∷◌, ◌++◌, Text,
  ◌==◌, ltb, All, arith, Bool-cases, inl, inr, ◌⊎◌, ◌/◌, ◌%◌, subst, length, length-append,
  take-append, map,
}
use back_and_forth.Token.{TokenKind, Token, Position, token_kind_name}
use back_and_forth.Lexer.Chars.{Lexer, is_digit, is_word, is_alpha, advance, advance_while, peek}
use back_and_forth.Lexer.Words.{slice, lex_identifier, lex_number}
use back_and_forth.Lexer.Strings.{lex_string, string_start}
use back_and_forth.Lexer.Scan.{literal, word, number, classify, perform, lex_token, simple, pair}
use back_and_forth.Lexer.Print.{
  Lexeme, IsLexeme, is_symbol, escape, decimal, decimal_fuel, print_lexeme, Plain, plain_of,
  meaning,
}
use back_and_forth.Lexer.Literals.{
  AllDigits, decimal-AllDigits, digits_value-decimal, string_loop-escape,
}

-- A scan stops at the first byte that its test refuses.
advance_while-append :
    (test : ℕ → Bool) (w rest : Text) (at : Position)
    → All (λ c. test c ≡ true) w
    → test b' ' ≡ false
    → (at' : Position) × (advance_while test (w ++ (b' ' ∷ rest)) at ≡ (b' ' ∷ rest, at'))
unfolding advance_while
advance_while-append test [] rest at h e = (at, rw e)
advance_while-append test (c ∷ cs) rest at h e =
    let (p, r) = advance_while-append test cs rest (advance c at) h.1 e in (p, rw h.0 r)

pub slice-append : (w rest : Text) → slice (w ++ rest) rest ≡ w
slice-append w rest =
    let e : length (w ++ rest) - length rest ≡ length w = omega (arith, length-append w rest) in
    rw e (take-append w rest)

classify_string : (d : ℕ) → classify b'"' d ≡ literal
unfolding classify
classify_string d = refl

-- The lexer `l'` has read a lexeme off the source of `l`, without a report.
abbrev pub Took : Lexer → Lexer → Plain → Text → Type 0
Took l l' x rest =
    (l'.source ≡ rest)
    × (map plain_of l'.tokens ≡ map plain_of l.tokens ++ (x ∷ []))
    × (l'.diag ≡ l.diag)

classify_word : (c d : ℕ) → (is_alpha c || c == b'_') ≡ true → classify c d ≡ word
unfolding classify
classify_word c d h = ground arith

classify_number : (c d : ℕ) → is_digit c ≡ true → classify c d ≡ number
unfolding classify
classify_number c d h = ground arith

pub map-concat :
    (ts : List Token) (t : Token)
    → map plain_of (ts ++ (t ∷ [])) ≡ map plain_of ts ++ (plain_of t ∷ [])
map-concat ts t = map-append plain_of ts (t ∷ [])

lex_identifier-Took :
    (c : ℕ) (cs rest : Text) (w : Position) (l : Lexer)
    → All (λ d. is_word d ≡ true) cs
    → l.source ≡ cs ++ (b' ' ∷ rest)
    → Took l
        (lex_identifier w (c ∷ (cs ++ (b' ' ∷ rest))) l)
        (meaning (Lexeme.word (c ∷ cs)))
        (b' ' ∷ rest)
unfolding lex_identifier meaning
lex_identifier-Took c cs rest w l h e =
    let (p, r) = advance_while-append is_word cs rest l.at h (unfold is_word in refl) in
    let text = slice-append (c ∷ cs) (b' ' ∷ rest) in
    rw (e, r) (refl, rw text (map-concat l.tokens _), refl)

lex_number-Took :
    (n c : ℕ) (cs rest : Text) (w : Position) (l : Lexer)
    → decimal n ≡ c ∷ cs
    → l.source ≡ cs ++ (b' ' ∷ rest)
    → Took l (lex_number w (c ∷ (cs ++ (b' ' ∷ rest))) l) (meaning (Lexeme.number n)) (b' ' ∷ rest)
unfolding lex_number meaning
lex_number-Took n c cs rest w l d e =
    let digits : AllDigits (c ∷ cs) = subst AllDigits d (decimal-AllDigits n) in
    let (p, r) = advance_while-append is_digit cs rest l.at digits.1 (unfold is_digit in refl) in
    let text = slice-append (c ∷ cs) (b' ' ∷ rest) ∙ sym d in
    rw (e, r) (rw (text, digits_value-decimal n) (refl, map-concat l.tokens _, refl))

lex_string-Took :
    (s rest : Text) (w : Position) (l : Lexer)
    → All (λ c. c ≢ 0) s
    → l.source ≡ escape s ++ (b'"' ∷ b' ' ∷ rest)
    → Took l (lex_string w l) (meaning (Lexeme.string s)) (b' ' ∷ rest)
unfolding lex_string meaning
lex_string-Took s rest w l h e =
    let (p, r) =
      string_loop-escape w s (b' ' ∷ rest)
        (record (string_start l) { source = escape s ++ (b'"' ∷ b' ' ∷ rest) }) h in
    rw e (rw r (refl, map-concat l.tokens _, refl))

string-in-source :
    (s rest : Text)
    → print_lexeme (Lexeme.string s) ++ (b' ' ∷ rest) ≡ b'"' ∷ (escape s ++ (b'"' ∷ b' ' ∷ rest))
unfolding print_lexeme
string-in-source s rest = ap (◌∷◌ b'"') (append_assoc (escape s) (b'"' ∷ []) (b' ' ∷ rest))

concat-cons : (ds : Text) (d : ℕ) → (c : ℕ) × (cs : Text) × (ds ++ (d ∷ []) ≡ c ∷ cs)
concat-cons [] d = (d, [], refl)
concat-cons (c ∷ cs) d = (c, cs ++ (d ∷ []), refl)

pub decimal-cons : (n : ℕ) → (c : ℕ) × (cs : Text) × (decimal n ≡ c ∷ cs)
unfolding decimal
decimal-cons n = elim (Bool-cases (ltb n 10)) [
  | inl e ↦ rw e (n + b'0', [], refl)
  | inr e ↦ rw e (concat-cons (decimal_fuel n (n / 10)) (n % 10 + b'0'))
]

-- How each symbol is spelled, and which arm reads it where a space follows.
pub symbol-shape :
    (k : TokenKind)
    → is_symbol k ≡ true
    → ((c : ℕ) × (classify c b' ' ≡ simple k (c ∷ []))
        × (token_kind_name k ≡ c ∷ [])
        × ((c == 0) ≡ false))
      ⊎ ((c : ℕ) × (d : ℕ) × (classify c d ≡ pair k (c ∷ d ∷ []))
          × (token_kind_name k ≡ c ∷ d ∷ [])
          × ((c == 0) ≡ false))
unfolding classify token_kind_name
symbol-shape TokenKind.lbrace h = inl (b'{', refl, refl, refl)
symbol-shape TokenKind.rbrace h = inl (b'}', refl, refl, refl)
symbol-shape TokenKind.lparen h = inl (b'(', refl, refl, refl)
symbol-shape TokenKind.rparen h = inl (b')', refl, refl, refl)
symbol-shape TokenKind.comma h = inl (b',', refl, refl, refl)
symbol-shape TokenKind.colon h = inl (b':', refl, refl, refl)
symbol-shape TokenKind.semicolon h = inl (b';', refl, refl, refl)
symbol-shape TokenKind.dot h = inl (b'.', refl, refl, refl)
symbol-shape TokenKind.equal h = inl (b'=', refl, refl, refl)
symbol-shape TokenKind.plus h = inl (b'+', refl, refl, refl)
symbol-shape TokenKind.minus h = inl (b'-', refl, refl, refl)
symbol-shape TokenKind.star h = inl (b'*', refl, refl, refl)
symbol-shape TokenKind.slash h = inl (b'/', refl, refl, refl)
symbol-shape TokenKind.percent h = inl (b'%', refl, refl, refl)
symbol-shape TokenKind.less h = inl (b'<', refl, refl, refl)
symbol-shape TokenKind.greater h = inl (b'>', refl, refl, refl)
symbol-shape TokenKind.bang h = inl (b'!', refl, refl, refl)
symbol-shape TokenKind.plus_equal h = inr (b'+', b'=', refl, refl, refl)
symbol-shape TokenKind.minus_equal h = inr (b'-', b'=', refl, refl, refl)
symbol-shape TokenKind.star_equal h = inr (b'*', b'=', refl, refl, refl)
symbol-shape TokenKind.slash_equal h = inr (b'/', b'=', refl, refl, refl)
symbol-shape TokenKind.percent_equal h = inr (b'%', b'=', refl, refl, refl)
symbol-shape TokenKind.equal_equal h = inr (b'=', b'=', refl, refl, refl)
symbol-shape TokenKind.bang_equal h = inr (b'!', b'=', refl, refl, refl)
symbol-shape TokenKind.less_equal h = inr (b'<', b'=', refl, refl, refl)
symbol-shape TokenKind.greater_equal h = inr (b'>', b'=', refl, refl, refl)
symbol-shape TokenKind.and_and h = inr (b'&', b'&', refl, refl, refl)
symbol-shape TokenKind.or_or h = inr (b'|', b'|', refl, refl, refl)
symbol-shape TokenKind.arrow h = inr (b'-', b'>', refl, refl, refl)
symbol-shape _ h = cc

symbol-Took :
    (k : TokenKind) (rest : Text) (l : Lexer)
    → is_symbol k ≡ true
    → l.source ≡ token_kind_name k ++ (b' ' ∷ rest)
    → Took l (lex_token l) (meaning (Lexeme.symbol k)) (b' ' ∷ rest)
unfolding lex_token perform meaning
symbol-Took k rest l h e = elim (symbol-shape k h) [
  | inl (c, arm, name, _) ↦ rw (e, name, arm) (refl, map-concat l.tokens _, refl)
  | inr (c, d, arm, name, _) ↦ rw (e, name, arm) (refl, map-concat l.tokens _, refl)
]

-- One round of the loop reads one lexeme.
pub lex_token-Took :
    (x : Lexeme) (rest : Text) (l : Lexer)
    → IsLexeme x
    → l.source ≡ print_lexeme x ++ (b' ' ∷ rest)
    → Took l (lex_token l) (meaning x) (b' ' ∷ rest)
unfolding lex_token perform print_lexeme
lex_token-Took (Lexeme.word []) rest l h e = absurd h
lex_token-Took (Lexeme.word (c ∷ cs)) rest l h e = rw e (
    rw (classify_word c (peek (cs ++ (b' ' ∷ rest))) h.0) (
      lex_identifier-Took c cs rest l.at
        (record l { source = cs ++ (b' ' ∷ rest); at = advance c l.at }) h.1 refl))
lex_token-Took (Lexeme.string s) rest l h e =
    let body = escape s ++ (b'"' ∷ b' ' ∷ rest) in
    rw (e ∙ string-in-source s rest) (
      rw (classify_string (peek body))
        (lex_string-Took s rest l.at (record l { source = body; at = advance b'"' l.at }) h refl))
lex_token-Took (Lexeme.number n) rest l h e =
    let (c, cs, d) = decimal-cons n in
    let digits : AllDigits (c ∷ cs) = subst AllDigits d (decimal-AllDigits n) in
    let tail = cs ++ (b' ' ∷ rest) in
    rw (e ∙ ap (λ w. w ++ (b' ' ∷ rest)) d) (
      rw (classify_number c (peek tail) digits.0)
        (lex_number-Took n c cs rest l.at (record l { source = tail; at = advance c l.at }) d refl))
lex_token-Took (Lexeme.symbol k) rest l h e = symbol-Took k rest l h e
