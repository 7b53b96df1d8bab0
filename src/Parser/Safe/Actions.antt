-- ===== src/Parser/Safe/Actions.antt =====
-- The actions of src/parser.c that skip or take tokens leave no more than there were.
use Prim.Native.String.{String}
use back_and_forth.Prelude.{
  ℕ, ◌≤◌, Bool, List, [], ◌∷◌, Option, none, some, arith, length, Bool-cases, inl, inr,
}
use back_and_forth.Token.{Token, TokenKind}
use back_and_forth.Syntax.{BafType}
use back_and_forth.Parser.Kinds.{is_kind}
use back_and_forth.Parser.Stream.{
  Parser, ◌>>=◌, first_token, drop_first, advance_token, match, consume, drop_kinds,
  skip_separators, skip_newlines, is_newline, type_of_kind, type_name_at, parse_type_name,
  is_separator, ends_statement, consume_statement_end,
}
use back_and_forth.Parser.Safe.Rules.{Returns, Safe}
use back_and_forth.Parser.Safe.Takes.{consume_present, consume_absent}

length-drop_first_le : (ts : List Token) → length (drop_first ts) ≤ length ts
unfolding drop_first
length-drop_first_le [] = omega arith
length-drop_first_le (t ∷ ts) = elim (Bool-cases (is_kind t.kind TokenKind.eof)) [
  | inl e ↦ rw e (omega arith)
  | inr e ↦ rw e (omega arith)
]

pub advance_token-Safe : (j : ℕ) → Safe j advance_token
unfolding advance_token
advance_token-Safe j = record { runs = λ p h. omega (arith, length-drop_first_le p.tokens) }

length-drop_kinds :
    (test : TokenKind → Bool) (ts : List Token) → length (drop_kinds test ts) ≤ length ts
unfolding drop_kinds
length-drop_kinds test [] = omega arith
length-drop_kinds test (t ∷ ts) = elim (Bool-cases (test t.kind)) [
  | inl e ↦ rw e (omega (arith, length-drop_kinds test ts))
  | inr e ↦ rw e (omega arith)
]

pub skip_newlines-Safe : (j : ℕ) → Safe j skip_newlines
unfolding skip_newlines
skip_newlines-Safe j = record { runs = λ p h. omega (arith, length-drop_kinds is_newline p.tokens) }

pub skip_separators-Safe : (j : ℕ) → Safe j skip_separators
unfolding skip_separators
skip_separators-Safe j = record {
  runs = λ p h. omega (arith, length-drop_kinds is_separator p.tokens);
}

match_any_runs :
    (j : ℕ) (kind : TokenKind) (p : Parser) → length p.tokens ≤ j → Returns j (match kind p)
unfolding match
match_any_runs j kind p h = elim (Bool-cases (is_kind (first_token p.tokens).kind kind)) [
  | inl e ↦ rw e (omega (arith, length-drop_first_le p.tokens))
  | inr e ↦ rw e h
]

-- A `consume` whose result is not looked at.
consume_any_runs :
    (j : ℕ) (kind : TokenKind) (message : String) (p : Parser)
    → length p.tokens ≤ j
    → Returns j (consume kind message p)
consume_any_runs j kind message p h = elim (Bool-cases (is_kind (first_token p.tokens).kind kind)) [
  | inl e ↦ rw (consume_present kind message p e) (omega (arith, length-drop_first_le p.tokens))
  | inr e ↦ rw (consume_absent kind message p e) h
]

type_name_at-Safe : (j : ℕ) (t : Token) (type : Option BafType) → Safe j (type_name_at t type)
unfolding type_name_at ◌>>=◌
type_name_at-Safe j t (some type) = record {
  runs = λ p h. omega (arith, length-drop_first_le p.tokens);
}
type_name_at-Safe j t none = record { runs = λ p h. h }

pub parse_type_name-Safe : (j : ℕ) → Safe j parse_type_name
unfolding parse_type_name ◌>>=◌
parse_type_name-Safe j = record {
  runs = λ p h.
      (type_name_at-Safe j (first_token p.tokens) (type_of_kind (first_token p.tokens).kind)).runs p
        h;
}

statement_end_runs :
    (j : ℕ) (p : Parser) → length p.tokens ≤ j → Returns j (consume_statement_end p)
unfolding consume_statement_end ◌>>=◌
statement_end_runs j p h =
    let k = (first_token p.tokens).kind in
    elim (Bool-cases (ends_statement k)) [
      | inl e ↦ rw (e, consume_statement_end) h
      | inr e ↦ elim (Bool-cases (is_separator k)) [
        | inl g ↦ rw (e, g, consume_statement_end) ((skip_separators-Safe j).runs p h)
        | inr g ↦ rw (e, g, consume_statement_end) h
      ]
    ]

pub match_any-Safe : (j : ℕ) (kind : TokenKind) → Safe j (match kind)
match_any-Safe j kind = record { runs = match_any_runs j kind }

pub consume_any-Safe : (j : ℕ) (kind : TokenKind) (message : String) → Safe j (consume kind message)
consume_any-Safe j kind message = record { runs = consume_any_runs j kind message }

pub consume_statement_end-Safe : (j : ℕ) → Safe j consume_statement_end
consume_statement_end-Safe j = record { runs = statement_end_runs j }
