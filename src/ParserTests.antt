-- ===== src/ParserTests.antt =====
-- Runs of the models of src/parser.c and src/main.c at concrete inputs.
use back_and_forth.Prelude.{
  neg_ℤ, negsuc, ℕ, ◌++◌, arith, ◌≡◌, refl, true, false, List, [], ◌∷◌, ◌⊎◌, inl, inr, map, Option,
  none, some, Text, codes, pos, length,
}
use back_and_forth.Token.{Token, TokenKind}
use back_and_forth.Syntax.{Expr, BinaryOp, integer, binary}
use back_and_forth.Diagnostic.{Diagnostics}
use back_and_forth.Lexer.{lex_source}
use back_and_forth.Parser.{Parser, Parsed, parse_program, parse_expression, ◌>>=◌}
use back_and_forth.Parser.Total.{parse_program-total}
use back_and_forth.Parser.Grammar.{
  Unary, Binary, operand, operator, primary, integer_literal, negative, Follows, additive_plus,
  multiplicative_star,
}
use back_and_forth.Parser.Reads.{IsOperator-binary_op_for}
use back_and_forth.Parser.ExpressionTrees.{parse_expression-Binary}
use back_and_forth.Driver.{Outcome, rejected, checked, null_begin, check_source}
use back_and_forth.Driver.Passes.{Explained, check_source-Explained}

abbrev source : Text
source =
    codes
      "func -> twice(n: int): int { return n + n; }\nbegin { int i = twice(2) - 1 - 1; while (i < 9) { i += 2 } }"

abbrev reports_of : Option Outcome → Option (Unit {0} ⊎ Diagnostics)
reports_of none = none
reports_of (some (rejected d)) = some (inr d)
reports_of (some (checked q)) = some (inl tt)
reports_of (some null_begin) = none

abbrev parsed_functions : Option (Parsed × Diagnostics) → List Text
parsed_functions none = []
parsed_functions (some (r, d)) = map (λ f. f.name) r.functions

abbrev small_tokens : List Token
small_tokens = (lex_source (codes "begin { int i = 1 - 2 - 3 }")).0

parse_program-total_example : (r : Parsed × Diagnostics) × (parse_program small_tokens [] ≡ some r)
parse_program-total_example = parse_program-total small_tokens []

check_source-Explained_example :
    (o : Outcome) × (check_source source ≡ some o) × Explained (lex_source source).0 o
check_source-Explained_example = check_source-Explained source

functions-parsed : parsed_functions (parse_program (lex_source source).0 []) ≡ codes "twice" ∷ []
unfolding lex_source parse_program ◌>>=◌ back_and_forth.Parser.skip_separators
    back_and_forth.Parser.parse_declarations back_and_forth.Parser.is_kind
    back_and_forth.Parser.parse_function back_and_forth.Parser.consume
    back_and_forth.Parser.parse_named_function back_and_forth.Parser.skip_newlines
    back_and_forth.Parser.check back_and_forth.Parser.parse_parameters
    back_and_forth.Parser.parse_parameter_type back_and_forth.Parser.parse_type_name
    back_and_forth.Parser.parse_return_type back_and_forth.Parser.parse_written_return_type
    back_and_forth.Parser.parse_block back_and_forth.Parser.parse_stmts
    back_and_forth.Parser.parse_statement back_and_forth.Parser.parse_case_body
    back_and_forth.Parser.parse_cases back_and_forth.Parser.parse_return
    back_and_forth.Parser.parse_return_value back_and_forth.Parser.parse_switch
    back_and_forth.Parser.binary_loop back_and_forth.Parser.parse_args
    back_and_forth.Parser.parse_argument_name back_and_forth.Parser.parse_binary
    back_and_forth.Parser.parse_call_after_name back_and_forth.Parser.parse_name
    back_and_forth.Parser.parse_parenthesised back_and_forth.Parser.parse_primary
    back_and_forth.Parser.parse_unary back_and_forth.Parser.qualified_parts
    back_and_forth.Parser.parse_begin back_and_forth.Parser.end_statement
    back_and_forth.Parser.parse_assignment back_and_forth.Parser.parse_branch
    back_and_forth.Parser.parse_branches back_and_forth.Parser.parse_condition
    back_and_forth.Parser.parse_declaration back_and_forth.Parser.parse_else
    back_and_forth.Parser.parse_for back_and_forth.Parser.parse_if
    back_and_forth.Parser.parse_initializer back_and_forth.Parser.parse_named_statement
    back_and_forth.Parser.parse_simple_statement back_and_forth.Parser.parse_while
    back_and_forth.Parser.unless_at back_and_forth.Parser.advance_token
    back_and_forth.Parser.consume_statement_end back_and_forth.Parser.drop_first
    back_and_forth.Parser.drop_kinds back_and_forth.Parser.match back_and_forth.Parser.type_name_at
    back_and_forth.Lexer.advance back_and_forth.Lexer.advance_while back_and_forth.Lexer.is_alpha
    back_and_forth.Lexer.is_digit back_and_forth.Lexer.is_word back_and_forth.Lexer.in_line_comment
    back_and_forth.Lexer.skip_block_comment back_and_forth.Lexer.classify
    back_and_forth.Lexer.lex_loop back_and_forth.Lexer.lex_token back_and_forth.Lexer.perform
    back_and_forth.Lexer.decode_escape back_and_forth.Lexer.lex_string
    back_and_forth.Lexer.string_byte back_and_forth.Lexer.string_loop
    back_and_forth.Lexer.digits_value back_and_forth.Lexer.find_keyword
    back_and_forth.Lexer.keyword_kind back_and_forth.Lexer.lex_identifier
    back_and_forth.Lexer.lex_number back_and_forth.Lexer.strtoll back_and_forth.Prelude.text_eq
    neg_ℤ
functions-parsed = refl

abbrev token : TokenKind → Token
token kind = record { kind = kind; text = []; value = pos 7; at = record { line = 1; column = 1 } }

abbrev number_token : Token
number_token = token TokenKind.integer

abbrev plus_token : Token
plus_token = token TokenKind.plus

abbrev star_token : Token
star_token = token TokenKind.star

abbrev end_token : Token
end_token = token TokenKind.rbrace

abbrev minus_token : Token
minus_token = token TokenKind.minus

-- 7 + 7 * -7
abbrev sum_tokens : List Token
sum_tokens = number_token ∷ plus_token ∷ number_token ∷ star_token ∷ minus_token ∷ number_token ∷ []

abbrev seven : Expr
seven = integer number_token (pos 7)

abbrev minus_seven : Expr
minus_seven = integer minus_token (negsuc 6)

abbrev sum : Expr
sum = binary plus_token BinaryOp.add seven (binary star_token BinaryOp.mul seven minus_seven)

one_number : Unary (number_token ∷ []) seven
one_number = primary _ _ (integer_literal number_token refl)

negative_number : Unary (minus_token ∷ number_token ∷ []) minus_seven
unfolding neg_ℤ
negative_number =
    negative minus_token number_token (pos 7) [] (number_token ∷ []) refl tt one_number

sum-Binary : Binary 1 sum_tokens sum
sum-Binary =
    operator 1 5 plus_token BinaryOp.add (number_token ∷ []) []
      (number_token ∷ star_token ∷ minus_token ∷ number_token ∷ []) seven _ additive_plus
      (omega arith) (operand 5 _ _ one_number) tt
      (operator 6 6 star_token BinaryOp.mul (number_token ∷ []) [] (minus_token ∷ number_token ∷ [])
        seven minus_seven multiplicative_star (omega arith) (operand 6 _ _ one_number) tt
        (operand 7 _ _ negative_number))

brace-Follows : Follows 1 TokenKind.rbrace
brace-Follows = record {
  no_dot = cc;
  no_call = cc;
  looser = λ op p h. absurd (cc (IsOperator-binary_op_for p TokenKind.rbrace op h));
}

parse_expression-Binary_example :
    parse_expression 8 (record { tokens = sum_tokens ++ (end_token ∷ []); diag = [] })
    ≡ some (sum, record { tokens = end_token ∷ []; diag = [] })
parse_expression-Binary_example =
    parse_expression-Binary sum_tokens (end_token ∷ []) sum [] sum-Binary brace-Follows
