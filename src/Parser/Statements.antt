-- ===== src/Parser/Statements.antt =====
-- `parse_simple_statement`, `parse_statement` and `parse_block`. A NULL statement is `null_stmt`.
use Prim.Native.String.{String}
use back_and_forth.Prelude.{ℕ, zero, suc, Bool, true, false, List, Option, none, some, Text}
use back_and_forth.Token.{Token, TokenKind}
use back_and_forth.Diagnostic.{expected_call_or_assignment, expected_statement}
use back_and_forth.Syntax.{
  BinaryOp, add, sub, mul, div, mod_op, Expr, Stmt, Block, Branches, null, name, binary, null_stmt,
  var, assign, call_stmt, while_stmt, for_stmt, if_stmt, no_branches, branch,
}
use back_and_forth.Parser.Stream.{
  M, pure, ◌>>=◌, ◌>>◌, peek_token, advance_token, check, match, report_at, consume, skip_newlines,
  skip_separators, parse_type_name, consume_statement_end,
}
use back_and_forth.Parser.Expressions.{has_dot, qualified_parts, parse_call_after_name}

-- `if (require_end) consume_statement_end(parser)`, and the statement.
unfoldable pub end_statement : Bool → Stmt → M Stmt
end_statement true s = consume_statement_end >> pure s
end_statement false s = pure s

-- `= e`, or NULL.
unfoldable pub parse_initializer : M Expr → M Expr
parse_initializer expression = do
  taken ← match TokenKind.equal
  elim taken [ none ↦ pure null | some t ↦ skip_newlines >> expression ]

-- The branch of `parse_simple_statement` for a declaration.
unfoldable pub parse_declaration : M Expr → Bool → Token → M Stmt
parse_declaration expression require_end type_token = do
  type ← parse_type_name
  declared ← consume TokenKind.identifier "expected variable name after type"
  elim declared [
    | none ↦ pure null_stmt
    | some t ↦ do
      initializer ← parse_initializer expression
      end_statement require_end (var type_token type t.text initializer)
  ]

abbrev pub compound_op_for : TokenKind → Option BinaryOp
compound_op_for TokenKind.plus_equal = some add
compound_op_for TokenKind.minus_equal = some sub
compound_op_for TokenKind.star_equal = some mul
compound_op_for TokenKind.slash_equal = some div
compound_op_for TokenKind.percent_equal = some mod_op
compound_op_for _ = none

-- What follows a name that is not called: `=` or a compound operator, unless the name has a dot.
abbrev pub assignment_at : Bool → TokenKind → Option (Option BinaryOp)
assignment_at true kind = none
assignment_at false TokenKind.equal = some none
assignment_at false kind = elim (compound_op_for kind) [ none ↦ none | some op ↦ some (some op) ]

-- 'x += e' is rewritten as 'x = x + (e)'.
abbrev pub assigned : Token → Token → Text → Option BinaryOp → Expr → Expr
assigned name_token op_token n none value = value
assigned name_token op_token n (some op) value = binary op_token op (name name_token n) value

-- What follows the name, at the operator that stands at `t`.
abbrev pub assign_round : M Expr → Bool → Token → Text → Token → Option (Option BinaryOp) → M Stmt
assign_round expression require_end name_token n t none =
    report_at name_token (expected_call_or_assignment n) >> pure null_stmt
assign_round expression require_end name_token n t (some op) = do
  advance_token
  skip_newlines
  value ← expression
  end_statement require_end (assign name_token n (assigned name_token t n op value))

unfoldable pub parse_assignment : M Expr → Bool → Token → Text → M Stmt
parse_assignment expression require_end name_token n = do
  t ← peek_token
  assign_round expression require_end name_token n t (assignment_at (has_dot n) t.kind)

-- The branch for a name, which was taken.
unfoldable pub parse_named_statement : M Expr → ℕ → Bool → Token → M Stmt
parse_named_statement expression n require_end name_token = do
  qualified ← qualified_parts n name_token.text
  called ← check TokenKind.lparen
  elim called [
    | true ↦ do
      c ← parse_call_after_name expression n name_token qualified
      end_statement require_end (call_stmt name_token c.0 c.1)
    | false ↦ parse_assignment expression require_end name_token qualified
  ]

-- At the kind of the first token: a type, a name, or neither.
abbrev pub simple_at : M Expr → ℕ → Bool → Token → TokenKind → M Stmt
simple_at expression n require_end t TokenKind.int_kw = parse_declaration expression require_end t
simple_at expression n require_end t TokenKind.str_kw = parse_declaration expression require_end t
simple_at expression n require_end t TokenKind.bool_kw = parse_declaration expression require_end t
simple_at expression n require_end t TokenKind.identifier =
    advance_token >> parse_named_statement expression n require_end t
simple_at expression n require_end t kind =
    report_at t (expected_statement kind) >> advance_token >> pure null_stmt

unfoldable pub parse_simple_statement : M Expr → ℕ → Bool → M Stmt
parse_simple_statement expression n require_end = do
  t ← peek_token
  simple_at expression n require_end t t.kind

-- A value in parentheses behind a keyword, and the newlines behind it.
unfoldable pub parse_condition : M Expr → String → String → M Expr
parse_condition expression before after = do
  consume TokenKind.lparen before
  skip_newlines
  e ← expression
  skip_newlines
  consume TokenKind.rparen after
  skip_newlines
  pure e

unfoldable pub parse_while : M Expr → M Block → Token → M Stmt
parse_while expression block t = do
  condition ←
      parse_condition expression "expected '(' after 'while'" "expected ')' after while condition"
  body ← block
  pure (while_stmt t condition body)

-- A branch with a condition, behind its keyword `t`, and those that follow.
unfoldable pub parse_branch : M Expr → M Block → M Branches → String → String → Token → M Branches
parse_branch expression block rest before after t = do
  condition ← parse_condition expression before after
  body ← block
  others ← rest
  pure (branch t condition body others)

-- Behind `else`; 'else if (...)' is accepted as a spelling of 'elsif (...)'.
unfoldable pub parse_else : M Expr → M Block → M Branches → Token → M Branches
parse_else expression block rest t = do
  skip_newlines
  nested ← match TokenKind.if_kw
  elim nested [
    | some u ↦
        parse_branch expression block rest "expected '(' after 'else if'"
          "expected ')' after the else if condition" u
    | none ↦ do body ← block; pure (branch t null body no_branches)
  ]

-- A round of the loop of `parse_if`, at the kind of the token behind the separators; `start` holds
-- the tokens from the separators on, and `rest` is the loop.
abbrev pub branches_at : M Expr → M Block → M Branches → List Token → Token → TokenKind → M Branches
branches_at expression block rest start t TokenKind.elsif_kw =
    advance_token
    >> parse_branch expression block rest "expected '(' after 'elsif'"
        "expected ')' after the elsif condition" t
branches_at expression block rest start t TokenKind.else_kw =
    advance_token >> parse_else expression block rest t
branches_at expression block rest start t kind =
    (λ q. some (no_branches, record q { tokens = start }))

unfoldable pub parse_branches : M Expr → M Block → ℕ → M Branches
parse_branches expression block zero p = none
parse_branches expression block (suc n) p =
    (do
      skip_separators
      t ← peek_token
      branches_at expression block (parse_branches expression block n) p.tokens t t.kind)
      p

unfoldable pub parse_if : M Expr → M Block → ℕ → Token → M Stmt
parse_if expression block n t = do
  condition ←
      parse_condition expression "expected '(' after 'if'" "expected ')' after the if condition"
  body ← block
  rest ← parse_branches expression block n
  pure (if_stmt t (branch t condition body rest))

-- A part of a `for` header that the token `stop` leaves out.
unfoldable pub unless_at : {A : Type 0} → TokenKind → A → M A → M A
unless_at stop absent present = do
  stopped ← check stop
  elim stopped [ true ↦ pure absent | false ↦ present ]

unfoldable pub parse_for : M Expr → M Block → ℕ → Token → M Stmt
parse_for expression block n t = do
  consume TokenKind.lparen "expected '(' after 'for'"
  skip_newlines
  init ← unless_at TokenKind.semicolon null_stmt (parse_simple_statement expression n false)
  consume TokenKind.semicolon "expected ';' after the for initialiser"
  skip_newlines
  condition ← unless_at TokenKind.semicolon null expression
  consume TokenKind.semicolon "expected ';' after the for condition"
  skip_newlines
  step ← unless_at TokenKind.rparen null_stmt (parse_simple_statement expression n false)
  skip_newlines
  consume TokenKind.rparen "expected ')' after the for header"
  skip_newlines
  body ← block
  pure (for_stmt t init condition step body)
