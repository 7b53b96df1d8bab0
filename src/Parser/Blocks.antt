-- ===== src/Parser/Blocks.antt =====
-- `parse_switch`, `parse_statement` and `parse_block`.
use back_and_forth.Prelude.{ℕ, zero, suc, Bool, true, false, ◌||◌, none, some, ltb, length}
use back_and_forth.Token.{Token, TokenKind}
use back_and_forth.Diagnostic.{one_default_case, expected_case}
use back_and_forth.Syntax.{
  Expr, Stmt, Block, Cases, null, null_stmt, switch_stmt, return_stmt, break_stmt, continue_stmt,
  no_stmts, stmt, no_cases, switch_case,
}
use back_and_forth.Parser.Stream.{
  M, pure, ◌>>=◌, ◌>>◌, out_of_fuel, peek_token, advance_token, report_at, consume, skip_newlines,
  skip_separators, is_separator, ends_statement, consume_statement_end,
}
use back_and_forth.Parser.Expressions.{parse_expression}
use back_and_forth.Parser.Statements.{
  parse_simple_statement, parse_condition, parse_while, parse_if, parse_for,
}

-- The value of a case behind its keyword, and the body: the tail of a round of `parse_switch`.
unfoldable pub parse_case_body : M Block → M Block
parse_case_body block = do skip_newlines; body ← block; skip_separators; pure body

abbrev pub report_default : Bool → Token → M (Unit {0})
report_default true t = report_at t one_default_case
report_default false t = pure tt

-- A round of the loop of `parse_switch`, at the kind of the first token: `rest` is the loop, from
-- whether a case was the default so far.
abbrev pub cases_at : M Expr → M Block → (Bool → M Cases) → Bool → Token → TokenKind → M Cases
cases_at expression block rest saw_default t TokenKind.rbrace = pure no_cases
cases_at expression block rest saw_default t TokenKind.eof = pure no_cases
cases_at expression block rest saw_default t TokenKind.case_kw = do
  advance_token
  skip_newlines
  value ← expression
  body ← parse_case_body block
  others ← rest saw_default
  pure (switch_case t false value body others)
cases_at expression block rest saw_default t TokenKind.default_kw = do
  advance_token
  report_default saw_default t
  body ← parse_case_body block
  others ← rest true
  pure (switch_case t true null body others)
cases_at expression block rest saw_default t kind = do
  report_at t expected_case
  advance_token
  skip_separators
  rest saw_default

unfoldable pub parse_cases : M Expr → M Block → ℕ → Bool → M Cases
parse_cases expression block zero saw_default = out_of_fuel
parse_cases expression block (suc n) saw_default = do
  t ← peek_token
  cases_at expression block (parse_cases expression block n) saw_default t t.kind

unfoldable pub parse_switch : M Expr → M Block → ℕ → Token → M Stmt
parse_switch expression block n t = do
  subject ←
      parse_condition expression "expected '(' after 'switch'" "expected ')' after switch value"
  consume TokenKind.lbrace "expected '{' to begin switch"
  skip_separators
  cases ← parse_cases expression block n false
  consume TokenKind.rbrace "expected '}' after switch"
  pure (switch_stmt t subject cases)

-- The value of a `return`: none before a separator, a brace or the end.
unfoldable pub parse_return_value : M Expr → M Expr
parse_return_value expression = peek_token >>= λ t.
    elim (is_separator t.kind || ends_statement t.kind) [ true ↦ pure null | false ↦ expression ]

unfoldable pub parse_return : M Expr → Token → M Stmt
parse_return expression t = do
  value ← parse_return_value expression
  consume_statement_end
  pure (return_stmt t value)

-- `parse_statement`, at the kind of the first token.
abbrev pub statement_at : M Expr → M Block → ℕ → Token → TokenKind → M Stmt
statement_at expression block n t TokenKind.while_kw =
    advance_token >> parse_while expression block t
statement_at expression block n t TokenKind.for_kw = advance_token >> parse_for expression block n t
statement_at expression block n t TokenKind.if_kw = advance_token >> parse_if expression block n t
statement_at expression block n t TokenKind.switch_kw =
    advance_token >> parse_switch expression block n t
statement_at expression block n t TokenKind.return_kw = advance_token >> parse_return expression t
statement_at expression block n t TokenKind.break_kw =
    advance_token >> consume_statement_end >> pure (break_stmt t)
statement_at expression block n t TokenKind.continue_kw =
    advance_token >> consume_statement_end >> pure (continue_stmt t)
statement_at expression block n t kind = parse_simple_statement expression n true

unfoldable pub parse_statement : M Expr → M Block → ℕ → M Stmt
parse_statement expression block n = do t ← peek_token; statement_at expression block n t t.kind

-- `if (stmt) block_push(block, stmt)`
abbrev pub push_stmt : Stmt → Block → Block
push_stmt null_stmt rest = rest
push_stmt s rest = stmt s rest

-- `parser->diag->errors > 100`
abbrev pub too_many_errors : M Bool
too_many_errors p = some (ltb 100 (length p.diag), p)

-- The loop of `parse_block`.
unfoldable pub parse_stmts : M Stmt → ℕ → M Block
parse_stmts statement zero = out_of_fuel
parse_stmts statement (suc n) = do
  t ← peek_token
  elim (ends_statement t.kind) [
    | true ↦ pure no_stmts
    | false ↦ do
      s ← statement
      stopped ← too_many_errors
      elim stopped [
        | true ↦ pure (push_stmt s no_stmts)
        | false ↦ do skip_separators; rest ← parse_stmts statement n; pure (push_stmt s rest)
      ]
  ]

-- Fuel above the number of tokens is enough, for the recursion and for each loop.
unfoldable pub parse_block : ℕ → M Block
parse_block zero = out_of_fuel
parse_block (suc n) = do
  opened ← consume TokenKind.lbrace "expected '{' to begin block"
  elim opened [
    | none ↦ pure no_stmts
    | some t ↦ do
      skip_separators
      block ←
          parse_stmts (parse_statement (parse_expression (suc n)) (parse_block n) (suc n)) (suc n)
      consume TokenKind.rbrace "expected '}' after block"
      pure block
  ]
