-- ===== src/Parser/Expressions.antt =====
-- `parse_expression` and what it calls, by precedence climbing. A NULL expression is `null`.
use back_and_forth.Prelude.{
  ℕ, zero, suc, ◌+◌, Bool, true, false, ◌&&◌, ◌||◌, [], ◌∷◌, ◌++◌, Option, none, some, Text,
  if◌then◌else◌, ◌==◌, ltb, neg_ℤ,
}
use back_and_forth.Token.{Token, TokenKind}
use back_and_forth.Diagnostic.{
  positional_after_named, qualified_name_must_be_called, expected_expression,
}
use back_and_forth.Syntax.{
  is_null, BafType, none_kind, BinaryOp, add, sub, mul, div, mod_op, eq, ne, lt, le, gt, ge, and_op,
  or_op, neg, not_op, CallInfo, ArgInfo, Expr, Args, null, integer, string, boolean, name, binary,
  unary, call, no_args, arg,
}
use back_and_forth.Parser.Kinds.{is_kind}
use back_and_forth.Parser.Stream.{
  M, pure, ◌>>=◌, ◌>>◌, out_of_fuel, peek_token, lookahead, advance_token, check, match, report_at,
  consume, skip_newlines,
}

-- The loop of `parse_qualified_name`, behind the text `sofar`.
unfoldable pub qualified_parts : ℕ → Text → M Text
qualified_parts zero sofar = out_of_fuel
qualified_parts (suc n) sofar = do
  dot ← match TokenKind.dot
  elim dot [
    | none ↦ pure sofar
    | some d ↦ do
      part ← consume TokenKind.identifier "expected identifier after '.'"
      elim part [ none ↦ pure sofar | some t ↦ qualified_parts n (sofar ++ (b'.' ∷ t.text)) ]
  ]

-- `strchr(name, '.')`
abbrev pub has_dot : Text → Bool
has_dot [] = false
has_dot (c ∷ cs) = c == b'.' || has_dot cs

abbrev pub new_call : Token → Text → CallInfo
new_call token callee = record {
  callee = callee;
  token = token;
  resolved = none;
  builtin = none_kind;
  return_type = BafType.unknown;
}

-- The head of an argument: its name, if it has one, and whether an argument was named so far.
unfoldable pub parse_argument_name : Bool → M (ArgInfo × Bool)
parse_argument_name saw_named = do
  first ← peek_token
  second ← lookahead
  elim (is_kind first.kind TokenKind.identifier && is_kind second.kind TokenKind.colon) [
    | true ↦ do
      t ← advance_token
      advance_token
      skip_newlines
      pure (record { name = some t.text; token = t; resolved_parameter = none }, true)
    | false ↦ elim saw_named [
      | true ↦ do
        report_at first positional_after_named
        pure (record { name = none; token = first; resolved_parameter = none }, true)
      | false ↦ pure (record { name = none; token = first; resolved_parameter = none }, false)
    ]
  ]

-- `call_push_arg`, if there is a value.
abbrev pub push_arg : ArgInfo → Expr → Args → Args
push_arg a value rest = if is_null value then rest else arg a value rest

-- The loop of `parse_call_after_name`; `expression` is `parse_expression`.
unfoldable pub parse_args : M Expr → ℕ → Bool → M Args
parse_args expression zero saw_named = out_of_fuel
parse_args expression (suc n) saw_named = do
  skip_newlines
  head ← parse_argument_name saw_named
  value ← expression
  skip_newlines
  comma ← match TokenKind.comma
  elim comma [
    | none ↦ pure (push_arg head.0 value no_args)
    | some t ↦ do rest ← parse_args expression n head.1; pure (push_arg head.0 value rest)
  ]

unfoldable pub parse_call_after_name : M Expr → ℕ → Token → Text → M (CallInfo × Args)
parse_call_after_name expression n name_token qualified_name = do
  consume TokenKind.lparen "expected '(' after function name"
  skip_newlines
  empty ← check TokenKind.rparen
  args ← elim empty as (λ _. M Args) [ true ↦ pure no_args | false ↦ parse_args expression n false ]
  skip_newlines
  consume TokenKind.rparen "expected ')' after arguments"
  pure (new_call name_token qualified_name, args)

-- A name that no parenthesis follows.
abbrev pub plain_name : Token → Text → M Expr
plain_name token qualified = elim (has_dot qualified) [
  | true ↦ report_at token (qualified_name_must_be_called qualified) >> pure (name token qualified)
  | false ↦ pure (name token qualified)
]

-- The branch of `parse_primary` for a name, which was taken.
unfoldable pub parse_name : M Expr → ℕ → Token → M Expr
parse_name expression n token = do
  qualified ← qualified_parts n token.text
  called ← check TokenKind.lparen
  elim called [
    | true ↦ do c ← parse_call_after_name expression n token qualified; pure (call token c.0 c.1)
    | false ↦ plain_name token qualified
  ]

-- The branch for a parenthesis, which was taken.
unfoldable pub parse_parenthesised : M Expr → M Expr
parse_parenthesised expression = do
  skip_newlines
  e ← expression
  skip_newlines
  consume TokenKind.rparen "expected ')' after expression"
  pure e

-- `parse_primary`, at the kind of the first token.
abbrev pub primary_at : M Expr → ℕ → Token → TokenKind → M Expr
primary_at expression n t TokenKind.integer = advance_token >> pure (integer t t.value)
primary_at expression n t TokenKind.string = advance_token >> pure (string t t.text)
primary_at expression n t TokenKind.true_kw = advance_token >> pure (boolean t true)
primary_at expression n t TokenKind.false_kw = advance_token >> pure (boolean t false)
primary_at expression n t TokenKind.identifier = advance_token >> parse_name expression n t
primary_at expression n t TokenKind.lparen = advance_token >> parse_parenthesised expression
primary_at expression n t kind = report_at t (expected_expression kind) >> pure null

unfoldable pub parse_primary : M Expr → ℕ → M Expr
parse_primary expression n = do t ← peek_token; primary_at expression n t t.kind

-- The expression for a unary operator and its operand. A minus is put into a literal.
abbrev pub negate : Token → Expr → Expr
negate op null = null
negate op (integer t v) = integer op (neg_ℤ v)
negate op operand = unary op neg operand

abbrev pub complement : Token → Expr → Expr
complement op null = null
complement op operand = unary op not_op operand

-- `parse_unary`: `n` bounds the operators in a row.
unfoldable pub parse_unary : M Expr → ℕ → M Expr
parse_unary expression zero = out_of_fuel
parse_unary expression (suc n) = do
  minus ← match TokenKind.minus
  elim minus [
    | some op ↦ do skip_newlines; operand ← parse_unary expression n; pure (negate op operand)
    | none ↦ do
      bang ← match TokenKind.bang
      elim bang [
        | some op ↦ do
          skip_newlines
          operand ← parse_unary expression n
          pure (complement op operand)
        | none ↦ parse_primary expression n
      ]
  ]

abbrev pub binary_op_for : TokenKind → Option (BinaryOp × ℕ)
binary_op_for TokenKind.star = some (mul, 6)
binary_op_for TokenKind.slash = some (div, 6)
binary_op_for TokenKind.percent = some (mod_op, 6)
binary_op_for TokenKind.plus = some (add, 5)
binary_op_for TokenKind.minus = some (sub, 5)
binary_op_for TokenKind.less = some (lt, 4)
binary_op_for TokenKind.less_equal = some (le, 4)
binary_op_for TokenKind.greater = some (gt, 4)
binary_op_for TokenKind.greater_equal = some (ge, 4)
binary_op_for TokenKind.equal_equal = some (eq, 3)
binary_op_for TokenKind.bang_equal = some (ne, 3)
binary_op_for TokenKind.and_and = some (and_op, 2)
binary_op_for TokenKind.or_or = some (or_op, 1)
binary_op_for _ = none

-- The operator that the loop of `parse_binary` goes on with.
abbrev pub operator_at : ℕ → TokenKind → Option (BinaryOp × ℕ)
operator_at min_precedence kind = elim (binary_op_for kind) [
  | none ↦ none
  | some (op, precedence) ↦ if ltb precedence min_precedence then none else some (op, precedence)
]

-- A round of the loop of `parse_binary`, at the operator that stands at `t`; `right_of` is
-- `parse_binary` itself, and `rest` the loop.
abbrev pub binary_round :
    (ℕ → M Expr) → (Expr → M Expr) → Token → Expr → Option (BinaryOp × ℕ) → M Expr
binary_round right_of rest t left none = pure left
binary_round right_of rest t left (some (op, precedence)) = do
  advance_token
  skip_newlines
  right ← right_of (precedence + 1)
  elim (is_null right) [ true ↦ pure left | false ↦ rest (binary t op left right) ]

unfoldable pub binary_loop : (ℕ → M Expr) → ℕ → ℕ → Expr → M Expr
binary_loop right_of zero min_precedence left = out_of_fuel
binary_loop right_of (suc n) min_precedence left = do
  t ← peek_token
  binary_round right_of (binary_loop right_of n min_precedence) t left
      (operator_at min_precedence t.kind)

-- Fuel above the number of tokens is enough, for the recursion and for each loop.
unfoldable pub parse_binary : ℕ → ℕ → M Expr
parse_binary zero min_precedence = out_of_fuel
parse_binary (suc n) min_precedence = do
  left ← parse_unary (parse_binary n 1) (suc n)
  elim (is_null left) [
    | true ↦ pure null
    | false ↦ binary_loop (parse_binary n) (suc n) min_precedence left
  ]

abbrev pub parse_expression : ℕ → M Expr
parse_expression n = parse_binary n 1
