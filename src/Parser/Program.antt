-- ===== src/Parser/Program.antt =====
-- `parse_function` and `parse_program`.
use back_and_forth.Prelude.{
  ℕ, zero, suc, Bool, true, false, List, [], ◌∷◌, ◌++◌, Option, none, some, length,
}
use back_and_forth.Token.{Token, TokenKind}
use back_and_forth.Diagnostic.{
  Diagnostics, one_begin_block, expected_declaration, missing_begin_block,
}
use back_and_forth.Syntax.{BafType, Parameter, Function, Block}
use back_and_forth.Parser.Kinds.{is_kind}
use back_and_forth.Parser.Stream.{
  M, pure, ◌>>=◌, ◌>>◌, out_of_fuel, peek_token, advance_token, check, match, report_at, consume,
  skip_newlines, skip_separators, parse_type_name,
}
use back_and_forth.Parser.Blocks.{parse_block}

-- The type of a parameter, and whether it is written.
unfoldable pub parse_parameter_type : M (BafType × Bool)
parse_parameter_type = do
  colon ← match TokenKind.colon
  elim colon [
    | none ↦ pure (BafType.unknown, false)
    | some t ↦ do skip_newlines; type ← parse_type_name; pure (type, true)
  ]

abbrev pub new_parameter : Token → BafType × Bool → Parameter
new_parameter t (type, explicitly_typed) = record {
  name = t.text;
  token = t;
  type = type;
  explicitly_typed = explicitly_typed;
}

-- The loop over the parameters.
unfoldable pub parse_parameters : ℕ → M (List Parameter)
parse_parameters zero = out_of_fuel
parse_parameters (suc n) = do
  skip_newlines
  named ← consume TokenKind.identifier "expected parameter name"
  elim named [
    | none ↦ pure []
    | some t ↦ do
      typed ← parse_parameter_type
      skip_newlines
      comma ← match TokenKind.comma
      elim comma [
        | none ↦ pure (new_parameter t typed ∷ [])
        | some u ↦ do rest ← parse_parameters n; pure (new_parameter t typed ∷ rest)
      ]
  ]

-- The type behind `:` or `->`.
unfoldable pub parse_written_return_type : M (BafType × Bool)
parse_written_return_type = do
  skip_newlines
  nothing ← match TokenKind.void_kw
  elim nothing [
    | some t ↦ pure (BafType.void, true)
    | none ↦ do type ← parse_type_name; pure (type, true)
  ]

unfoldable pub parse_return_type : M (BafType × Bool)
parse_return_type = do
  colon ← match TokenKind.colon
  elim colon [
    | some t ↦ parse_written_return_type
    | none ↦ do
      arrow ← match TokenKind.arrow
      elim arrow [ some t ↦ parse_written_return_type | none ↦ pure (BafType.void, false) ]
  ]

-- `parse_function` behind the name.
unfoldable pub parse_named_function : ℕ → Bool → Token → M Function
parse_named_function n is_static declared = do
  consume TokenKind.lparen "expected '(' after function name"
  skip_newlines
  empty ← check TokenKind.rparen
  params ← elim empty as (λ _. M (List Parameter)) [ true ↦ pure [] | false ↦ parse_parameters n ]
  skip_newlines
  consume TokenKind.rparen "expected ')' after parameters"
  returned ← parse_return_type
  skip_newlines
  body ← parse_block n
  pure (record {
    name = declared.text;
    token = declared;
    is_static = is_static;
    return_type = returned.0;
    explicit_return_type = returned.1;
    params = params;
    body = body;
  })

-- `parse_function`: NULL is `none`.
unfoldable pub parse_function : ℕ → Bool → M (Option Function)
parse_function n is_static = do
  func ← consume TokenKind.func_kw "expected 'func'"
  consume TokenKind.arrow "expected '->' after 'func'"
  declared ← consume TokenKind.identifier "expected function name"
  elim func [
    | none ↦ pure none
    | some t ↦ elim declared [
      | none ↦ pure none
      | some u ↦ do f ← parse_named_function n is_static u; pure (some f)
    ]
  ]

-- `Program` while it is parsed: the begin block is NULL at first.
pub record Parsed : Type 0 where
  pub functions : List Function
  pub begin_block : Option Block

-- `program_push_function`, if there is one.
abbrev pub push_function : Option Function → Parsed → Parsed
push_function none r = r
push_function (some f) r = record r { functions = r.functions ++ (f ∷ []) }

-- The branch for `begin`, whose token `t` was taken.
unfoldable pub parse_begin : ℕ → Token → Parsed → M Parsed
parse_begin n t r = elim r.begin_block as (λ _. M Parsed) [
  | some b ↦ do report_at t one_begin_block; parse_block n; pure r
  | none ↦ do skip_newlines; b ← parse_block n; pure (record r { begin_block = some b })
]

-- A round of the loop of `parse_program`, at the kind of the first token.
abbrev pub declaration_at : ℕ → Token → Parsed → TokenKind → M Parsed
declaration_at n t r TokenKind.static_kw = do
  advance_token
  f ← parse_function n true
  pure (push_function f r)
declaration_at n t r TokenKind.func_kw = do f ← parse_function n false; pure (push_function f r)
declaration_at n t r TokenKind.begin_kw = advance_token >> parse_begin n t r
declaration_at n t r kind = report_at t (expected_declaration kind) >> advance_token >> pure r

-- The loop of `parse_program`, with `n` for the fuel of what it calls.
unfoldable pub parse_declarations : ℕ → ℕ → Parsed → M Parsed
parse_declarations n zero r = out_of_fuel
parse_declarations n (suc m) r = do
  t ← peek_token
  elim (is_kind t.kind TokenKind.eof) [
    | true ↦ pure r
    | false ↦ do r' ← declaration_at n t r t.kind; skip_separators; parse_declarations n m r'
  ]

-- The last test of `parse_program`.
abbrev pub check_begin : Parsed → M Parsed
check_begin r = elim r.begin_block as (λ _. M Parsed) [
  | some b ↦ pure r
  | none ↦ do t ← peek_token; report_at t missing_begin_block; pure r
]

-- `none`: the fuel, the number of tokens and one, ran out.
unfoldable pub parse_program : List Token → Diagnostics → Option (Parsed × Diagnostics)
parse_program tokens diag =
    let n = suc (length tokens) in
    let parse : M Parsed = do
      skip_separators
      r ← parse_declarations n n (record { functions = []; begin_block = none })
      check_begin r
    in elim (parse (record { tokens = tokens; diag = diag })) [
      | none ↦ none
      | some (r, p) ↦ some (r, p.diag)
    ]
