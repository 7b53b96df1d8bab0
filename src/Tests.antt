-- ===== src/Tests.antt =====
-- Runs of the models of src/lexer.c and src/sema.c at concrete inputs.
use back_and_forth.Prelude.{
  true, false, ◌≡◌, ◌≢◌, ◌↔◌, refl, List, [], ◌∷◌, ◌++◌, map, none, some, Text, codes, pos, All,
}
use back_and_forth.Token.{Token, TokenKind}
use back_and_forth.Diagnostic.{no_errors}
use back_and_forth.Syntax.{
  Expr, str, unknown, assign, binary, BinaryOp, name, void, int, none_kind, CallInfo, Block,
  Function, Parameter, Program, integer, boolean, no_args, arg, call_stmt, if_stmt, return_stmt,
  while_stmt, break_stmt, no_stmts, stmt, no_branches, branch, null,
}
use back_and_forth.Lexer.{is_alpha, is_word, lex_source}
use back_and_forth.Lexer.Print.{
  Lexeme, word, string, number, symbol, IsLexeme, print, plain_of, meaning,
}
use back_and_forth.Lexer.RoundTrip.{lex_source-print, end_of_file}
use back_and_forth.Lexer.Order.{IsTrace, lex_source-IsTrace}
use back_and_forth.Sema.{
  resolve_block_calls, validate_function, validate_begin, validate_declarations, env_find, env_add,
  own, analyze_program, begin_context, validate_stmt, validate_expr,
}
use back_and_forth.Sema.WellResolved.{BlockOk}
use back_and_forth.Sema.ResolveTree.{resolve_block_calls-BlockOk}
use back_and_forth.Sema.DistinctNames.{ProgramDeclarable, validate_declarations-ProgramDeclarable}
use back_and_forth.Sema.Typing.{HasType, Fits}
use back_and_forth.Sema.WellTyped.{validate_expr-HasType}
use back_and_forth.Sema.StepScope.{step_of_body, validate_stmt-step_of_body}
use back_and_forth.Sema.Accepted.{Accepted, analyze_program-Accepted}
use back_and_forth.Sema.Runs.{
  ended, returned, BlockRuns, runs_on, runs_out, runs_if, runs_return, taken, passed, while_leaves,
  runs_break, runs_empty,
}
use back_and_forth.Sema.Jumps.{IsInside}
use back_and_forth.Sema.FunctionRuns.{validate_function-returned, validate_begin-IsInside}

-- int answer = 42 "a\n"
abbrev few_lexemes : List Lexeme
few_lexemes =
    word (codes "int")
    ∷ word (codes "answer")
    ∷ symbol TokenKind.equal
    ∷ number 42
    ∷ string (97 ∷ 10 ∷ [])
    ∷ []

few_lexemes-IsLexeme : All IsLexeme few_lexemes
unfolding is_alpha is_word
few_lexemes-IsLexeme = (
  (refl, (refl, (refl, tt))),
  ((refl, (refl, (refl, (refl, (refl, (refl, tt)))))), (refl, (tt, ((cc, (cc, tt)), tt)))),
)

lex_source-print_example :
    (map plain_of (lex_source (print few_lexemes)).0
      ≡ map meaning few_lexemes ++ (end_of_file ∷ []))
    × ((lex_source (print few_lexemes)).1 ≡ [])
lex_source-print_example = lex_source-print few_lexemes few_lexemes-IsLexeme

abbrev two_lines : Text
two_lines = codes "while x {\n x += 1 # \"one\" // more"

lex_source-IsTrace_example : IsTrace two_lines (lex_source two_lines).0
lex_source-IsTrace_example = lex_source-IsTrace two_lines

abbrev here : Token
here = record {
  kind = TokenKind.identifier;
  text = codes "here";
  value = pos 0;
  at = record { line = 1; column = 1 };
}

abbrev one_parameter : Text → Parameter
one_parameter n = record { name = n; token = here; type = int; explicitly_typed = true }

abbrev either_body : Block
either_body =
    stmt
      (if_stmt here (
        branch here (boolean here true) (stmt (return_stmt here (integer here (pos 1))) no_stmts)
          (branch here null (stmt (return_stmt here (integer here (pos 2))) no_stmts) no_branches)))
      no_stmts

-- func either(a: int, b: int) -> int { if (true) { return 1; } else { return 2; } }
abbrev either : Function
either = record {
  name = codes "either";
  token = here;
  is_static = false;
  return_type = int;
  explicit_return_type = true;
  params = one_parameter (codes "a") ∷ one_parameter (codes "b") ∷ [];
  body = either_body;
}

either-quiet : validate_function (either ∷ []) 0 either [] ≡ []
unfolding validate_function
either-quiet = refl

either-runs : BlockRuns either_body returned
either-runs = runs_out (runs_if (passed refl (taken (runs_out runs_return cc)))) cc

validate_function-returned_example : returned ≡ returned
validate_function-returned_example =
    validate_function-returned (either ∷ []) 0 either returned either-quiet (cc) either-runs

-- while (true) { break; }
abbrev loop_body : Block
loop_body = stmt (while_stmt here (boolean here true) (stmt (break_stmt here) no_stmts)) no_stmts

loop_body-quiet : validate_begin (either ∷ []) loop_body [] ≡ []
unfolding validate_begin
loop_body-quiet = refl

loop_body-runs : BlockRuns loop_body ended
loop_body-runs = runs_on (while_leaves (runs_out runs_break cc)) runs_empty

validate_begin-IsInside_example : IsInside ended
validate_begin-IsInside_example =
    validate_begin-IsInside (either ∷ []) loop_body ended loop_body-quiet loop_body-runs

abbrev unresolved : CallInfo
unresolved = record {
  callee = codes "either";
  token = here;
  resolved = none;
  builtin = none_kind;
  return_type = void;
}

-- either(b: 1, 2);
abbrev named_call : Block
named_call =
    stmt
      (call_stmt here unresolved (
        arg (record { name = some (codes "b"); token = here; resolved_parameter = none })
          (integer here (pos 1))
          (arg (record { name = none; token = here; resolved_parameter = none })
            (integer here (pos 2)) no_args)))
      no_stmts

abbrev small_program : Program
small_program = record { functions = either ∷ []; begin_block = named_call }

named_call-quiet : (resolve_block_calls small_program named_call []).1 ≡ []
unfolding resolve_block_calls
named_call-quiet = refl

resolve_block_calls-BlockOk_example :
    BlockOk small_program (resolve_block_calls small_program named_call []).0
resolve_block_calls-BlockOk_example =
    resolve_block_calls-BlockOk small_program named_call named_call-quiet

validate_declarations-ProgramDeclarable_example :
    (validate_declarations small_program [] ≡ []) ↔ ProgramDeclarable small_program
validate_declarations-ProgramDeclarable_example =
    validate_declarations-ProgramDeclarable small_program

twice_declared :
    no_errors (validate_declarations (record small_program { functions = either ∷ either ∷ [] }) [])
    ≡ false
unfolding validate_declarations
twice_declared = refl

abbrev sum_body : Block
sum_body =
    stmt
      (return_stmt here (binary here BinaryOp.add (name here (codes "n")) (name here (codes "n"))))
      no_stmts

-- func double(n) { return n + n; }
abbrev double : Function
double = record {
  name = codes "double";
  token = here;
  is_static = false;
  return_type = void;
  explicit_return_type = false;
  params = record (one_parameter (codes "n")) { type = unknown; explicitly_typed = false } ∷ [];
  body = sum_body;
}

-- begin { double(4); } with `double` to be inferred
abbrev open_program : Program
open_program = record {
  functions = double ∷ [];
  begin_block =
      stmt
        (call_stmt here (record unresolved { callee = codes "double" })
          (arg (record { name = none; token = here; resolved_parameter = none })
            (integer here (pos 4)) no_args))
        no_stmts;
}

open_program-quiet : (analyze_program open_program).1 ≡ []
unfolding analyze_program
open_program-quiet = refl

double-inferred : map (λ f. f.return_type) (analyze_program open_program).0.functions ≡ int ∷ []
unfolding analyze_program
double-inferred = refl

analyze_program-Accepted_example : Accepted open_program (analyze_program open_program).0
analyze_program-Accepted_example = analyze_program-Accepted open_program open_program-quiet

-- i + 1
abbrev incremented : Expr
incremented = binary here BinaryOp.add (name here (codes "i")) (integer here (pos 1))

incremented-quiet :
    (validate_expr [] (env_add [] (codes "i") (own int) here) int incremented []).1 ≡ []
unfolding validate_expr
incremented-quiet = refl

validate_stmt-step_of_body_example :
    ((validate_stmt (begin_context []) [] (assign here (codes "i") incremented) []).1 ≢ [])
    × ((validate_stmt
          (begin_context [])
          []
          (step_of_body here here here int (codes "i") incremented)
          []).1
        ≡ [])
unfolding env_find
validate_stmt-step_of_body_example =
    validate_stmt-step_of_body (begin_context []) [] here here here int (codes "i") incremented refl
      incremented-quiet

-- "a" + 4
abbrev joined : Expr
joined = binary here BinaryOp.add (Expr.string here (codes "a")) (integer here (pos 4))

joined-quiet : (validate_expr [] [] str joined []).1 ≡ []
unfolding validate_expr
joined-quiet = refl

validate_expr-HasType_example :
    HasType [] [] joined (validate_expr [] [] str joined []).0
    × Fits str (validate_expr [] [] str joined []).0
validate_expr-HasType_example = validate_expr-HasType [] [] str joined joined-quiet
