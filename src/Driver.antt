-- ===== src/Driver.antt =====
-- src/main.c: the passes over a source whose includes are expanded, up to the code generator.
use back_and_forth.Prelude.{true, false, List, [], Option, none, some, Text}
use back_and_forth.Diagnostic.{Diagnostics, no_errors}
use back_and_forth.Token.{Token}
use back_and_forth.Syntax.{Program}
use back_and_forth.Lexer.{lex_source}
use back_and_forth.Parser.{Parsed, parse_program}
use back_and_forth.Sema.{analyze_program}
pub mod Passes

-- How the passes end: with reports, with a program to print, or with an analysis that reads a NULL
-- begin block.
pub data Outcome : Type 0 where
  rejected : Diagnostics → Outcome
  checked : Program → Outcome
  null_begin : Outcome

-- `if (!analyze_program(program, &diag)) goto cleanup`
abbrev pub analyzed : Program × Diagnostics → Outcome
analyzed (program, diag) = elim (no_errors diag) [ true ↦ checked program | false ↦ rejected diag ]

abbrev pub analyze_parsed : Parsed → Outcome
analyze_parsed r = elim r.begin_block as (λ _. Outcome) [
  | none ↦ null_begin
  | some b ↦ analyzed (analyze_program (record { functions = r.functions; begin_block = b }))
]

-- `if (diag.errors) goto cleanup`
abbrev pub parsed : Parsed × Diagnostics → Outcome
parsed (r, diag) = elim (no_errors diag) [ true ↦ analyze_parsed r | false ↦ rejected diag ]

-- `if (!lex_source(source, &tokens, &diag)) goto cleanup`
abbrev pub lexed : List Token × Diagnostics → Option Outcome
lexed (tokens, diag) = elim (no_errors diag) [
  | true ↦ elim (parse_program tokens diag) [ none ↦ none | some r ↦ some (parsed r) ]
  | false ↦ some (rejected diag)
]

-- `none`: the parser ran out of fuel.
unfoldable pub check_source : Text → Option Outcome
check_source source = lexed (lex_source source)
