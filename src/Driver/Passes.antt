-- ===== src/Driver/Passes.antt =====
-- What the passes of src/main.c promise together.
use back_and_forth.Prelude.{◌≡◌, ◌≢◌, refl, ap, List, [], ◌∷◌, Option, none, some, Text}
use back_and_forth.Diagnostic.{Diagnostics}
use back_and_forth.Token.{Token}
use back_and_forth.Syntax.{Program, Function, Block}
use back_and_forth.Lexer.{lex_source}
use back_and_forth.Parser.{parse_program}
use back_and_forth.Parser.Total.{parse_program-total}
use back_and_forth.Parser.BeginBlock.{parse_program-Reported}
use back_and_forth.Sema.{analyze_program}
use back_and_forth.Sema.Accepted.{Accepted, analyze_program-Accepted}
use back_and_forth.Driver.{Outcome, rejected, checked, analyzed, parsed, lexed, check_source}

-- What the outcome for a list of tokens says: a rejection has a report, and a program that was
-- checked is one that the parser read without a report and the analyser accepts.
pub data Explained (tokens : List Token) : Outcome → Type 0 where
  reported : (diag : Diagnostics) → diag ≢ [] → Explained tokens (rejected diag)
  accepted :
      (functions : List Function) (b : Block) (q : Program)
      → parse_program tokens [] ≡ some (record { functions = functions; begin_block = some b }, [])
      → Accepted (record { functions = functions; begin_block = b }) q
      → Explained tokens (checked q)

module _ (tokens : List Token) where
  result-Explained :
      (functions : List Function) (b : Block)
      → parse_program tokens [] ≡ some (record { functions = functions; begin_block = some b }, [])
      → (q : Program) (diag : Diagnostics)
      → (diag ≡ [] → Accepted (record { functions = functions; begin_block = b }) q)
      → Explained tokens (analyzed (q, diag))
  result-Explained functions b h q [] quiet = accepted functions b q h (quiet refl)
  result-Explained functions b h q (d ∷ ds) quiet = reported (d ∷ ds) (cc)

  analyzed-Explained :
      (functions : List Function) (b : Block)
      → parse_program tokens [] ≡ some (record { functions = functions; begin_block = some b }, [])
      → Explained tokens
          (analyzed (analyze_program (record { functions = functions; begin_block = b })))
  analyzed-Explained functions b h =
      let p : Program = record { functions = functions; begin_block = b } in
      result-Explained functions b h (analyze_program p).0 (analyze_program p).1
        (analyze_program-Accepted p)

  parsed-Explained :
      (functions : List Function) (o : Option Block) (diag : Diagnostics)
      → parse_program tokens [] ≡ some (record { functions = functions; begin_block = o }, diag)
      → Explained tokens (parsed (record { functions = functions; begin_block = o }, diag))
  parsed-Explained functions (some b) [] h = analyzed-Explained functions b h
  parsed-Explained functions none [] h = absurd (parse_program-Reported tokens [] _ [] h refl refl)
  parsed-Explained functions o (d ∷ ds) h = reported (d ∷ ds) (cc)

lexed-Explained :
    (tokens : List Token) (diag : Diagnostics)
    → (o : Outcome) × (lexed (tokens, diag) ≡ some o) × Explained tokens o
lexed-Explained tokens (d ∷ ds) = (rejected (d ∷ ds), refl, reported (d ∷ ds) (cc))
lexed-Explained tokens [] =
    let ((r, reports), h) = parse_program-total tokens [] in
    (
      parsed (r, reports),
      ap (λ x. elim x as (λ _. Option Outcome) [ none ↦ none | some r ↦ some (parsed r) ]) h,
      parsed-Explained tokens r.functions r.begin_block reports h,
    )

-- The passes end on every source. They reject it with at least one report, or the tokens of the
-- source are read by the parser without a report, to a program with a begin block that the analyser
-- accepts; a NULL begin block never reaches the analyser.
pub check_source-Explained :
    (source : Text)
    → (o : Outcome) × (check_source source ≡ some o) × Explained (lex_source source).0 o
unfolding check_source
check_source-Explained source = lexed-Explained (lex_source source).0 (lex_source source).1
