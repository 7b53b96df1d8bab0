-- ===== src/Parser/BeginBlock.antt =====
-- A program without a begin block is reported.
use back_and_forth.Prelude.{◌≡◌, ◌≢◌, refl, subst, List, [], ◌∷◌, ◌++◌, Option, none, some}
use back_and_forth.Token.{Token}
use back_and_forth.Diagnostic.{Diagnostic, Diagnostics, missing_begin_block}
use back_and_forth.Syntax.{Block}
use back_and_forth.Parser.Stream.{
  Parser, M, pure, ◌>>=◌, ◌>>◌, peek_token, report_at, skip_separators,
}
use back_and_forth.Parser.Program.{Parsed, parse_declarations, check_begin, parse_program}

-- Where the begin block is NULL, something was reported.
abbrev Reported : Parsed → Diagnostics → Type 0
Reported r diag = r.begin_block ≡ none → diag ≢ []

abbrev ReportedIn : Option (Parsed × Parser) → Type 0
ReportedIn none = Unit {0}
ReportedIn (some (r, p)) = Reported r p.diag

abbrev ReportedOf : Option (Parsed × Diagnostics) → Type 0
ReportedOf none = Unit {0}
ReportedOf (some (r, diag)) = Reported r diag

bind-ReportedIn :
    {A : Type 0} (m : M A) (f : A → M Parsed) (p : Parser)
    → ((a : A) → (q : Parser) → ReportedIn (f a q))
    → ReportedIn ((m >>= f) p)
unfolding ◌>>=◌
bind-ReportedIn {A} m f p h = behind (m p)
  where
    behind :
        (o : Option (A × Parser))
        → ReportedIn
            (elim o as (λ _. Option (Parsed × Parser)) [ none ↦ none | some (a, q) ↦ f a q ])
    behind none = tt
    behind (some (a, q)) = h a q

last-ne-nil : (diag : Diagnostics) (d : Diagnostic) → diag ++ (d ∷ []) ≢ []
last-ne-nil [] d e = cc
last-ne-nil (x ∷ xs) d e = cc

begin_block-Reported :
    (r : Parsed) (p : Parser) (o : Option Block)
    → r.begin_block ≡ o
    → ReportedIn (
        (elim o as (λ _. M Parsed) [
          | some b ↦ pure r
          | none ↦ peek_token >>= λ t. report_at t missing_begin_block >> pure r
        ])
          p)
unfolding ◌>>=◌
begin_block-Reported r p (some b) e = λ missing. cc
begin_block-Reported r p none e = λ missing. last-ne-nil p.diag _

Reported-diag :
    (o : Option (Parsed × Parser))
    → ReportedIn o
    → ReportedOf (elim o as (λ _. Option (Parsed × Diagnostics)) [
      | none ↦ none
      | some (r, p) ↦ some (r, p.diag)
    ])
Reported-diag none h = tt
Reported-diag (some (r, p)) h = h

parse_program-ReportedOf :
    (tokens : List Token) (diag : Diagnostics) → ReportedOf (parse_program tokens diag)
unfolding parse_program
parse_program-ReportedOf tokens diag = Reported-diag _ (
    bind-ReportedIn skip_separators _ _ (λ a p.
      bind-ReportedIn (parse_declarations _ _ _) check_begin p
        (λ r q. begin_block-Reported r q r.begin_block refl)))

-- If the program that `parse_program` returns has no begin block, a message was reported.
pub parse_program-Reported :
    (tokens : List Token) (diag : Diagnostics) (r : Parsed) (reports : Diagnostics)
    → parse_program tokens diag ≡ some (r, reports)
    → r.begin_block ≡ none
    → reports ≢ []
parse_program-Reported tokens diag r reports h =
    subst ReportedOf h (parse_program-ReportedOf tokens diag)
