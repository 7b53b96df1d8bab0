-- ===== src/Parser/TotalCases.antt =====
-- The cases of a `switch` end, if the blocks in them do.
use back_and_forth.Prelude.{ℕ, zero, suc, ◌≤◌, ◌<◌, ◌≡◌, refl, Bool, true, false, arith, length}
use back_and_forth.Token.{Token, TokenKind}
use back_and_forth.Diagnostic.{expected_case, diag_error}
use back_and_forth.Syntax.{Expr, Block, Cases}
use back_and_forth.Parser.Stream.{
  Parser, M, pure, ◌>>=◌, first_token, skip_newlines, skip_separators,
}
use back_and_forth.Parser.Blocks.{parse_case_body, report_default, cases_at, parse_cases}
use back_and_forth.Parser.Safe.{
  Returns, Safe, SafeBelow, bind-Safe, then-Safe, pure-Safe, report_at-Safe, skip_newlines-Safe,
  skip_separators-Safe, peek-Safe, report_at-Returns, advance_at-Returns,
}
use back_and_forth.Parser.TotalStatements.{SafeUpTo}

parse_case_body-Safe : (block : M Block) (j : ℕ) → Safe j block → Safe j (parse_case_body block)
unfolding parse_case_body
parse_case_body-Safe block j b = then-Safe j skip_newlines _ (skip_newlines-Safe j) (
    bind-Safe j block _ b
      (λ body. then-Safe j skip_separators _ (skip_separators-Safe j) (pure-Safe j body)))

report_default-Safe : (j : ℕ) (saw : Bool) (t : Token) → Safe j (report_default saw t)
report_default-Safe j true t = report_at-Safe j t _
report_default-Safe j false t = pure-Safe j tt

-- The tail of a round: the body and the other cases.
case_tail-Safe :
    (block : M Block) (rest : M Cases) (j : ℕ) (build : Block → Cases → Cases)
    → Safe j block
    → Safe j rest
    → Safe j (parse_case_body block >>= λ body. rest >>= λ others. pure (build body others))
case_tail-Safe block rest j build b r =
    bind-Safe j (parse_case_body block) _ (parse_case_body-Safe block j b)
      (λ body. bind-Safe j rest _ r (λ others. pure-Safe j _))

module _ (expression : M Expr) (block : M Block) where
  cases_at-Returns :
      (rest : Bool → M Cases) (j : ℕ) (saw : Bool) (p : Parser) (kind : TokenKind)
      → SafeUpTo j expression
      → SafeBelow j block
      → ((s : Bool) → SafeBelow j (rest s))
      → (first_token p.tokens).kind ≡ kind
      → length p.tokens ≤ j
      → Returns j (cases_at expression block rest saw (first_token p.tokens) kind p)
  cases_at-Returns rest j saw p TokenKind.rbrace e b r q h = h
  cases_at-Returns rest j saw p TokenKind.eof e b r q h = h
  cases_at-Returns rest j saw p TokenKind.case_kw e b r q h =
      advance_at-Returns j TokenKind.case_kw _ p q (cc) h (λ i hi.
        then-Safe i skip_newlines _ (skip_newlines-Safe i) (
          bind-Safe i expression _ (e i (omega arith))
            (λ value. case_tail-Safe block (rest saw) i _ (b i hi) (r saw i hi))))
  cases_at-Returns rest j saw p TokenKind.default_kw e b r q h =
      advance_at-Returns j TokenKind.default_kw _ p q (cc) h (λ i hi.
        then-Safe i (report_default saw (first_token p.tokens)) _
          (report_default-Safe i saw (first_token p.tokens))
          (case_tail-Safe block (rest true) i _ (b i hi) (r true i hi)))
  cases_at-Returns rest j saw p kind e b r q h =
      report_at-Returns j (first_token p.tokens) expected_case _ p (
        advance_at-Returns j kind _
          (record p { diag = diag_error p.diag (first_token p.tokens).at expected_case }) q (cc) h
          (λ i hi. then-Safe i skip_separators _ (skip_separators-Safe i) (r saw i hi)))

  pub parse_cases-Safe :
      (n j : ℕ) (saw : Bool)
      → j < n
      → SafeUpTo j expression
      → SafeBelow j block
      → Safe j (parse_cases expression block n saw)
  unfolding parse_cases
  parse_cases-Safe zero j saw h e b = absurd (omega arith)
  parse_cases-Safe (suc n) j saw h e b = peek-Safe j _ (λ p k.
      cases_at-Returns (parse_cases expression block n) j saw p _ e b
        (λ s i hi.
          parse_cases-Safe n i s (omega arith) (λ l hl. e l (omega arith))
            (λ l hl. b l (omega arith)))
        refl k)
