-- ===== src/Parser/TotalBlocks.antt =====
-- `parse_statement` takes a token, and `parse_block` ends.
use back_and_forth.Prelude.{
  ℕ, zero, suc, ◌≤◌, ◌<◌, ◌≡◌, ◌≢◌, refl, sym, ◌∙◌, ap, Bool, true, false, ◌||◌, arith, length,
}
use back_and_forth.Token.{Token, TokenKind}
use back_and_forth.Syntax.{Expr, Stmt, Block, null, no_stmts, break_stmt, continue_stmt}
use back_and_forth.Parser.Stream.{
  Parser, M, pure, ◌>>=◌, ◌>>◌, first_token, peek_token, advance_token, consume, skip_separators,
  is_separator, ends_statement, consume_statement_end,
}
use back_and_forth.Parser.Expressions.{parse_expression}
use back_and_forth.Parser.Blocks.{
  parse_cases, parse_switch, parse_return_value, parse_return, statement_at, parse_statement,
  push_stmt, too_many_errors, parse_stmts, parse_block,
}
use back_and_forth.Parser.Safe.{
  Returns, Safe, SafeBelow, bind-Safe, then-Safe, choose-Safe, pure-Safe, consume-Safe,
  consume_any-Safe, skip_separators-Safe, peek-Safe, bind-Takes, advance-Takes, Returns-weaken,
  ends_statement-length, consume_statement_end-Safe, peek_token-Safe,
}
use back_and_forth.Parser.TotalExpressions.{parse_binary-Safe}
use back_and_forth.Parser.TotalStatements.{SafeUpTo, parse_condition-Safe}
use back_and_forth.Parser.TotalBranches.{parse_if-Safe, parse_while-Safe, parse_for-Safe}
use back_and_forth.Parser.Statements.{parse_simple_statement, parse_condition}
use back_and_forth.Parser.TotalStatements.{simple_at-Takes}
use back_and_forth.Parser.TotalCases.{parse_cases-Safe}

module _ (expression : M Expr) (block : M Block) (n j : ℕ) (h : j < n) (e : SafeUpTo j expression)
    (b : SafeUpTo j block) where
  parse_switch-Safe : (t : Token) → Safe j (parse_switch expression block n t)
  unfolding parse_switch
  parse_switch-Safe t =
      bind-Safe j (parse_condition expression _ _) _
        (parse_condition-Safe expression j _ _ (e j (omega arith)))
        (λ subject.
          then-Safe j (consume TokenKind.lbrace _) _ (consume_any-Safe j TokenKind.lbrace _) (
            then-Safe j skip_separators _ (skip_separators-Safe j) (
              bind-Safe j (parse_cases expression block n false) _
                (parse_cases-Safe expression block n j false h e (λ i hi. b i (omega arith)))
                (λ cases.
                  then-Safe j (consume TokenKind.rbrace _) _ (consume_any-Safe j TokenKind.rbrace _)
                    (pure-Safe j _)))))

  parse_return_value-Safe : Safe j (parse_return_value expression)
  unfolding parse_return_value
  parse_return_value-Safe = bind-Safe j peek_token _ (peek_token-Safe j) (λ t.
      choose-Safe j (is_separator t.kind || ends_statement t.kind) (pure null) expression
        (pure-Safe j null) (e j (omega arith)))

  parse_return-Safe : (t : Token) → Safe j (parse_return expression t)
  unfolding parse_return
  parse_return-Safe t =
      bind-Safe j (parse_return_value expression) _ parse_return_value-Safe
        (λ x. then-Safe j consume_statement_end _ (consume_statement_end-Safe j) (pure-Safe j _))

  -- The keyword of a statement that ends at once.
  ended-Takes :
      (p : Parser) (kind : TokenKind) (s : Stmt)
      → (first_token p.tokens).kind ≡ kind
      → kind ≢ TokenKind.eof
      → length p.tokens ≤ suc j
      → Returns j ((advance_token >> consume_statement_end >> pure s) p)
  ended-Takes p kind s q k l =
      bind-Takes j (advance_token >> consume_statement_end) _ p
        (advance-Takes j kind consume_statement_end p q k l (consume_statement_end-Safe j))
        (λ a. pure-Safe j s)

  simple-Takes :
      (p : Parser) (kind : TokenKind)
      → (first_token p.tokens).kind ≡ kind
      → kind ≢ TokenKind.eof
      → length p.tokens ≤ suc j
      → Returns j (parse_simple_statement expression n true p)
  unfolding parse_simple_statement ◌>>=◌
  simple-Takes p kind q k l =
      simple_at-Takes expression n j true h e p _ refl (λ z. k (sym q ∙ z)) l

  -- A statement that starts at neither a brace nor the end takes a token.
  statement_at-Takes :
      (p : Parser) (kind : TokenKind)
      → (first_token p.tokens).kind ≡ kind
      → kind ≢ TokenKind.eof
      → length p.tokens ≤ suc j
      → Returns j (statement_at expression block n (first_token p.tokens) kind p)
  statement_at-Takes p TokenKind.while_kw q k l =
      advance-Takes j TokenKind.while_kw _ p q k l
        (parse_while-Safe expression block j (first_token p.tokens) e b)
  statement_at-Takes p TokenKind.for_kw q k l =
      advance-Takes j TokenKind.for_kw _ p q k l
        (parse_for-Safe expression block n j (first_token p.tokens) h e b)
  statement_at-Takes p TokenKind.if_kw q k l =
      advance-Takes j TokenKind.if_kw _ p q k l
        (parse_if-Safe expression block n j (first_token p.tokens) h e b)
  statement_at-Takes p TokenKind.switch_kw q k l =
      advance-Takes j TokenKind.switch_kw _ p q k l (parse_switch-Safe (first_token p.tokens))
  statement_at-Takes p TokenKind.return_kw q k l =
      advance-Takes j TokenKind.return_kw _ p q k l (parse_return-Safe (first_token p.tokens))
  statement_at-Takes p TokenKind.break_kw q k l =
      ended-Takes p TokenKind.break_kw (break_stmt (first_token p.tokens)) q k l
  statement_at-Takes p TokenKind.continue_kw q k l =
      ended-Takes p TokenKind.continue_kw (continue_stmt (first_token p.tokens)) q k l
  statement_at-Takes p kind q k l = simple-Takes p kind q k l

  statement-Takes :
      (p : Parser)
      → ends_statement (first_token p.tokens).kind ≡ false
      → length p.tokens ≤ suc j
      → Returns j (parse_statement expression block n p)
  unfolding parse_statement ◌>>=◌
  statement-Takes p k l = statement_at-Takes p _ refl (λ z. cc (k, ap ends_statement z)) l

too_many_errors-Safe : (j : ℕ) → Safe j too_many_errors
too_many_errors-Safe j = record { runs = λ p h. h }

-- An action that takes a token wherever a statement may start.
abbrev Statement : ℕ → M Stmt → Type 0
Statement j statement =
    (i : ℕ)
    → i < j
    → (p : Parser) → ends_statement (first_token p.tokens).kind ≡ false
    → length p.tokens ≤ suc i
    → Returns i (statement p)

module _ (statement : M Stmt) where
  -- What follows a statement.
  stmts_tail-Safe :
      (n i : ℕ) (s : Stmt)
      → Safe i (parse_stmts statement n)
      → Safe i (
          too_many_errors >>= λ stopped. elim stopped as (λ _. M Block) [
            | true ↦ pure (push_stmt s no_stmts)
            | false ↦
                skip_separators >> (parse_stmts statement n >>= λ rest. pure (push_stmt s rest))
          ])
  stmts_tail-Safe n i s r = bind-Safe i too_many_errors _ (too_many_errors-Safe i) (λ stopped.
      choose-Safe i stopped _ _ (pure-Safe i _) (
        then-Safe i skip_separators _ (skip_separators-Safe i)
          (bind-Safe i (parse_stmts statement n) _ r (λ rest. pure-Safe i _))))

  stmts_at-Returns :
      (n j : ℕ)
      → Statement j statement
      → SafeBelow j (parse_stmts statement n)
      → (p : Parser) (b : Bool) → ends_statement (first_token p.tokens).kind ≡ b
      → length p.tokens ≤ j
      → Returns j (
          elim b as (λ _. M Block) [
            | true ↦ pure no_stmts
            | false ↦ statement >>= λ s. too_many_errors >>= λ stopped.
                elim stopped as (λ _. M Block) [
                  | true ↦ pure (push_stmt s no_stmts)
                  | false ↦
                      skip_separators
                      >> (parse_stmts statement n >>= λ rest. pure (push_stmt s rest))
                ]
          ]
            p)
  stmts_at-Returns n j s r p true e k = k
  stmts_at-Returns n zero s r p false e k = absurd (omega (arith, ends_statement-length p.tokens e))
  stmts_at-Returns n (suc i) s r p false e k = Returns-weaken i (suc i) _ (omega arith) (
      bind-Takes i statement _ p (s i (omega arith) p e k)
        (λ x. stmts_tail-Safe n i x (r i (omega arith))))

  parse_stmts-Safe : (n j : ℕ) → j < n → Statement j statement → Safe j (parse_stmts statement n)
  unfolding parse_stmts
  parse_stmts-Safe zero j h s = absurd (omega arith)
  parse_stmts-Safe (suc n) j h s = peek-Safe j _ (λ p k.
      stmts_at-Returns n j s
        (λ i hi. parse_stmts-Safe n i (omega arith) (λ l hl. s l (omega arith))) p _ refl k)

pub parse_block-Safe : (n j : ℕ) → j < n → Safe j (parse_block n)
unfolding parse_block
parse_block-Safe zero j h = absurd (omega arith)
parse_block-Safe (suc n) j h =
    consume-Safe j TokenKind.lbrace _ _ (cc) (pure-Safe j no_stmts) (λ t i hi.
      then-Safe i skip_separators _ (skip_separators-Safe i) (
        bind-Safe i
          (parse_stmts (parse_statement (parse_expression (suc n)) (parse_block n) (suc n)) (suc n))
          _
          (parse_stmts-Safe _ (suc n) i (omega arith) (λ k hk.
            statement-Takes (parse_expression (suc n)) (parse_block n) (suc n) k (omega arith)
              (λ l hl. parse_binary-Safe (suc n) 1 l (omega arith))
              (λ l hl. parse_block-Safe n l (omega arith))))
          (λ body.
            then-Safe i (consume TokenKind.rbrace _) _ (consume_any-Safe i TokenKind.rbrace _)
              (pure-Safe i body))))
