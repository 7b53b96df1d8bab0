-- ===== src/Parser/Total.antt =====
-- `parse_program` ends.
use back_and_forth.Prelude.{
  ℕ, zero, suc, ◌≤◌, ◌<◌, ◌≡◌, ◌≢◌, refl, ap, Bool, true, false, List, [], Option, none, some,
  arith, length,
}
use back_and_forth.Token.{Token, TokenKind}
use back_and_forth.Diagnostic.{Diagnostics, one_begin_block, missing_begin_block}
use back_and_forth.Syntax.{Block, Function}
use back_and_forth.Parser.Kinds.{is_kind, is_kind_refl}
use back_and_forth.Parser.Stream.{
  Parser, M, pure, ◌>>=◌, ◌>>◌, first_token, peek_token, check, report_at, consume, skip_newlines,
  skip_separators, parse_type_name,
}
use back_and_forth.Parser.Blocks.{parse_block}
use back_and_forth.Parser.Program.{
  parse_parameter_type, parse_parameters, parse_written_return_type, parse_return_type,
  parse_named_function, parse_function, Parsed, parse_begin, declaration_at, parse_declarations,
  check_begin, parse_program,
}
use back_and_forth.Parser.Safe.{
  Returns, Safe, SafeBelow, bind-Safe, then-Safe, choose-Safe, pure-Safe, match-Safe, consume-Safe,
  consume_any-Safe, check-Safe, report_at-Safe, peek_token-Safe, skip_newlines-Safe,
  skip_separators-Safe, peek-Safe, bind-Takes, is_kind-length, consume-Takes, advance-Takes,
  reported-Takes, Returns-weaken, parse_type_name-Safe,
}
use back_and_forth.Parser.TotalBlocks.{parse_block-Safe}

parse_parameter_type-Safe : (j : ℕ) → Safe j parse_parameter_type
unfolding parse_parameter_type
parse_parameter_type-Safe j = match-Safe j TokenKind.colon _ (cc) (pure-Safe j _) (λ t i hi.
    then-Safe i skip_newlines _ (skip_newlines-Safe i)
      (bind-Safe i parse_type_name _ (parse_type_name-Safe i) (λ type. pure-Safe i _)))

parse_parameters-Safe : (n j : ℕ) → j < n → Safe j (parse_parameters n)
unfolding parse_parameters
parse_parameters-Safe zero j h = absurd (omega arith)
parse_parameters-Safe (suc n) j h = then-Safe j skip_newlines _ (skip_newlines-Safe j) (
    consume-Safe j TokenKind.identifier _ _ (cc) (pure-Safe j []) (λ t i hi.
      bind-Safe i parse_parameter_type _ (parse_parameter_type-Safe i) (λ typed.
        then-Safe i skip_newlines _ (skip_newlines-Safe i) (
          match-Safe i TokenKind.comma _ (cc) (pure-Safe i _) (λ u k hk.
            bind-Safe k (parse_parameters n) _ (parse_parameters-Safe n k (omega arith))
              (λ rest. pure-Safe k _))))))

written_type-Safe : (j : ℕ) → Safe j parse_written_return_type
unfolding parse_written_return_type
written_type-Safe j = then-Safe j skip_newlines _ (skip_newlines-Safe j) (
    match-Safe j TokenKind.void_kw _ (cc)
      (bind-Safe j parse_type_name _ (parse_type_name-Safe j) (λ type. pure-Safe j _))
      (λ t i hi. pure-Safe i _))

parse_return_type-Safe : (j : ℕ) → Safe j parse_return_type
unfolding parse_return_type
parse_return_type-Safe j =
    match-Safe j TokenKind.colon _ (cc)
      (match-Safe j TokenKind.arrow _ (cc) (pure-Safe j _) (λ t i hi. written_type-Safe i))
      (λ t i hi. written_type-Safe i)

named_function-Safe :
    (n j : ℕ) (is_static : Bool) (t : Token) → j < n → Safe j (parse_named_function n is_static t)
unfolding parse_named_function
named_function-Safe n j is_static t h =
    then-Safe j (consume TokenKind.lparen _) _ (consume_any-Safe j TokenKind.lparen _) (
      then-Safe j skip_newlines _ (skip_newlines-Safe j) (
        bind-Safe j (check TokenKind.rparen) _ (check-Safe j TokenKind.rparen) (λ empty.
          bind-Safe j _ _
            (choose-Safe j empty (pure []) (parse_parameters n) (pure-Safe j [])
              (parse_parameters-Safe n j h))
            (λ params. then-Safe j skip_newlines _ (skip_newlines-Safe j) (
              then-Safe j (consume TokenKind.rparen _) _ (consume_any-Safe j TokenKind.rparen _) (
                bind-Safe j parse_return_type _ (parse_return_type-Safe j) (λ returned.
                  then-Safe j skip_newlines _ (skip_newlines-Safe j) (
                    bind-Safe j (parse_block n) _ (parse_block-Safe n j h)
                      (λ body. pure-Safe j _)))))))))

-- What follows `func`.
function_tail-Safe :
    (n j : ℕ) (is_static : Bool) (func : Option Token)
    → j < n
    → Safe j (
        consume TokenKind.arrow "expected '->' after 'func'"
        >> (consume TokenKind.identifier "expected function name" >>= λ declared.
            elim func as (λ _. M (Option Function)) [
              | none ↦ pure none
              | some t ↦ elim declared as (λ _. M (Option Function)) [
                | none ↦ pure none
                | some u ↦ parse_named_function n is_static u >>= λ f. pure (some f)
              ]
            ]))
function_tail-Safe n j is_static none h =
    then-Safe j (consume TokenKind.arrow _) _ (consume_any-Safe j TokenKind.arrow _) (
      bind-Safe j (consume TokenKind.identifier _) _ (consume_any-Safe j TokenKind.identifier _)
        (λ declared. pure-Safe j none))
function_tail-Safe n j is_static (some t) h =
    then-Safe j (consume TokenKind.arrow _) _ (consume_any-Safe j TokenKind.arrow _) (
      consume-Safe j TokenKind.identifier _ _ (cc) (pure-Safe j none) (λ u i hi.
        bind-Safe i (parse_named_function n is_static u) _
          (named_function-Safe n i is_static u (omega arith)) (λ f. pure-Safe i _)))

parse_function-Safe : (n j : ℕ) (is_static : Bool) → j < n → Safe j (parse_function n is_static)
unfolding parse_function
parse_function-Safe n j is_static h =
    bind-Safe j (consume TokenKind.func_kw _) _ (consume_any-Safe j TokenKind.func_kw _)
      (λ func. function_tail-Safe n j is_static func h)

-- At `func` it takes that token.
parse_function-Takes :
    (n i : ℕ) (is_static : Bool) (p : Parser)
    → i < n
    → (first_token p.tokens).kind ≡ TokenKind.func_kw
    → length p.tokens ≤ suc i
    → Returns i (parse_function n is_static p)
unfolding parse_function
parse_function-Takes n i is_static p h e k =
    consume-Takes i TokenKind.func_kw _ _ p e (cc) k
      (λ t. function_tail-Safe n i is_static (some t) h)

parse_begin-Safe :
    (n j : ℕ) (t : Token) (r : Parsed) (b : Option Block)
    → r.begin_block ≡ b
    → j < n
    → Safe j (elim b as (λ _. M Parsed) [
      | some b ↦ report_at t one_begin_block >> (parse_block n >> pure r)
      | none ↦ skip_newlines >> (parse_block n >>= λ b. pure (record r { begin_block = some b }))
    ])
parse_begin-Safe n j t r (some b) e h =
    then-Safe j (report_at t _) _ (report_at-Safe j t _)
      (then-Safe j (parse_block n) _ (parse_block-Safe n j h) (pure-Safe j r))
parse_begin-Safe n j t r none e h =
    then-Safe j skip_newlines _ (skip_newlines-Safe j)
      (bind-Safe j (parse_block n) _ (parse_block-Safe n j h) (λ b. pure-Safe j _))

begin_at-Safe : (n j : ℕ) (t : Token) (r : Parsed) → j < n → Safe j (parse_begin n t r)
unfolding parse_begin
begin_at-Safe n j t r h = parse_begin-Safe n j t r r.begin_block refl h

-- A round of the loop takes a token.
declaration_at-Takes :
    (n i : ℕ) (r : Parsed) (p : Parser) (kind : TokenKind)
    → i < n
    → (first_token p.tokens).kind ≡ kind
    → kind ≢ TokenKind.eof
    → length p.tokens ≤ suc i
    → Returns i (declaration_at n (first_token p.tokens) r kind p)
declaration_at-Takes n i r p TokenKind.static_kw h e k l =
    advance-Takes i TokenKind.static_kw _ p e k l
      (bind-Safe i (parse_function n true) _ (parse_function-Safe n i true h) (λ f. pure-Safe i _))
declaration_at-Takes n i r p TokenKind.func_kw h e k l =
    bind-Takes i (parse_function n false) _ p (parse_function-Takes n i false p h e l)
      (λ f. pure-Safe i _)
declaration_at-Takes n i r p TokenKind.begin_kw h e k l =
    advance-Takes i TokenKind.begin_kw _ p e k l (begin_at-Safe n i (first_token p.tokens) r h)
declaration_at-Takes n i r p kind h e k l = reported-Takes i (first_token p.tokens) _ r p kind e k l

declarations_at-Returns :
    (n m j : ℕ) (r : Parsed) (p : Parser) (b : Bool)
    → j < n
    → ((r : Parsed) → SafeBelow j (parse_declarations n m r))
    → is_kind (first_token p.tokens).kind TokenKind.eof ≡ b
    → length p.tokens ≤ j
    → Returns j (
        elim b as (λ _. M Parsed) [
          | true ↦ pure r
          | false ↦ declaration_at n (first_token p.tokens) r (first_token p.tokens).kind >>= λ r'.
              skip_separators >> parse_declarations n m r'
        ]
          p)
declarations_at-Returns n m j r p true h s e k = k
declarations_at-Returns n m zero r p false h s e k =
    absurd (omega (arith, is_kind-length p.tokens e))
declarations_at-Returns n m (suc i) r p false h s e k =
    let other : (first_token p.tokens).kind ≢ TokenKind.eof =
      λ z. cc (e, ap (λ x. is_kind x TokenKind.eof) z, is_kind_refl TokenKind.eof) in
    Returns-weaken i (suc i) _ (omega arith) (
      bind-Takes i (declaration_at n (first_token p.tokens) r (first_token p.tokens).kind) _ p
        (declaration_at-Takes n i r p _ (omega arith) refl other k)
        (λ r'. then-Safe i skip_separators _ (skip_separators-Safe i) (s r' i (omega arith))))

parse_declarations-Safe :
    (n m j : ℕ) (r : Parsed) → j < n → j < m → Safe j (parse_declarations n m r)
unfolding parse_declarations
parse_declarations-Safe n zero j r h l = absurd (omega arith)
parse_declarations-Safe n (suc m) j r h l = peek-Safe j _ (λ p k.
    declarations_at-Returns n m j r p _ h
      (λ r' i hi. parse_declarations-Safe n m i r' (omega arith) (omega arith)) refl k)

begin_present-Safe :
    (j : ℕ) (r : Parsed) (o : Option Block)
    → Safe j (elim o as (λ _. M Parsed) [
      | some b ↦ pure r
      | none ↦ peek_token >>= λ t. report_at t missing_begin_block >> pure r
    ])
begin_present-Safe j r (some b) = pure-Safe j r
begin_present-Safe j r none =
    bind-Safe j peek_token _ (peek_token-Safe j)
      (λ t. then-Safe j (report_at t _) _ (report_at-Safe j t _) (pure-Safe j r))

program-Safe :
    (n j : ℕ)
    → j < n
    → Safe j (
        skip_separators
        >> (parse_declarations n n (record { functions = []; begin_block = none }) >>= check_begin))
program-Safe n j h = then-Safe j skip_separators _ (skip_separators-Safe j) (
    bind-Safe j (parse_declarations n n _) check_begin (parse_declarations-Safe n n j _ h h)
      (λ r. begin_present-Safe j r r.begin_block))

Returns-some :
    (j : ℕ) (o : Option (Parsed × Parser))
    → Returns j o
    → (r : Parsed × Diagnostics) × (elim o as (λ _. Option (Parsed × Diagnostics)) [
      | none ↦ none
      | some (r, p) ↦ some (r, p.diag)
    ]
        ≡ some r)
Returns-some j none h = absurd h
Returns-some j (some (r, p)) h = ((r, p.diag), refl)

-- `parse_program` gives a result on every list of tokens, with the diagnostics that it reported:
-- the fuel, the number of tokens and one, never runs out, in its loops and in the recursion.
pub parse_program-total :
    (tokens : List Token) (diag : Diagnostics)
    → (r : Parsed × Diagnostics) × (parse_program tokens diag ≡ some r)
unfolding parse_program
parse_program-total tokens diag =
    let p : Parser = record { tokens = tokens; diag = diag } in
    let j = length tokens in
    Returns-some j _ ((program-Safe (suc j) j (omega arith)).runs p (omega arith))
