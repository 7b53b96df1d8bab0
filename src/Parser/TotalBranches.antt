-- ===== src/Parser/TotalBranches.antt =====
-- `if`, `while` and `for` end, if the blocks in them do.
use Prim.Native.String.{String}
use back_and_forth.Prelude.{ℕ, zero, suc, ◌≤◌, ◌<◌, ◌≡◌, refl, false, List, arith, length}
use back_and_forth.Token.{Token, TokenKind}
use back_and_forth.Syntax.{Expr, Block, Branches, null, null_stmt}
use back_and_forth.Parser.Stream.{
  Parser, M, pure, ◌>>=◌, ◌>>◌, first_token, peek_token, check, consume, skip_newlines,
  skip_separators,
}
use back_and_forth.Parser.Statements.{
  parse_condition, parse_while, parse_branch, parse_else, branches_at, parse_branches, parse_if,
  unless_at, parse_for,
}
use back_and_forth.Parser.Safe.{
  Returns, Safe, SafeBelow, bind-Safe, then-Safe, choose-Safe, pure-Safe, match-Safe,
  consume_any-Safe, check-Safe, skip_newlines-Safe, skip_separators-Safe, peek-Safe,
  advance_at-Returns,
}
use back_and_forth.Parser.TotalStatements.{SafeUpTo, parse_condition-Safe, parse_simple-Safe}

-- The branches behind the first one, whose keywords were taken.
module _ (expression : M Expr) (block : M Block) (j : ℕ) (e : SafeUpTo j expression)
    (b : SafeUpTo j block) where
  parse_branch-Safe :
      (rest : M Branches) (before after : String) (t : Token)
      → Safe j rest
      → Safe j (parse_branch expression block rest before after t)
  unfolding parse_branch
  parse_branch-Safe rest before after t r =
      bind-Safe j (parse_condition expression before after) _
        (parse_condition-Safe expression j before after (e j (omega arith)))
        (λ condition.
          bind-Safe j block _ (b j (omega arith))
            (λ body. bind-Safe j rest _ r (λ others. pure-Safe j _)))

pub parse_else-Safe :
    (expression : M Expr) (block : M Block) (rest : M Branches) (j : ℕ) (t : Token)
    → SafeUpTo j expression
    → SafeUpTo j block
    → SafeUpTo j rest
    → Safe j (parse_else expression block rest t)
unfolding parse_else
parse_else-Safe expression block rest j t e b r =
    then-Safe j skip_newlines _ (skip_newlines-Safe j) (
      match-Safe j TokenKind.if_kw _ (cc)
        (bind-Safe j block _ (b j (omega arith)) (λ body. pure-Safe j _))
        (λ u i hi.
          parse_branch-Safe expression block i (λ k hk. e k (omega arith))
            (λ k hk. b k (omega arith)) rest _ _ u (r i (omega arith))))

branches_at-Returns :
    (expression : M Expr) (block : M Block) (rest : M Branches) (j : ℕ) (start : List Token)
    (p : Parser) (kind : TokenKind)
    → SafeUpTo j expression
    → SafeBelow j block
    → SafeBelow j rest
    → length start ≤ j
    → (first_token p.tokens).kind ≡ kind
    → length p.tokens ≤ j
    → Returns j (branches_at expression block rest start (first_token p.tokens) kind p)
branches_at-Returns expression block rest j start p TokenKind.elsif_kw e b r s q h =
    advance_at-Returns j TokenKind.elsif_kw _ p q (cc) h (λ i hi.
      parse_branch-Safe expression block i (λ k hk. e k (omega arith)) (λ k hk. b k (omega arith))
        rest _ _ (first_token p.tokens) (r i hi))
branches_at-Returns expression block rest j start p TokenKind.else_kw e b r s q h =
    advance_at-Returns j TokenKind.else_kw _ p q (cc) h (λ i hi.
      parse_else-Safe expression block rest i (first_token p.tokens) (λ k hk. e k (omega arith))
        (λ k hk. b k (omega arith)) (λ k hk. r k (omega arith)))
branches_at-Returns expression block rest j start p kind e b r s q h = s

branches_start :
    (expression : M Expr) (block : M Block) (rest : M Branches) (j : ℕ) (start : List Token)
    → SafeUpTo j expression
    → SafeBelow j block
    → SafeBelow j rest
    → length start ≤ j
    → Safe j
        (skip_separators >> (peek_token >>= λ t. branches_at expression block rest start t t.kind))
branches_start expression block rest j start e b r s =
    then-Safe j skip_separators _ (skip_separators-Safe j)
      (peek-Safe j _ (λ p h. branches_at-Returns expression block rest j start p _ e b r s refl h))

pub parse_branches-Safe :
    (expression : M Expr) (block : M Block) (n j : ℕ)
    → j < n
    → SafeUpTo j expression
    → SafeBelow j block
    → Safe j (parse_branches expression block n)
unfolding parse_branches
parse_branches-Safe expression block zero j h e b = absurd (omega arith)
parse_branches-Safe expression block (suc n) j h e b =
    let below : SafeBelow j (parse_branches expression block n) = λ i hi.
      parse_branches-Safe expression block n i (omega arith) (λ l hl. e l (omega arith))
        (λ l hl. b l (omega arith)) in
    record {
      runs = λ p k.
          let start =
            branches_start expression block (parse_branches expression block n) j p.tokens e b below
              k in
          start.runs p k;
    }

pub parse_if-Safe :
    (expression : M Expr) (block : M Block) (n j : ℕ) (t : Token)
    → j < n
    → SafeUpTo j expression
    → SafeUpTo j block
    → Safe j (parse_if expression block n t)
unfolding parse_if
parse_if-Safe expression block n j t h e b =
    bind-Safe j (parse_condition expression _ _) _
      (parse_condition-Safe expression j _ _ (e j (omega arith)))
      (λ condition. bind-Safe j block _ (b j (omega arith)) (λ body.
        bind-Safe j (parse_branches expression block n) _
          (parse_branches-Safe expression block n j h e (λ i hi. b i (omega arith)))
          (λ rest. pure-Safe j _)))

pub parse_while-Safe :
    (expression : M Expr) (block : M Block) (j : ℕ) (t : Token)
    → SafeUpTo j expression
    → SafeUpTo j block
    → Safe j (parse_while expression block t)
unfolding parse_while
parse_while-Safe expression block j t e b =
    bind-Safe j (parse_condition expression _ _) _
      (parse_condition-Safe expression j _ _ (e j (omega arith)))
      (λ condition. bind-Safe j block _ (b j (omega arith)) (λ body. pure-Safe j _))

unless_at-Safe :
    {A : Type 0} (j : ℕ) (stop : TokenKind) (absent : A) (present : M A)
    → Safe j present
    → Safe j (unless_at stop absent present)
unfolding unless_at
unless_at-Safe j stop absent present h =
    bind-Safe j (check stop) _ (check-Safe j stop)
      (λ stopped. choose-Safe j stopped (pure absent) present (pure-Safe j absent) h)

-- `consume` and the newlines behind it.
take_and_skip :
    {A : Type 0} (j : ℕ) (kind : TokenKind) (message : String) (k : M A)
    → Safe j k
    → Safe j (consume kind message >> (skip_newlines >> k))
take_and_skip j kind message k h =
    then-Safe j (consume kind message) _ (consume_any-Safe j kind message)
      (then-Safe j skip_newlines k (skip_newlines-Safe j) h)

pub parse_for-Safe :
    (expression : M Expr) (block : M Block) (n j : ℕ) (t : Token)
    → j < n
    → SafeUpTo j expression
    → SafeUpTo j block
    → Safe j (parse_for expression block n t)
unfolding parse_for
parse_for-Safe expression block n j t h e b =
    let simple = parse_simple-Safe expression n j false h e in
    take_and_skip j TokenKind.lparen _ _ (
      bind-Safe j (unless_at TokenKind.semicolon null_stmt _) _
        (unless_at-Safe j TokenKind.semicolon null_stmt _ simple)
        (λ init. take_and_skip j TokenKind.semicolon _ _ (
          bind-Safe j (unless_at TokenKind.semicolon null expression) _
            (unless_at-Safe j TokenKind.semicolon null expression (e j (omega arith)))
            (λ condition. take_and_skip j TokenKind.semicolon _ _ (
              bind-Safe j (unless_at TokenKind.rparen null_stmt _) _
                (unless_at-Safe j TokenKind.rparen null_stmt _ simple)
                (λ step. then-Safe j skip_newlines _ (skip_newlines-Safe j) (
                  take_and_skip j TokenKind.rparen _ _
                    (bind-Safe j block _ (b j (omega arith)) (λ body. pure-Safe j _)))))))))
