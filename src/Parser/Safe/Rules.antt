-- ===== src/Parser/Safe/Rules.antt =====
-- Parsing actions that end, and leave no more tokens than a bound: rules for the combinators.
use back_and_forth.Prelude.{
  ℕ, ◌≤◌, ◌<◌, ◌≡◌, sym, subst, Bool, true, false, Option, none, some, arith, length,
}
use back_and_forth.Token.{Token, TokenKind}
use back_and_forth.Diagnostic.{Message, diag_error}
use back_and_forth.Parser.Stream.{
  Parser, M, pure, ◌>>=◌, ◌>>◌, first_token, peek_token, lookahead, check, report_at,
}

-- A result, with at most `j` tokens left.
abbrev pub Returns : {A : Type 0} → ℕ → Option (A × Parser) → Type 0
Returns j none = ⊥
Returns j (some (a, q)) = length q.tokens ≤ j

-- From at most `j` tokens, the action ends with at most `j`.
pub record Safe {A : Type 0} (j : ℕ) (m : M A) : Type 0 where
  pub runs : (p : Parser) → length p.tokens ≤ j → Returns j (m p)

-- With fewer tokens than `j`.
abbrev pub SafeBelow : {A : Type 0} → ℕ → M A → Type 0
SafeBelow j m = (i : ℕ) → i < j → Safe i m

pub bind-Returns :
    {A B : Type 0} (j : ℕ) (f : A → M B) (r : Option (A × Parser))
    → Returns j r
    → ((a : A) → Safe j (f a))
    → Returns j (elim r as (λ _. Option (B × Parser)) [ none ↦ none | some (a, q) ↦ f a q ])
bind-Returns j f none h k = h
bind-Returns j f (some (a, q)) h k = (k a).runs q h

pub bind-Safe :
    {A B : Type 0} (j : ℕ) (m : M A) (f : A → M B)
    → Safe j m
    → ((a : A) → Safe j (f a))
    → Safe j (m >>= f)
unfolding ◌>>=◌
bind-Safe j m f hm hf = record { runs = λ p h. bind-Returns j f (m p) (hm.runs p h) hf }

pub Returns-weaken :
    {A : Type 0} (i j : ℕ) (r : Option (A × Parser)) → i ≤ j → Returns i r → Returns j r
Returns-weaken i j none l h = h
Returns-weaken i j (some (a, q)) l h = omega arith

-- Where the first action gave `a` and left `q`.
pub bind-at :
    {A B : Type 0} (j : ℕ) (f : A → M B) (a : A) (q : Parser) (r : Option (A × Parser))
    → r ≡ some (a, q)
    → Returns j (f a q)
    → Returns j (elim r as (λ _. Option (B × Parser)) [ none ↦ none | some (b, u) ↦ f b u ])
bind-at {A} {B} j f a q r e h =
    subst
      (λ x. Returns j (elim x as (λ _. Option (B × Parser)) [ none ↦ none | some (b, u) ↦ f b u ]))
      (sym e) h

pub report_at-Safe : (j : ℕ) (t : Token) (m : Message) → Safe j (report_at t m)
report_at-Safe j t m = record { runs = λ p h. h }

pub check-Safe : (j : ℕ) (kind : TokenKind) → Safe j (check kind)
unfolding check
check-Safe j kind = record { runs = λ p h. h }

pub pure-Safe : {A : Type 0} (j : ℕ) (a : A) → Safe j (pure a)
pure-Safe j a = record { runs = λ p h. h }

-- Actions whose first results are not looked at.
pub then-Safe : {A B : Type 0} (j : ℕ) (m : M A) (k : M B) → Safe j m → Safe j k → Safe j (m >> k)
then-Safe j m k hm hk = bind-Safe j m (λ _. k) hm (λ a. hk)

pub choose-Safe :
    {A : Type 0} (j : ℕ) (test : Bool) (x y : M A)
    → Safe j x
    → Safe j y
    → Safe j (elim test as (λ _. M A) [ true ↦ x | false ↦ y ])
choose-Safe j true x y hx hy = hx
choose-Safe j false x y hx hy = hy

pub peek_token-Safe : (j : ℕ) → Safe j peek_token
peek_token-Safe j = record { runs = λ p h. h }

pub lookahead-Safe : (j : ℕ) → Safe j lookahead
lookahead-Safe j = record { runs = λ p h. h }

peek_runs :
    {A : Type 0} (j : ℕ) (f : Token → M A)
    → ((p : Parser) → length p.tokens ≤ j → Returns j (f (first_token p.tokens) p))
    → (p : Parser) → length p.tokens ≤ j
    → Returns j ((peek_token >>= f) p)
unfolding ◌>>=◌
peek_runs j f k p h = k p h

-- A look at the first token, with what follows where that token stands.
pub peek-Safe :
    {A : Type 0} (j : ℕ) (f : Token → M A)
    → ((p : Parser) → length p.tokens ≤ j → Returns j (f (first_token p.tokens) p))
    → Safe j (peek_token >>= f)
peek-Safe j f k = record { runs = peek_runs j f k }

-- A message leaves the tokens.
pub report_at-Returns :
    {A : Type 0} (j : ℕ) (t : Token) (m : Message) (k : M A) (p : Parser)
    → Returns j (k (record p { diag = diag_error p.diag t.at m }))
    → Returns j ((report_at t m >> k) p)
unfolding ◌>>=◌
report_at-Returns j t m k p h = h

-- An action, and one that ends on what it leaves.
pub bind-Takes :
    {A B : Type 0} (i : ℕ) (m : M A) (f : A → M B) (p : Parser)
    → Returns i (m p)
    → ((a : A) → Safe i (f a))
    → Returns i ((m >>= f) p)
unfolding ◌>>=◌
bind-Takes i m f p h k = bind-Returns i f (m p) h k
