-- ===== src/Parser/Safe/Takes.antt =====
-- Actions that take a token: what follows has fewer tokens.
use Prim.Native.String.{String}
use back_and_forth.Prelude.{
  ℕ, zero, suc, ◌≤◌, ◌<◌, ◌≡◌, ◌≢◌, refl, sym, ap, ◌∙◌, true, false, List, [], ◌∷◌, Option, none,
  some, arith, length, Bool-cases, inl, inr, codes,
}
use back_and_forth.Token.{Token, TokenKind}
use back_and_forth.Diagnostic.{Message, diag_error, expected_token}
use back_and_forth.Syntax.{BafType}
use back_and_forth.Parser.Kinds.{is_kind, is_kind-eq, is_kind_refl}
use back_and_forth.Parser.Stream.{
  Parser, M, pure, ◌>>=◌, ◌>>◌, first_token, drop_first, advance_token, match, report_at, consume,
  type_of_kind, type_name_at, parse_type_name, ends_statement,
}
use back_and_forth.Parser.Safe.Rules.{Returns, Safe, SafeBelow, Returns-weaken, bind-at}

pub length-drop_first :
    (ts : List Token) → (first_token ts).kind ≢ TokenKind.eof → length (drop_first ts) < length ts
unfolding drop_first
length-drop_first [] h = absurd (h refl)
length-drop_first (t ∷ ts) h = elim (Bool-cases (is_kind t.kind TokenKind.eof)) [
  | inl e ↦ absurd (h (is_kind-eq t.kind TokenKind.eof e))
  | inr e ↦ rw e (omega arith)
]

-- What stands behind a token that was taken has fewer tokens.
pub advance-Returns :
    {A : Type 0} (j : ℕ) (m : M A) (p : Parser)
    → (first_token p.tokens).kind ≢ TokenKind.eof
    → length p.tokens ≤ j
    → SafeBelow j m
    → Returns j ((advance_token >> m) p)
unfolding advance_token ◌>>=◌
advance-Returns j m p k h below =
    let q : Parser = record p { tokens = drop_first p.tokens } in
    let shorter = length-drop_first p.tokens k in
    let i = length q.tokens in
    Returns-weaken i j (m q) (omega arith) ((below i (omega arith)).runs q (omega arith))

match_runs :
    {A : Type 0} (j : ℕ) (kind : TokenKind) (f : Option Token → M A)
    → kind ≢ TokenKind.eof
    → Safe j (f none)
    → ((t : Token) → SafeBelow j (f (some t)))
    → (p : Parser) → length p.tokens ≤ j
    → Returns j ((match kind >>= f) p)
unfolding match ◌>>=◌
match_runs j kind f k absent taken p h =
    let t = first_token p.tokens in
    elim (Bool-cases (is_kind t.kind kind)) [
      | inr e ↦ bind-at j f none p (match kind p) (rw (e, match) refl) (absent.runs p h)
      | inl e ↦
          let q : Parser = record p { tokens = drop_first p.tokens } in
          let same = is_kind-eq t.kind kind e in
          let shorter = length-drop_first p.tokens (λ z. k (sym same ∙ z)) in
          let i = length q.tokens in
          bind-at j f (some t) q (match kind p) (rw (e, match) refl) (
            Returns-weaken i j (f (some t) q) (omega arith)
              ((taken t i (omega arith)).runs q (omega arith)))
    ]

-- A `match`, with what follows on either branch.
pub match-Safe :
    {A : Type 0} (j : ℕ) (kind : TokenKind) (f : Option Token → M A)
    → kind ≢ TokenKind.eof
    → Safe j (f none)
    → ((t : Token) → SafeBelow j (f (some t)))
    → Safe j (match kind >>= f)
match-Safe j kind f k absent taken = record { runs = match_runs j kind f k absent taken }

pub match_present :
    (kind : TokenKind) (p : Parser)
    → is_kind (first_token p.tokens).kind kind ≡ true
    → match kind p ≡ some (some (first_token p.tokens), record p { tokens = drop_first p.tokens })
unfolding match
match_present kind p e = rw e refl

pub match_absent :
    (kind : TokenKind) (p : Parser)
    → is_kind (first_token p.tokens).kind kind ≡ false
    → match kind p ≡ some (none, p)
unfolding match
match_absent kind p e = rw e refl

pub consume_present :
    (kind : TokenKind) (message : String) (p : Parser)
    → is_kind (first_token p.tokens).kind kind ≡ true
    → consume kind message p
      ≡ some (some (first_token p.tokens), record p { tokens = drop_first p.tokens })
unfolding consume ◌>>=◌
consume_present kind message p e = rw (match_present kind p e, consume, ◌>>=◌) refl

pub consume_absent :
    (kind : TokenKind) (message : String) (p : Parser)
    → is_kind (first_token p.tokens).kind kind ≡ false
    → consume kind message p
      ≡ some (
        none,
        record p {
          diag =
              diag_error p.diag
                (first_token p.tokens).at
                (expected_token (codes message) (first_token p.tokens).kind);
        },
      )
unfolding consume ◌>>=◌
consume_absent kind message p e = rw (match_absent kind p e, consume, ◌>>=◌) refl

consume_runs :
    {A : Type 0} (j : ℕ) (kind : TokenKind) (message : String) (f : Option Token → M A)
    → kind ≢ TokenKind.eof
    → Safe j (f none)
    → ((t : Token) → SafeBelow j (f (some t)))
    → (p : Parser) → length p.tokens ≤ j
    → Returns j ((consume kind message >>= f) p)
unfolding ◌>>=◌
consume_runs j kind message f k absent taken p h =
    let t = first_token p.tokens in
    elim (Bool-cases (is_kind t.kind kind)) [
      | inr e ↦
          let d = diag_error p.diag t.at (expected_token (codes message) t.kind) in
          let q : Parser = record p { diag = d } in
          bind-at j f none q (consume kind message p) (consume_absent kind message p e)
            (absent.runs q h)
      | inl e ↦
          let q : Parser = record p { tokens = drop_first p.tokens } in
          let same = is_kind-eq t.kind kind e in
          let shorter = length-drop_first p.tokens (λ z. k (sym same ∙ z)) in
          let i = length q.tokens in
          bind-at j f (some t) q (consume kind message p) (consume_present kind message p e) (
            Returns-weaken i j (f (some t) q) (omega arith)
              ((taken t i (omega arith)).runs q (omega arith)))
    ]

-- `consume`, with what follows on either branch.
pub consume-Safe :
    {A : Type 0} (j : ℕ) (kind : TokenKind) (message : String) (f : Option Token → M A)
    → kind ≢ TokenKind.eof
    → Safe j (f none)
    → ((t : Token) → SafeBelow j (f (some t)))
    → Safe j (consume kind message >>= f)
consume-Safe j kind message f k absent taken = record {
  runs = consume_runs j kind message f k absent taken;
}

-- The first token is of a kind that is no end of file.
pub advance_at-Returns :
    {A : Type 0} (j : ℕ) (kind : TokenKind) (m : M A) (p : Parser)
    → (first_token p.tokens).kind ≡ kind
    → kind ≢ TokenKind.eof
    → length p.tokens ≤ j
    → SafeBelow j m
    → Returns j ((advance_token >> m) p)
advance_at-Returns j kind m p e k h below = advance-Returns j m p (λ z. k (sym e ∙ z)) h below

-- The first token, which is no end of file, is taken.
pub advance-Takes :
    {A : Type 0} (i : ℕ) (kind : TokenKind) (m : M A) (p : Parser)
    → (first_token p.tokens).kind ≡ kind
    → kind ≢ TokenKind.eof
    → length p.tokens ≤ suc i
    → Safe i m
    → Returns i ((advance_token >> m) p)
unfolding advance_token ◌>>=◌
advance-Takes i kind m p e k h safe =
    let q : Parser = record p { tokens = drop_first p.tokens } in
    let shorter = length-drop_first p.tokens (λ z. k (sym e ∙ z)) in safe.runs q (omega arith)

type_name_at-Takes :
    {A : Type 0} (i : ℕ) (f : BafType → M A) (p : Parser) (o : Option BafType)
    → type_of_kind (first_token p.tokens).kind ≡ o
    → o ≢ none
    → length p.tokens ≤ suc i
    → ((type : BafType) → Safe i (f type))
    → Returns i ((type_name_at (first_token p.tokens) o >>= f) p)
unfolding type_name_at advance_token ◌>>=◌
type_name_at-Takes i f p none e k h safe = absurd (k refl)
type_name_at-Takes i f p (some type) e k h safe =
    let q : Parser = record p { tokens = drop_first p.tokens } in
    let shorter = length-drop_first p.tokens (λ z. cc (e, ap type_of_kind z)) in
    (safe type).runs q (omega arith)

-- The keyword of a type is taken.
pub parse_type_name-Takes :
    {A : Type 0} (i : ℕ) (f : BafType → M A) (p : Parser)
    → type_of_kind (first_token p.tokens).kind ≢ none
    → length p.tokens ≤ suc i
    → ((type : BafType) → Safe i (f type))
    → Returns i ((parse_type_name >>= f) p)
unfolding parse_type_name ◌>>=◌
parse_type_name-Takes i f p k h safe = type_name_at-Takes i f p _ refl k h safe

-- A message, and its token is taken.
pub reported-Takes :
    {A : Type 0} (i : ℕ) (t : Token) (m : Message) (a : A) (p : Parser) (kind : TokenKind)
    → (first_token p.tokens).kind ≡ kind
    → kind ≢ TokenKind.eof
    → length p.tokens ≤ suc i
    → Returns i ((report_at t m >> advance_token >> pure a) p)
unfolding ◌>>=◌ advance_token
reported-Takes i t m a p kind e k h = omega (arith, length-drop_first p.tokens (λ z. k (sym e ∙ z)))

-- A list whose first token ends no statement is not empty.
pub ends_statement-length :
    (ts : List Token) → ends_statement (first_token ts).kind ≡ false → zero < length ts
ends_statement-length [] h = absurd (cc (h))
ends_statement-length (t ∷ ts) h = omega arith

-- `consume` at a token of the kind.
pub consume-Takes :
    {A : Type 0} (i : ℕ) (kind : TokenKind) (message : String) (f : Option Token → M A) (p : Parser)
    → (first_token p.tokens).kind ≡ kind
    → kind ≢ TokenKind.eof
    → length p.tokens ≤ suc i
    → ((t : Token) → Safe i (f (some t)))
    → Returns i ((consume kind message >>= f) p)
unfolding ◌>>=◌
consume-Takes i kind message f p e k h safe =
    let t = first_token p.tokens in
    let q : Parser = record p { tokens = drop_first p.tokens } in
    let shorter = length-drop_first p.tokens (λ z. k (sym e ∙ z)) in
    let same : is_kind t.kind kind ≡ true = ap (λ x. is_kind x kind) e ∙ is_kind_refl kind in
    bind-at i f (some t) q (consume kind message p) (consume_present kind message p same)
      ((safe t).runs q (omega arith))

-- A list whose first token is no end of file is not empty.
pub is_kind-length :
    (ts : List Token) → is_kind (first_token ts).kind TokenKind.eof ≡ false → zero < length ts
is_kind-length [] h = absurd (cc (h, is_kind_refl TokenKind.eof))
is_kind-length (t ∷ ts) h = omega arith
