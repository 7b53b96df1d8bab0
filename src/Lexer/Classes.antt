-- ===== src/Lexer/Classes.antt =====
-- The arm of the `switch` that a byte leads to is that of the lexical rules.
use back_and_forth.Prelude.{
  ℕ, ◌≡◌, ◌≢◌, ◌⊎◌, inl, inr, refl, sym, subst, true, false, ◌||◌, [], ◌∷◌, Text, codes, ◌==◌,
  ==_iff, if◌then◌else◌, Bool-cases, arith, All, ◌&◌,
}
use back_and_forth.Token.{TokenKind}
use back_and_forth.Lexer.Chars.{is_alpha, is_digit}
use back_and_forth.Lexer.Scan.{
  Action, skip, line_comment, block_comment, literal, word, number, simple, pair, lone, unexpected,
  classify,
}
use back_and_forth.Lexer.Rules.{
  OneByte, TwoBytes, Blank, OpensComment, one_lbrace, one_rbrace, one_lparen, one_rparen, one_comma,
  one_colon, one_semicolon, one_dot, one_equal, one_plus, one_minus, one_star, one_slash,
  one_percent, one_less, one_greater, one_bang, two_slash_equal, two_equal_equal, two_plus_equal,
  two_minus_equal, two_star_equal, two_percent_equal, two_less_equal, two_greater_equal,
  two_bang_equal, two_and_and, two_or_or, two_arrow,
}

pub TwoBytes-pair : (c d : ℕ) (k : TokenKind) → TwoBytes c d k → classify c d ≡ pair k (c ∷ d ∷ [])
unfolding classify
TwoBytes-pair _ _ _ two_slash_equal = refl
TwoBytes-pair _ _ _ two_equal_equal = refl
TwoBytes-pair _ _ _ two_plus_equal = refl
TwoBytes-pair _ _ _ two_minus_equal = refl
TwoBytes-pair _ _ _ two_star_equal = refl
TwoBytes-pair _ _ _ two_percent_equal = refl
TwoBytes-pair _ _ _ two_less_equal = refl
TwoBytes-pair _ _ _ two_greater_equal = refl
TwoBytes-pair _ _ _ two_bang_equal = refl
TwoBytes-pair _ _ _ two_and_and = refl
TwoBytes-pair _ _ _ two_or_or = refl
TwoBytes-pair _ _ _ two_arrow = refl

pub TwoBytes-second : (c d : ℕ) (k : TokenKind) → TwoBytes c d k → d ≢ 0
TwoBytes-second _ _ _ two_slash_equal = cc
TwoBytes-second _ _ _ two_equal_equal = cc
TwoBytes-second _ _ _ two_plus_equal = cc
TwoBytes-second _ _ _ two_minus_equal = cc
TwoBytes-second _ _ _ two_star_equal = cc
TwoBytes-second _ _ _ two_percent_equal = cc
TwoBytes-second _ _ _ two_less_equal = cc
TwoBytes-second _ _ _ two_greater_equal = cc
TwoBytes-second _ _ _ two_bang_equal = cc
TwoBytes-second _ _ _ two_and_and = cc
TwoBytes-second _ _ _ two_or_or = cc
TwoBytes-second _ _ _ two_arrow = cc

-- No such byte is reported.
pub OneByte-expected :
    (c d x : ℕ) (k : TokenKind)
    → OneByte c k
    → (classify c d ≢ unexpected x) × (classify c d ≢ lone x)
unfolding classify
OneByte-expected _ d x _ one_lbrace = ground arith
OneByte-expected _ d x _ one_rbrace = ground arith
OneByte-expected _ d x _ one_lparen = ground arith
OneByte-expected _ d x _ one_rparen = ground arith
OneByte-expected _ d x _ one_comma = ground arith
OneByte-expected _ d x _ one_colon = ground arith
OneByte-expected _ d x _ one_semicolon = ground arith
OneByte-expected _ d x _ one_dot = ground arith
OneByte-expected _ d x _ one_equal = ground arith
OneByte-expected _ d x _ one_plus = ground arith
OneByte-expected _ d x _ one_minus = ground arith
OneByte-expected _ d x _ one_star = ground arith
OneByte-expected _ d x _ one_slash = ground arith
OneByte-expected _ d x _ one_percent = ground arith
OneByte-expected _ d x _ one_less = ground arith
OneByte-expected _ d x _ one_greater = ground arith
OneByte-expected _ d x _ one_bang = ground arith

-- What an arm says of the bytes `c` and `d` that it is taken at.
abbrev pub Arm : ℕ → ℕ → Action → Type 0
Arm c d skip = Blank c
Arm c d line_comment = (c ≡ b'/') × (d ≡ b'/')
Arm c d block_comment = (c ≡ b'/') × (d ≡ b'*')
Arm c d literal = c ≡ b'"'
Arm c d word = (is_alpha c ≡ true) ⊎ (c ≡ b'_')
Arm c d number = is_digit c ≡ true
Arm c d (simple k text) =
    ((c ≡ b'\n') × (k ≡ TokenKind.newline) × (text ≡ codes "\\n"))
    ⊎ (OneByte c k × (text ≡ c ∷ []) × (OpensComment c d → ⊥))
Arm c d (pair k text) = TwoBytes c d k × (text ≡ c ∷ d ∷ [])
Arm c d (lone x) = ((c ≡ b'&') ⊎ (c ≡ b'|')) × (x ≡ c)
Arm c d (unexpected x) =
    (Blank c → ⊥)
    × (c ≢ b'\n')
    × (c ≢ b'"')
    × (is_alpha c ≡ false)
    × (c ≢ b'_')
    × (is_digit c ≡ false)

-- An operator of one byte, and the one that `=` makes of it.
extended-Arm :
    (k d : ℕ) (one two : TokenKind)
    → OneByte k one
    → TwoBytes k b'=' two
    → (OpensComment k d → ⊥)
    → Arm k d (if d == b'=' then pair two (k ∷ b'=' ∷ []) else simple one (k ∷ []))
extended-Arm k d one two h₁ h₂ other = elim (Bool-cases (d == b'=')) [
  | inl f ↦ let same : d ≡ b'=' = (==_iff d b'=').0 f in rw f (rw same (h₂, refl))
  | inr f ↦ rw f (inr (h₁, refl, other))
]

doubled-Arm :
    (k d : ℕ) (two : TokenKind)
    → (k ≡ b'&') ⊎ (k ≡ b'|')
    → TwoBytes k k two
    → Arm k d (if d == k then pair two (k ∷ k ∷ []) else lone k)
doubled-Arm k d two e h = elim (Bool-cases (d == k)) [
  | inl f ↦ let same : d ≡ k = (==_iff d k).0 f in rw f (rw same (h, refl))
  | inr f ↦ rw f (e, refl)
]

slash-Arm : (d : ℕ) → Arm b'/' d (classify b'/' d)
unfolding classify
slash-Arm d = elim (Bool-cases (d == b'/')) [
  | inl e ↦ rw e (refl, (==_iff d b'/').0 e)
  | inr e ↦ elim (Bool-cases (d == b'*')) [
    | inl f ↦ rw (e, f) (refl, (==_iff d b'*').0 f)
    | inr f ↦
        rw (e, f)
          (extended-Arm b'/' d TokenKind.slash TokenKind.slash_equal one_slash two_slash_equal
            (λ o. ground arith))
  ]
]

minus-Arm : (d : ℕ) → Arm b'-' d (classify b'-' d)
unfolding classify
minus-Arm d = elim (Bool-cases (d == b'>')) [
  | inl e ↦ let same : d ≡ b'>' = (==_iff d b'>').0 e in rw e (rw same (two_arrow, refl))
  | inr e ↦ rw e (
      extended-Arm b'-' d TokenKind.minus TokenKind.minus_equal one_minus two_minus_equal
        (λ o. ground arith))
]

-- The bytes that the `switch` names.
abbrev named : Text
named =
    b' ' ∷ b'\t' ∷ b'\r' ∷ b'\n' ∷ b'/' ∷ b'{' ∷ b'}' ∷ b'(' ∷ b')' ∷ b',' ∷ b':' ∷ b';' ∷ b'.'
    ∷ b'=' ∷ b'+' ∷ b'*' ∷ b'%' ∷ b'<' ∷ b'>' ∷ b'!' ∷ b'&' ∷ b'|' ∷ b'-' ∷ b'"' ∷ []

named-Arm : (d : ℕ) → All (λ k. Arm k d (classify k d)) named
unfolding classify
named-Arm d =
    inl refl
    & inr (inl refl)
    & inr (inr refl)
    & inl (refl, refl, refl)
    & slash-Arm d
    & single b'{' TokenKind.lbrace one_lbrace (λ z. cc)
    & single b'}' TokenKind.rbrace one_rbrace (λ z. cc)
    & single b'(' TokenKind.lparen one_lparen (λ z. cc)
    & single b')' TokenKind.rparen one_rparen (λ z. cc)
    & single b',' TokenKind.comma one_comma (λ z. cc)
    & single b':' TokenKind.colon one_colon (λ z. cc)
    & single b';' TokenKind.semicolon one_semicolon (λ z. cc)
    & single b'.' TokenKind.dot one_dot (λ z. cc)
    & extended b'=' TokenKind.equal TokenKind.equal_equal one_equal two_equal_equal (λ z. cc)
    & extended b'+' TokenKind.plus TokenKind.plus_equal one_plus two_plus_equal (λ z. cc)
    & extended b'*' TokenKind.star TokenKind.star_equal one_star two_star_equal (λ z. cc)
    & extended b'%' TokenKind.percent TokenKind.percent_equal one_percent two_percent_equal
        (λ z. cc)
    & extended b'<' TokenKind.less TokenKind.less_equal one_less two_less_equal (λ z. cc)
    & extended b'>' TokenKind.greater TokenKind.greater_equal one_greater two_greater_equal
        (λ z. cc)
    & extended b'!' TokenKind.bang TokenKind.bang_equal one_bang two_bang_equal (λ z. cc)
    & doubled-Arm b'&' d TokenKind.and_and (inl refl) two_and_and
    & doubled-Arm b'|' d TokenKind.or_or (inr refl) two_or_or
    & minus-Arm d
    & refl
    & tt
  where
    single : (k : ℕ) (one : TokenKind) → OneByte k one → k ≢ b'/' → Arm k d (simple one (k ∷ []))
    single k one h other = inr (h, refl, λ o. other o.0)

    extended :
        (k : ℕ) (one two : TokenKind)
        → OneByte k one
        → TwoBytes k b'=' two
        → k ≢ b'/'
        → Arm k d (if d == b'=' then pair two (k ∷ b'=' ∷ []) else simple one (k ∷ []))
    extended k one two h₁ h₂ other = extended-Arm k d one two h₁ h₂ (λ o. other o.0)

-- A property of the bytes of a table, and of the bytes outside it.
by_table :
    (P : ℕ → Type 0) (c : ℕ) (table : Text) → All P table → (All (λ k. c ≢ k) table → P c) → P c
by_table P c [] h other = other tt
by_table P c (k ∷ ks) h other = elim (Bool-cases (c == k)) [
  | inl e ↦ subst P (sym ((==_iff c k).0 e)) h.0
  | inr e ↦ by_table P c ks h.1 (λ rest. other ((λ z. ground arith), rest))
]

unnamed-classify :
    (c d : ℕ)
    → All (λ k. c ≢ k) named
    → classify c d
      ≡ (if is_alpha c || c == b'_' then word else if is_digit c then number else unexpected c)
unfolding classify
unnamed-classify c d h = ground arith

unnamed-Arm : (c d : ℕ) → All (λ k. c ≢ k) named → Arm c d (classify c d)
unnamed-Arm c d h = elim (Bool-cases (is_alpha c || c == b'_')) [
  | inl e ↦ rw (unnamed-classify c d h, e) (ground arith)
  | inr e ↦ elim (Bool-cases (is_digit c)) [
    | inl f ↦ rw (unnamed-classify c d h, e, f) f
    | inr f ↦ rw (unnamed-classify c d h, e, f) (ground arith)
  ]
]

pub classify-Arm : (c d : ℕ) → Arm c d (classify c d)
classify-Arm c d = by_table (λ k. Arm k d (classify k d)) c named (named-Arm d) (unnamed-Arm c d)
