-- ===== src/Lexer/StringShape.antt =====
-- What the loop of `lex_string` reads, by the lexical rules.
use back_and_forth.Prelude.{
  ℕ, ◌≡◌, ◌≢◌, refl, sym, ap, ◌∙◌, subst, inl, inr, [], ◌∷◌, ◌++◌, arith, Text, ◌==◌, ==_iff,
  Bool-cases, append_assoc, append-nil,
}
use back_and_forth.Token.{Position}
use back_and_forth.Lexer.Chars.{peek}
use back_and_forth.Lexer.Strings.{
  StringLoop, StringByte, nul, closing_quote, line_end, backslash, plain, string_byte, string_loop,
  decode_escape, read_byte, append_decoded, close_string, line_ends,
}
use back_and_forth.Lexer.Rules.{
  Escape, escape_newline, escape_return, escape_tab, escape_nul, escape_itself, StringBody,
  string_closes, string_line_end, string_unclosed, string_cut, string_escape,
  string_byte as plain_byte,
}

decode_escape-nul : (e : ℕ) (s : StringLoop) → e ≡ b'0' → (decode_escape e s).value ≡ s.value
unfolding decode_escape
decode_escape-nul e s h = rw h refl

decode_escape-itself :
    (e : ℕ) (s : StringLoop)
    → e ≢ b'n'
    → e ≢ b'r'
    → e ≢ b't'
    → e ≢ b'0'
    → (decode_escape e s).value ≡ s.value ++ (e ∷ [])
unfolding decode_escape
decode_escape-itself e s h₁ h₂ h₃ h₄ = ground arith

-- What an escape adds to the value.
pub decode_escape-Escape :
    (e : ℕ) (s : StringLoop) → (v : Text) × Escape e v × ((decode_escape e s).value ≡ s.value ++ v)
unfolding decode_escape
decode_escape-Escape e s = elim (Bool-cases (e == b'n')) [
  | inl f₁ ↦
      let same : e ≡ b'n' = (==_iff e b'n').0 f₁ in rw f₁ (b'\n' ∷ [], rw same escape_newline, refl)
  | inr f₁ ↦ elim (Bool-cases (e == b'r')) [
    | inl f₂ ↦
        let same : e ≡ b'r' = (==_iff e b'r').0 f₂ in
        rw (f₁, f₂) (b'\r' ∷ [], rw same escape_return, refl)
    | inr f₂ ↦ elim (Bool-cases (e == b't')) [
      | inl f₃ ↦
          let same : e ≡ b't' = (==_iff e b't').0 f₃ in
          rw (f₁, f₂, f₃) (b'\t' ∷ [], rw same escape_tab, refl)
      | inr f₃ ↦ elim (Bool-cases (e == b'0')) [
        | inl f₄ ↦
            let same : e ≡ b'0' = (==_iff e b'0').0 f₄ in
            ([], rw same escape_nul, decode_escape-nul e s same ∙ sym (append-nil s.value))
        | inr f₄ ↦
            let h₁ : e ≢ b'n' = λ z. ground arith in
            let h₂ : e ≢ b'r' = λ z. ground arith in
            let h₃ : e ≢ b't' = λ z. ground arith in
            let h₄ : e ≢ b'0' = λ z. ground arith in
            (e ∷ [], escape_itself e h₁ h₂ h₃ h₄, decode_escape-itself e s h₁ h₂ h₃ h₄)
      ]
    ]
  ]
]

-- The loop over a string literal reads what is left of it, and decodes it.
abbrev pub Literal : Text → Text → StringLoop → Type 0
Literal x before r =
    (body value : Text) × (x ≡ body ++ r.source)
    × StringBody body r.source value
    × (r.value ≡ before ++ value)

-- What the loop has seen of a byte.
abbrev IsByte : ℕ → StringByte → Type 0
IsByte c nul = c ≡ 0
IsByte c closing_quote = c ≡ b'"'
IsByte c line_end = c ≡ b'\n'
IsByte c backslash = c ≡ b'\\'
IsByte c plain = (c ≢ 0) × (c ≢ b'"') × (c ≢ b'\n') × (c ≢ b'\\')

string_byte-IsByte : (c : ℕ) (b : StringByte) → string_byte c ≡ b → IsByte c b
unfolding string_byte
string_byte-IsByte c nul h = ground arith
string_byte-IsByte c closing_quote h = ground arith
string_byte-IsByte c line_end h = ground arith
string_byte-IsByte c backslash h = ground arith
string_byte-IsByte c plain h = ground arith

-- A run that ends with `x` in front of `rest`, and adds nothing.
ended :
    (x rest : Text) (r : StringLoop)
    → r.source ≡ rest
    → StringBody x rest []
    → Literal (x ++ rest) r.value r
ended x rest r e h = (
  x,
  [],
  ap (λ y. x ++ y) (sym e),
  subst (λ y. StringBody x y []) (sym e) h,
  sym (append-nil r.value),
)

-- A plain byte in front of the rest of the body.
plain_Literal :
    (c : ℕ) (x v : Text) (r : StringLoop)
    → IsByte c plain
    → Literal x (v ++ (c ∷ [])) r
    → Literal (c ∷ x) v r
plain_Literal c x v r (h₁, h₂, h₃, h₄) (body, value, split, left, e) = (
  c ∷ body,
  c ∷ value,
  ap (λ y. c ∷ y) split,
  plain_byte c body _ value h₁ h₂ h₃ h₄ left,
  e ∙ append_assoc v (c ∷ []) value,
)

escape_Literal :
    (d : ℕ) (x v u : Text) (r : StringLoop)
    → d ≢ 0
    → Escape d u
    → Literal x (v ++ u) r
    → Literal (b'\\' ∷ d ∷ x) v r
escape_Literal d x v u r h k (body, value, split, left, e) = (
  b'\\' ∷ d ∷ body,
  u ++ value,
  ap (λ y. b'\\' ∷ d ∷ y) split,
  string_escape d u body _ value h k left,
  e ∙ append_assoc v u value,
)

-- A byte that ends the loop.
abbrev IsLast : ℕ → Text → Text → Type 0
IsLast c cs rest = (body : Text) × (c ∷ cs ≡ body ++ rest) × StringBody body rest []

last_Literal :
    (c : ℕ) (cs rest : Text) (r : StringLoop)
    → r.source ≡ rest
    → IsLast c cs rest
    → Literal (c ∷ cs) r.value r
last_Literal c cs rest r e (body, split, h) =
    subst (λ x. Literal x r.value r) (sym split) (ended body rest r e h)

nul_IsLast : (c : ℕ) (cs : Text) → IsByte c nul → IsLast c cs (c ∷ cs)
nul_IsLast c cs h = ([], refl, string_unclosed (c ∷ cs) h)

quote_IsLast : (c : ℕ) (cs : Text) → IsByte c closing_quote → IsLast c cs cs
quote_IsLast c cs h = (b'"' ∷ [], ap (λ k. k ∷ cs) h, string_closes cs)

line_IsLast : (c : ℕ) (cs : Text) → IsByte c line_end → IsLast c cs cs
line_IsLast c cs h = (b'\n' ∷ [], ap (λ k. k ∷ cs) h, string_line_end cs)

cut_IsLast : (c : ℕ) (cs : Text) → IsByte c backslash → peek cs ≡ 0 → IsLast c cs cs
cut_IsLast c cs h z = (b'\\' ∷ [], ap (λ k. k ∷ cs) h, string_cut cs z)

pub string_loop-Literal :
    (w : Position) (x : Text) (s : StringLoop) → Literal x s.value (string_loop w x s)
unfolding string_loop
string_loop-Literal w [] s = ([], [], refl, string_unclosed [] refl, sym (append-nil s.value))
string_loop-Literal w (c ∷ []) s = go (string_byte c) refl (string_byte-IsByte c _ refl)
  where
    go :
        (b : StringByte)
        → string_byte c ≡ b
        → IsByte c b
        → Literal (c ∷ []) s.value (string_loop w (c ∷ []) s)
    go nul e h =
        rw (e, string_loop)
          (last_Literal c [] (c ∷ []) (record s { source = c ∷ [] }) refl (nul_IsLast c [] h))
    go closing_quote e h =
        rw (e, string_loop)
          (last_Literal c [] [] (close_string (read_byte c [] s)) refl (quote_IsLast c [] h))
    go line_end e h =
        rw (e, string_loop)
          (last_Literal c [] [] (line_ends w (read_byte c [] s)) refl (line_IsLast c [] h))
    go backslash e h =
        rw (e, string_loop) (last_Literal c [] [] (read_byte c [] s) refl (cut_IsLast c [] h refl))
    go plain e h =
        rw (e, string_loop)
          (plain_Literal c [] s.value (append_decoded (read_byte c [] s) c) h
            ([], [], refl, string_unclosed [] refl, sym (append-nil (s.value ++ (c ∷ [])))))
string_loop-Literal w (c ∷ d ∷ cs) s =
    go (string_byte c) refl (string_byte-IsByte c _ refl) (string_loop-Literal w cs)
      (string_loop-Literal w (d ∷ cs))
  where
    go :
        (b : StringByte)
        → string_byte c ≡ b
        → IsByte c b
        → ((t : StringLoop) → Literal cs t.value (string_loop w cs t))
        → ((t : StringLoop) → Literal (d ∷ cs) t.value (string_loop w (d ∷ cs) t))
        → Literal (c ∷ d ∷ cs) s.value (string_loop w (c ∷ d ∷ cs) s)
    go nul e h behind ahead =
        rw (e, string_loop)
          (last_Literal c (d ∷ cs) (c ∷ d ∷ cs) (record s { source = c ∷ d ∷ cs }) refl
            (nul_IsLast c (d ∷ cs) h))
    go closing_quote e h behind ahead =
        rw (e, string_loop)
          (last_Literal c (d ∷ cs) (d ∷ cs) (close_string (read_byte c (d ∷ cs) s)) refl
            (quote_IsLast c (d ∷ cs) h))
    go line_end e h behind ahead =
        rw (e, string_loop)
          (last_Literal c (d ∷ cs) (d ∷ cs) (line_ends w (read_byte c (d ∷ cs) s)) refl
            (line_IsLast c (d ∷ cs) h))
    go plain e h behind ahead =
        rw (e, string_loop)
          (plain_Literal c (d ∷ cs) s.value
            (string_loop w (d ∷ cs) (append_decoded (read_byte c (d ∷ cs) s) c)) h
            (ahead (append_decoded (read_byte c (d ∷ cs) s) c)))
    go backslash e h behind ahead = elim (Bool-cases (d == 0)) [
      | inl f ↦
          rw (e, f, string_loop)
            (last_Literal c (d ∷ cs) (d ∷ cs) (read_byte c (d ∷ cs) s) refl
              (cut_IsLast c (d ∷ cs) h ((==_iff d 0).0 f)))
      | inr f ↦
          let t = read_byte d cs (read_byte c (d ∷ cs) s) in
          let u = decode_escape d t in
          let r = string_loop w cs u in
          let (v, k, value) = decode_escape-Escape d t in
          let left = subst (λ y. Literal cs y r) value (behind u) in
          let all = escape_Literal d cs s.value v r (λ z. ground arith) k left in
          rw (e, f, string_loop) (subst (λ y. Literal (y ∷ d ∷ cs) s.value r) (sym h) all)
    ]
