-- ===== src/Lexer/Literals.antt =====
-- Numbers and string literals are read back.
use mathlib.Core.List.{append_assoc, append-nil}
use back_and_forth.Prelude.{
  ℕ, zero, suc, ◌+◌, ◌-◌, ◌*◌, ◌/◌, ◌%◌, ◌<◌, ◌≡◌, ◌≢◌, refl, sym, ap, ◌∙◌, true, false, [], ◌∷◌,
  ◌++◌, Text, ◌==◌, ltb, All, All-append, arith, Bool-cases, ◌⊎◌, inl, inr, subst, ==_iff,
}
use back_and_forth.Token.{Position}
use back_and_forth.Lexer.Chars.{is_digit, advance}
use back_and_forth.Lexer.Words.{digits_value}
use back_and_forth.Lexer.Strings.{
  StringLoop, string_loop, string_byte, decode_escape, read_byte, append_decoded, plain,
}
use back_and_forth.Lexer.Print.{escape_byte, escape, decimal_fuel, decimal}

abbrev pub AllDigits : Text → Type 0
AllDigits = All (λ c. is_digit c ≡ true)

decimal_fuel-AllDigits : (fuel n : ℕ) → AllDigits (decimal_fuel fuel n)
unfolding decimal_fuel
decimal_fuel-AllDigits zero n = tt
decimal_fuel-AllDigits (suc fuel) n = elim (Bool-cases (ltb n 10)) [
  | inl e ↦ rw e (unfold is_digit in ground arith, tt)
  | inr e ↦ rw e (
      All-append _ (decimal_fuel fuel (n / 10)) _ (decimal_fuel-AllDigits fuel (n / 10))
        (unfold is_digit in ground arith, tt))
]

pub decimal-AllDigits : (n : ℕ) → AllDigits (decimal n)
unfolding decimal
decimal-AllDigits n = decimal_fuel-AllDigits (suc n) n

digits_value-concat :
    (acc d : ℕ) (ds : Text)
    → AllDigits ds
    → is_digit d ≡ true
    → digits_value acc (ds ++ (d ∷ [])) ≡ ((digits_value acc ds).0 * 10 + (d - b'0'), [])
unfolding digits_value
digits_value-concat acc d [] h e = rw e
digits_value-concat acc d (c ∷ ds) h e =
    rw h.0 (digits_value-concat (acc * 10 + (c - b'0')) d ds h.1 e)

abbrev no_text : Text
no_text = []

digits_value-decimal_fuel : (fuel n : ℕ) → n < fuel → digits_value 0 (decimal_fuel fuel n) ≡ (n, [])
unfolding decimal_fuel
digits_value-decimal_fuel zero n h = absurd (omega arith)
digits_value-decimal_fuel (suc fuel) n h = elim (Bool-cases (ltb n 10)) [
  | inl e ↦ rw e (unfold digits_value is_digit in ground arith)
  | inr e ↦
      let more = decimal_fuel fuel (n / 10) in
      let read = digits_value-decimal_fuel fuel (n / 10) (ground arith) in
      rw e (
        digits_value-concat 0 (n % 10 + b'0') more (decimal_fuel-AllDigits fuel (n / 10))
          (unfold is_digit in ground arith)
        ∙ rw read (ap (λ (k : ℕ). (k, no_text)) (omega arith)))
]

pub digits_value-decimal : (n : ℕ) → digits_value 0 (decimal n) ≡ (n, [])
unfolding decimal
digits_value-decimal n = digits_value-decimal_fuel (suc n) n (omega arith)

-- Where the loop of `lex_string` stands after some text, with the bytes that it decoded.
abbrev After : StringLoop → Text → Text → Position → StringLoop
After s rest decoded at = record s { source = rest; at = at; value = s.value ++ decoded }

-- The byte behind the backslash that stands for `c`.
abbrev Escapes : ℕ → ℕ → Type 0
Escapes x c = ((x == 0) ≡ false) × ((s : StringLoop) → decode_escape x s ≡ append_decoded s c)

escaped-of-eq : (x c k : ℕ) → Escapes x k → (c == k) ≡ true → Escapes x c
escaped-of-eq x c k h e = subst (Escapes x) (sym ((==_iff c k).0 e)) h

escape_byte-cases :
    (c : ℕ)
    → c ≢ 0
    → ((x : ℕ) × (escape_byte c ≡ b'\\' ∷ x ∷ []) × Escapes x c)
      ⊎ ((escape_byte c ≡ c ∷ []) × (string_byte c ≡ plain))
unfolding escape_byte decode_escape
escape_byte-cases c h = elim (Bool-cases (c == b'\n')) [
  | inl e ↦ inl (b'n', rw e, escaped-of-eq b'n' c b'\n' (refl, λ s. refl) e)
  | inr e₁ ↦ elim (Bool-cases (c == b'\r')) [
    | inl e ↦ inl (b'r', rw (e₁, e), escaped-of-eq b'r' c b'\r' (refl, λ s. refl) e)
    | inr e₂ ↦ elim (Bool-cases (c == b'\t')) [
      | inl e ↦ inl (b't', rw (e₁, e₂, e), escaped-of-eq b't' c b'\t' (refl, λ s. refl) e)
      | inr e₃ ↦ elim (Bool-cases (c == b'\\')) [
        | inl e ↦ inl (b'\\', rw (e₁, e₂, e₃, e), escaped-of-eq b'\\' c b'\\' (refl, λ s. refl) e)
        | inr e₄ ↦ elim (Bool-cases (c == b'"')) [
          | inl e ↦
              inl (b'"', rw (e₁, e₂, e₃, e₄, e), escaped-of-eq b'"' c b'"' (refl, λ s. refl) e)
          | inr e₅ ↦ inr (rw (e₁, e₂, e₃, e₄, e₅), unfold string_byte in ground arith)
        ]
      ]
    ]
  ]
]

module _ (w : Position) where
  string_loop-plain :
      (c : ℕ) (rest : Text) (s : StringLoop)
      → string_byte c ≡ plain
      → string_loop w (c ∷ rest) s ≡ string_loop w rest (append_decoded (read_byte c rest s) c)
  unfolding string_loop
  string_loop-plain c [] s h = rw (h, string_loop)
  string_loop-plain c (d ∷ ds) s h = rw (h, string_loop)

  string_loop-escaped :
      (x c : ℕ) (rest : Text) (s : StringLoop)
      → Escapes x c
      → string_loop w (b'\\' ∷ x ∷ rest) s
        ≡ string_loop w rest (After s rest (c ∷ []) (advance x (advance b'\\' s.at)))
  unfolding string_loop string_byte
  string_loop-escaped x c rest s h = rw (h.0, string_loop, h.1)

  string_loop-escape_byte :
      (c : ℕ) (rest : Text) (s : StringLoop)
      → c ≢ 0
      → (at : Position) × (string_loop w (escape_byte c ++ rest) s
          ≡ string_loop w rest (After s rest (c ∷ []) at))
  string_loop-escape_byte c rest s h = elim (escape_byte-cases c h) [
    | inl (x, e, escapes) ↦
        (advance x (advance b'\\' s.at), rw e (string_loop-escaped x c rest s escapes))
    | inr (e, is_plain) ↦ (advance c s.at, rw e (string_loop-plain c rest s is_plain))
  ]

  string_loop-quote :
      (rest : Text) (s : StringLoop)
      → string_loop w (b'"' ∷ rest) s
        ≡ record s { source = rest; at = advance b'"' s.at; terminated = true }
  unfolding string_loop string_byte
  string_loop-quote [] s = refl
  string_loop-quote (d ∷ ds) s = refl

  -- The loop decodes an escaped text up to the closing quote.
  pub string_loop-escape :
      (v rest : Text) (s : StringLoop)
      → All (λ c. c ≢ 0) v
      → (at : Position) × (string_loop w (escape v ++ (b'"' ∷ rest)) s
          ≡ record s { source = rest; at = at; value = s.value ++ v; terminated = true })
  unfolding escape
  string_loop-escape [] rest s h =
      (advance b'"' s.at, rw (append-nil s.value) (string_loop-quote rest s))
  string_loop-escape (c ∷ cs) rest s h =
      let after = escape cs ++ (b'"' ∷ rest) in
      let (p, first) = string_loop-escape_byte c after s h.0 in
      let (q, others) = string_loop-escape cs rest (After s after (c ∷ []) p) h.1 in
      (
        q,
        rw (append_assoc (escape_byte c) (escape cs) (b'"' ∷ rest))
            (first ∙ others ∙ rw (append_assoc s.value (c ∷ []) cs)),
      )
