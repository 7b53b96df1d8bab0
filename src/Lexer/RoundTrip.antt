-- ===== src/Lexer/RoundTrip.antt =====
-- Printed lexemes are read back, whatever words, numbers, texts and symbols they are.
use mathlib.Core.List.{append_assoc, append-nil}
use back_and_forth.Prelude.{
  ℕ, zero, suc, ◌+◌, ◌≤◌, ◌≡◌, refl, sym, ap, ◌∙◌, false, List, [], ◌∷◌, ◌++◌, Text, codes, ◌==◌,
  All, pos, arith, inl, inr, subst, length, length-append, map,
}
use back_and_forth.Token.{TokenKind}
use back_and_forth.Lexer.Chars.{Lexer, is_digit, is_alpha, peek}
use back_and_forth.Lexer.Scan.{classify, perform, lex_token, lex_loop, lex_source, initial}
use back_and_forth.Lexer.Print.{Lexeme, IsLexeme, print_lexeme, print, Plain, plain_of, meaning}
use back_and_forth.Lexer.Literals.{AllDigits, decimal-AllDigits}
use back_and_forth.Lexer.Lexemes.{map-concat, decimal-cons, symbol-shape, lex_token-Took}

-- The space behind a lexeme is skipped.
lex_token_space :
    (rest : Text) (l : Lexer)
    → l.source ≡ b' ' ∷ rest
    → ((lex_token l).source ≡ rest)
      × ((lex_token l).tokens ≡ l.tokens)
      × ((lex_token l).diag ≡ l.diag)
unfolding lex_token classify perform
lex_token_space rest l e = rw e (refl, refl, refl)

lex_loop_step :
    (fuel c : ℕ) (cs : Text) (l : Lexer)
    → l.source ≡ c ∷ cs
    → (c == 0) ≡ false
    → lex_loop (suc fuel) l ≡ lex_loop fuel (lex_token l)
unfolding lex_loop
lex_loop_step fuel c cs l e h = rw (ap (λ s. peek s == 0) e ∙ h, lex_loop)

print_lexeme-cons :
    (x : Lexeme)
    → IsLexeme x
    → (c : ℕ) × (cs : Text) × (print_lexeme x ≡ c ∷ cs) × ((c == 0) ≡ false)
unfolding print_lexeme
print_lexeme-cons (Lexeme.word []) h = absurd h
print_lexeme-cons (Lexeme.word (c ∷ cs)) h = (c, cs, refl, unfold is_alpha in ground arith)
print_lexeme-cons (Lexeme.string s) h = (_, _, refl, refl)
print_lexeme-cons (Lexeme.number n) h =
    let (c, cs, d) = decimal-cons n in
    let digits : AllDigits (c ∷ cs) = subst AllDigits d (decimal-AllDigits n) in
    (c, cs, d, unfold is_digit in ground (arith, digits.0))
print_lexeme-cons (Lexeme.symbol k) h = elim (symbol-shape k h) [
  | inl (c, _, name, nonzero) ↦ (c, [], name, nonzero)
  | inr (c, d, _, name, nonzero) ↦ (c, d ∷ [], name, nonzero)
]

lex_loop_stop : (fuel : ℕ) (l : Lexer) → l.source ≡ [] → lex_loop fuel l ≡ l
unfolding lex_loop
lex_loop_stop zero l e = refl
lex_loop_stop (suc fuel) l e = rw (ap (λ s. peek s == 0) e, lex_loop)

-- A lexeme and its space are two bytes at least.
length-print :
    (x : Lexeme) (xs : List Lexeme) → IsLexeme x → 2 + length (print xs) ≤ length (print (x ∷ xs))
unfolding print
length-print x xs h =
    let (c, cs, first, _) = print_lexeme-cons x h in
    omega (arith, ap length first, length-append (print_lexeme x) (b' ' ∷ print xs))

abbrev ReadsAll : Lexer → Lexer → List Lexeme → Type 0
ReadsAll l l' xs =
    (map plain_of l'.tokens ≡ map plain_of l.tokens ++ map meaning xs) × (l'.diag ≡ l.diag)

lex_loop-print :
    (xs : List Lexeme) (fuel : ℕ) (l : Lexer)
    → All IsLexeme xs
    → l.source ≡ print xs
    → length (print xs) ≤ fuel
    → ReadsAll l (lex_loop fuel l) xs
unfolding print
lex_loop-print [] fuel l h e f =
    rw (lex_loop_stop fuel l e) (sym (append-nil (map plain_of l.tokens)), refl)
lex_loop-print (x ∷ xs) zero l h e f = absurd (omega (arith, length-print x xs h.0))
lex_loop-print (x ∷ xs) (suc zero) l h e f = absurd (omega (arith, length-print x xs h.0))
lex_loop-print (x ∷ xs) (suc (suc fuel)) l h e f =
    let (c, cs, first, nonzero) = print_lexeme-cons x h.0 in
    let took = lex_token-Took x (print xs) l h.0 e in
    let l₁ = lex_token l in
    let space = lex_token_space (print xs) l₁ took.0 in
    let l₂ = lex_token l₁ in
    let others = lex_loop-print xs fuel l₂ h.1 space.0 (omega (arith, length-print x xs h.0)) in
    rw (lex_loop_step (suc fuel) c _ l (e ∙ ap (λ w. w ++ (b' ' ∷ print xs)) first) nonzero) (
      rw (lex_loop_step fuel b' ' (print xs) l₁ took.0 refl) (
        others.0
            ∙ ap (λ ts. ts ++ map meaning xs) (ap (map plain_of) space.1 ∙ took.1)
            ∙ append_assoc (map plain_of l.tokens) (meaning x ∷ []) (map meaning xs),
        others.1 ∙ space.2 ∙ took.2,
      ))

abbrev pub end_of_file : Plain
end_of_file = record { kind = TokenKind.eof; text = codes "<eof>"; value = pos 0 }

-- Text printed from lexemes is read back without a report: each lexeme gives the token that it
-- stands for, in order, and one end of file follows. Strings come back unescaped, and a number
-- as the least of its value and LLONG_MAX.
pub lex_source-print :
    (xs : List Lexeme)
    → All IsLexeme xs
    → (map plain_of (lex_source (print xs)).0 ≡ map meaning xs ++ (end_of_file ∷ []))
      × ((lex_source (print xs)).1 ≡ [])
unfolding lex_source
lex_source-print xs h =
    let source = print xs in
    let r = lex_loop-print xs (length source) (initial source) h refl (omega arith) in
    (map-concat _ _ ∙ ap (λ ts. ts ++ (end_of_file ∷ [])) r.0, r.1)
