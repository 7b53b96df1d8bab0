-- ===== src/Lexer/Shapes.antt =====
-- What the loops of `lex_source` and `lex_number` read, by the lexical rules.
use back_and_forth.Prelude.{
  ℕ, ◌+◌, ◌*◌, ◌-◌, ◌&&◌, tail, ◌≡◌, ◌≢◌, ◌⊎◌, refl, sym, ap, ◌∙◌, subst, inl, inr, Bool, true,
  false, [], ◌∷◌, ◌++◌, arith, Text, ◌==◌, ==_iff, Bool-cases, All,
}
use back_and_forth.Token.{Position}
use back_and_forth.Lexer.Chars.{peek, advance, advance_while, is_digit, is_alpha}
use back_and_forth.Lexer.Comments.{skip_block_comment, in_line_comment}
use Prim.Native.Nat.{min}
use back_and_forth.Lexer.Words.{digits_value, strtoll}
use back_and_forth.Lexer.Rules.{
  CommentBody, comment_closes, comment_unclosed, comment_byte, decimal,
}

-- `advance_while` reads the longest text whose bytes pass its test.
abbrev pub Longest : (ℕ → Bool) → Text → Text → Type 0
Longest test s rest =
    (piece : Text) × (s ≡ piece ++ rest)
    × All (λ c. test c ≡ true) piece
    × (test (peek rest) ≡ false)

pub advance_while-Longest :
    (test : ℕ → Bool) (s : Text) (at : Position)
    → test 0 ≡ false
    → Longest test s (advance_while test s at).0
unfolding advance_while
advance_while-Longest test [] at h = ([], refl, tt, h)
advance_while-Longest test (c ∷ cs) at h =
    let (piece, split, all, stops) = advance_while-Longest test cs (advance c at) h in
    elim (Bool-cases (test c)) [
      | inl e ↦ rw e (c ∷ piece, ap (λ x. c ∷ x) split, (e, all), stops)
      | inr e ↦ rw e ([], refl, tt, e)
    ]

pub slash-first : (s : Text) → peek s ≡ b'/' → s ≡ b'/' ∷ tail s
slash-first [] h = absurd (omega arith)
slash-first (c ∷ cs) h = ap (λ x. x ∷ cs) h

-- The loop over a block comment reads what is left of it.
abbrev pub Comment : Text → Text → Type 0
Comment s rest = (body : Text) × (s ≡ body ++ rest) × CommentBody body rest

pub skip_block_comment-Comment : (s : Text) (at : Position) → Comment s (skip_block_comment s at).1
unfolding skip_block_comment
skip_block_comment-Comment [] at = ([], refl, comment_unclosed [] refl)
skip_block_comment-Comment (c ∷ cs) at =
    let (body, split, left) = skip_block_comment-Comment cs (advance c at) in
    elim (Bool-cases (c == 0)) [
      | inl e ↦ rw e ([], refl, comment_unclosed (c ∷ cs) ((==_iff c 0).0 e))
      | inr e ↦ elim (Bool-cases (c == b'*' && peek cs == b'/')) [
        | inl f ↦
            let star : c ≡ b'*' = ground arith in
            let behind = slash-first cs (ground arith) in
            rw (e, f)
              (
                b'*' ∷ b'/' ∷ [],
                subst (λ k. c ∷ cs ≡ k ∷ b'/' ∷ tail cs) star (ap (λ x. c ∷ x) behind),
                comment_closes (tail cs),
              )
        | inr f ↦
            rw (e, f)
              (
                c ∷ body,
                ap (λ x. c ∷ x) split,
                comment_byte c body _ (λ z. ground arith)
                    (λ (z, here). let slash : peek cs ≡ b'/' = ap peek split ∙ here in ground arith)
                    left,
              )
      ]
    ]

-- The value of `strtoll` on decimal digits.
pub digits_value-digits :
    (n : ℕ) (s : Text) → All (λ c. is_digit c ≡ true) s → digits_value n s ≡ (decimal n s, [])
unfolding digits_value decimal
digits_value-digits n [] h = refl
digits_value-digits n (c ∷ cs) h = rw h.0 (digits_value-digits (n * 10 + (c - b'0')) cs h.1)

pub in_line_comment_iff :
    (piece : Text)
    → All (λ d. in_line_comment d ≡ true) piece
    → All (λ d. (d ≢ b'\n') × (d ≢ 0)) piece
unfolding in_line_comment
in_line_comment_iff [] h = tt
in_line_comment_iff (d ∷ ds) (h, rest) =
    (((λ z. ground arith), (λ z. ground arith)), in_line_comment_iff ds rest)

pub out_of_line_comment : (d : ℕ) → in_line_comment d ≡ false → (d ≡ b'\n') ⊎ (d ≡ 0)
unfolding in_line_comment
out_of_line_comment d h = ground arith

pub lone_plain : (c : ℕ) → (c ≡ b'&') ⊎ (c ≡ b'|') → (is_alpha c ≡ false) × (is_digit c ≡ false)
unfolding is_alpha is_digit
lone_plain c (inl h) = rw h (refl, refl)
lone_plain c (inr h) = rw h (refl, refl)

-- A line comment starts with the second slash.
pub second_slash :
    (s piece rest : Text)
    → s ≡ piece ++ rest
    → peek s ≡ b'/'
    → in_line_comment (peek rest) ≡ false
    → (body : Text) × (piece ≡ b'/' ∷ body)
unfolding in_line_comment
second_slash s [] rest split h stops = let same : peek s ≡ peek rest = ap peek split in ground arith
second_slash s (x ∷ body) rest split h stops = (body, ap (λ k. k ∷ body) (sym (ap peek split) ∙ h))

pub strtoll-digits :
    (s : Text)
    → All (λ d. is_digit d ≡ true) s
    → (strtoll s).0 ≡ min (decimal 0 s) 0x7fffffffffffffff
unfolding strtoll
strtoll-digits s h = rw (digits_value-digits 0 s h) (ground arith)
