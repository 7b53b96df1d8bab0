-- ===== src/Lexer/Arms.antt =====
-- Each arm of the `switch` reads one round of the lexical rules.
use back_and_forth.Prelude.{
  ℕ, tail, ◌≡◌, ◌≢◌, refl, sym, ap, ◌∙◌, subst, inl, inr, true, [], ◌∷◌, ◌++◌, Option, none, some,
  pos, arith, Text, codes, All, append-nil,
}
use back_and_forth.Token.{TokenKind}
use back_and_forth.Lexer.Chars.{Lexer, peek, advance_while, is_digit, is_word}
use back_and_forth.Lexer.Comments.{in_line_comment, skip_block_comment}
use back_and_forth.Lexer.Words.{keyword_kind, slice, strtoll, lex_identifier, lex_number}
use back_and_forth.Lexer.Strings.{lex_string, string_start, string_loop}
use back_and_forth.Lexer.Scan.{
  Action, skip, line_comment, block_comment, literal, word, number, simple, pair, lone, unexpected,
  classify, perform, advance_over, advance_char,
}
use back_and_forth.Lexer.Rules.{StringBody, Plain, Round, place, tokens_at}
use back_and_forth.Lexer.Classes.{Arm, TwoBytes-pair, TwoBytes-second, OneByte-expected}
use back_and_forth.Lexer.StringShape.{string_loop-Literal}
use back_and_forth.Lexer.Shapes.{
  in_line_comment_iff, out_of_line_comment, strtoll-digits, lone_plain, second_slash,
  advance_while-Longest, skip_block_comment-Comment,
}
use back_and_forth.Lexer.Lexemes.{slice-append}
use back_and_forth.Lexer.Keywords.{keyword_kind-Word}

-- What a round has done from the lexer `l` at the source `s` behind `w`.
abbrev pub Done : Text → Text → Lexer → Lexer → Type 0
Done w s l l' =
    (piece : Text) × (o : Option Plain) × (s ≡ piece ++ l'.source)
    × Round piece l'.source o
    × (l'.tokens ≡ l.tokens ++ tokens_at w o)

advance_over-tail : (s : Text) (l : Lexer) → l.source ≡ s → (advance_over s l).source ≡ tail s
advance_over-tail [] l e = e
advance_over-tail (c ∷ cs) l e = refl

advance_over-tokens : (s : Text) (l : Lexer) → (advance_over s l).tokens ≡ l.tokens
advance_over-tokens [] l = refl
advance_over-tokens (c ∷ cs) l = refl

-- A text that starts with another byte than NUL.
peek-first : (s : Text) → peek s ≢ 0 → s ≡ peek s ∷ tail s
peek-first [] h = absurd (h refl)
peek-first (c ∷ cs) h = refl

module _ (w : Text) (c : ℕ) (l : Lexer) where
  skip-Done : Arm c (peek l.source) skip → Done w (c ∷ l.source) l l
  skip-Done h = (c ∷ [], none, refl, Round.blank c l.source h, sym (append-nil l.tokens))

  line_comment-Done :
      Arm c (peek l.source) line_comment
      → Done w (c ∷ l.source) l (perform line_comment (place w) (c ∷ l.source) l)
  unfolding perform
  line_comment-Done h =
      let (piece, split, all, stops) =
        advance_while-Longest in_line_comment l.source l.at (unfold in_line_comment in refl) in
      let rest = (advance_while in_line_comment l.source l.at).0 in
      let (body, same) = second_slash l.source piece rest split h.1 stops in
      let plain =
        in_line_comment_iff (b'/' ∷ body)
          (subst (λ x. All (λ d. in_line_comment d ≡ true) x) same all) in
      (
        b'/' ∷ b'/' ∷ body,
        none,
        subst (λ k. k ∷ l.source ≡ b'/' ∷ b'/' ∷ (body ++ rest)) (sym h.0)
            (ap (λ x. b'/' ∷ x) (split ∙ ap (λ x. x ++ rest) same)),
        Round.line_comment body rest plain.1 (out_of_line_comment (peek rest) stops),
        sym (append-nil l.tokens),
      )

  block_comment-Done :
      Arm c (peek l.source) block_comment
      → Done w (c ∷ l.source) l (perform block_comment (place w) (c ∷ l.source) l)
  unfolding perform
  block_comment-Done (h, k) =
      let opened = advance_char l in
      let (body, split, left) = skip_block_comment-Comment opened.source opened.at in
      let behind = advance_over-tail l.source l refl in
      (
        b'/' ∷ b'*' ∷ body,
        none,
        subst
            (λ k.
              k ∷ l.source ≡ b'/' ∷ b'*' ∷ (body ++ (skip_block_comment opened.source opened.at).1))
            (sym h)
            (ap (λ x. b'/' ∷ x)
              (peek-first l.source (λ z. ground arith)
                ∙ ap (λ d. d ∷ tail l.source) k
                ∙ ap (λ x. b'*' ∷ x) (sym behind ∙ split))),
        Round.block_comment body _ left,
        sym (append-nil l.tokens),
      )

  literal-Done :
      Arm c (peek l.source) literal
      → Done w (c ∷ l.source) l (perform literal (place w) (c ∷ l.source) l)
  unfolding perform lex_string
  literal-Done h =
      let r = string_loop (place w) l.source (string_start l) in
      let (body, value, split, left, same) =
        string_loop-Literal (place w) l.source (string_start l) in
      (
        b'"' ∷ body,
        some (TokenKind.string, r.value, pos 0),
        subst (λ k. k ∷ l.source ≡ b'"' ∷ (body ++ r.source)) (sym h) (ap (λ x. b'"' ∷ x) split),
        Round.literal body r.source r.value
            (subst (λ v. StringBody body r.source v) (sym same) left),
        refl,
      )

  pair-Done :
      (k : TokenKind) (text : Text)
      → Arm c (peek l.source) (pair k text)
      → Done w (c ∷ l.source) l (perform (pair k text) (place w) (c ∷ l.source) l)
  unfolding perform
  pair-Done k text (h, same) =
      let none_left = TwoBytes-second c (peek l.source) k h in
      (
        c ∷ peek l.source ∷ [],
        some (k, c ∷ peek l.source ∷ [], pos 0),
        ap (λ x. c ∷ x)
            (peek-first l.source none_left
              ∙ ap (λ x. peek l.source ∷ x) (sym (advance_over-tail l.source l refl))),
        Round.two_bytes c (peek l.source) _ k h,
        rw same (
            ap (λ ts. ts ++ tokens_at w (some (k, c ∷ peek l.source ∷ [], pos 0)))
              (advance_over-tokens l.source l)),
      )

  simple-Done :
      (k : TokenKind) (text : Text)
      → classify c (peek l.source) ≡ simple k text
      → Arm c (peek l.source) (simple k text)
      → Done w (c ∷ l.source) l (perform (simple k text) (place w) (c ∷ l.source) l)
  unfolding perform
  simple-Done k text e (inl (h, h', h'')) =
      rw (h, h', h'')
        (
          b'\n' ∷ [],
          some (TokenKind.newline, codes "\\n", pos 0),
          refl,
          Round.newline l.source,
          refl,
        )
  simple-Done k text e (inr (h, same, no_comment)) = rw same (
    c ∷ [],
    some (k, c ∷ [], pos 0),
    refl,
    Round.one_byte c l.source k h (λ m two. let z = TwoBytes-pair c (peek l.source) m two in cc)
        no_comment,
    refl,
  )

  lone-Done :
      (x : ℕ)
      → classify c (peek l.source) ≡ lone x
      → Arm c (peek l.source) (lone x)
      → Done w (c ∷ l.source) l (perform (lone x) (place w) (c ∷ l.source) l)
  unfolding perform
  lone-Done x e (h, same) = (
    c ∷ [],
    none,
    refl,
    Round.unknown c l.source (λ z. ground arith) (ground arith) (λ z. ground arith)
        (λ z. ground arith) (lone_plain c h).0 (λ z. ground arith) (lone_plain c h).1
        (λ k one. (OneByte-expected c (peek l.source) x k one).1 e)
        (λ k two. let z = TwoBytes-pair c (peek l.source) k two in cc),
    sym (append-nil l.tokens),
  )

  unexpected-Done :
      (x : ℕ)
      → classify c (peek l.source) ≡ unexpected x
      → c ≢ 0
      → Arm c (peek l.source) (unexpected x)
      → Done w (c ∷ l.source) l (perform (unexpected x) (place w) (c ∷ l.source) l)
  unfolding perform
  unexpected-Done x e nonzero h =
      let (blank, line, quote, alpha, low, digit) = h in
      (
        c ∷ [],
        none,
        refl,
        Round.unknown c l.source nonzero blank line quote alpha low digit
            (λ k one. (OneByte-expected c (peek l.source) x k one).0 e)
            (λ k two. let z = TwoBytes-pair c (peek l.source) k two in cc),
        sym (append-nil l.tokens),
      )

  word-Done :
      Arm c (peek l.source) word → Done w (c ∷ l.source) l (perform word (place w) (c ∷ l.source) l)
  unfolding perform lex_identifier
  word-Done h =
      let (piece, split, all, stops) =
        advance_while-Longest is_word l.source l.at (unfold is_word in refl) in
      let rest = (advance_while is_word l.source l.at).0 in
      let text : slice (c ∷ l.source) rest ≡ c ∷ piece =
        ap (λ x. slice (c ∷ x) rest) split ∙ slice-append (c ∷ piece) rest in
      (
        c ∷ piece,
        some (keyword_kind (c ∷ piece), c ∷ piece, pos 0),
        ap (λ x. c ∷ x) split,
        Round.word c piece rest _ h all stops (keyword_kind-Word (c ∷ piece)),
        ap (λ t. l.tokens ++ tokens_at w (some (keyword_kind t, t, pos 0))) text,
      )

  number-Done :
      Arm c (peek l.source) number
      → Done w (c ∷ l.source) l (perform number (place w) (c ∷ l.source) l)
  unfolding perform lex_number
  number-Done h =
      let (piece, split, all, stops) =
        advance_while-Longest is_digit l.source l.at (unfold is_digit in refl) in
      let rest = (advance_while is_digit l.source l.at).0 in
      let text : slice (c ∷ l.source) rest ≡ c ∷ piece =
        ap (λ x. slice (c ∷ x) rest) split ∙ slice-append (c ∷ piece) rest in
      let value = strtoll-digits (c ∷ piece) (h, all) in
      (
        c ∷ piece,
        _,
        ap (λ x. c ∷ x) split,
        Round.number c piece rest (h, all) stops,
        ap (λ t. l.tokens ++ tokens_at w (some (TokenKind.integer, t, pos (strtoll t).0))) text
            ∙ ap (λ n. l.tokens ++ tokens_at w (some (TokenKind.integer, c ∷ piece, pos n))) value,
      )

  pub perform-Done :
      (a : Action)
      → classify c (peek l.source) ≡ a
      → c ≢ 0
      → Arm c (peek l.source) a
      → Done w (c ∷ l.source) l (perform a (place w) (c ∷ l.source) l)
  unfolding perform
  perform-Done skip e nonzero h = skip-Done h
  perform-Done line_comment e nonzero h = line_comment-Done h
  perform-Done block_comment e nonzero h = block_comment-Done h
  perform-Done literal e nonzero h = literal-Done h
  perform-Done word e nonzero h = word-Done h
  perform-Done number e nonzero h = number-Done h
  perform-Done (simple k text) e nonzero h = simple-Done k text e h
  perform-Done (pair k text) e nonzero h = pair-Done k text h
  perform-Done (lone x) e nonzero h = lone-Done x e h
  perform-Done (unexpected x) e nonzero h = unexpected-Done x e nonzero h
