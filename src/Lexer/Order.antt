-- ===== src/Lexer/Order.antt =====
-- The trace of a run: the rounds that the loop has made over the source, and that it reaches the
-- end.
use back_and_forth.Prelude.{
  ℕ, zero, suc, ◌≤◌, ◌≡◌, ◌≢◌, refl, inl, inr, true, false, List, [], ◌∷◌, ◌++◌, ap, ◌∙◌,
  append_assoc, pos, arith, Text, codes, ◌==◌, length, Bool-cases, subst, sym, ==_iff,
}
use back_and_forth.Token.{Position, Token, TokenKind}
use back_and_forth.Lexer.Chars.{Lexer, start_position, peek, advance, is_word, is_digit}
use back_and_forth.Lexer.Comments.{in_line_comment}
use back_and_forth.Lexer.Words.{lex_identifier, lex_number}
use back_and_forth.Lexer.Strings.{lex_string}
use back_and_forth.Lexer.Scan.{
  Action, skip, line_comment, block_comment, literal, word, number, simple, pair, lone, unexpected,
  classify, perform, advance_over, advance_char, lex_token, lex_loop, lex_source, initial,
}
use back_and_forth.Lexer.Rules.{place, Rounds, start as begin, again}
use back_and_forth.Lexer.Classes.{classify-Arm}
use back_and_forth.Lexer.Arms.{Done, perform-Done}
use back_and_forth.Lexer.Place.{Reads-place_split}
use back_and_forth.Lexer.Trace.{
  Reads, stop, next, Reads-trans, length-Reads, advance_while-Reads, skip_block_comment-Reads,
  string_loop-Reads,
}

advance_over-Reads :
    (s : Text) (l : Lexer)
    → l.source ≡ s
    → Reads (advance_over s l).source (advance_over s l).at s l.at
advance_over-Reads [] l e = rw e stop
advance_over-Reads (c ∷ cs) l e = next stop

advance_char-Reads : (l : Lexer) → Reads (advance_char l).source (advance_char l).at l.source l.at
advance_char-Reads l = advance_over-Reads l.source l refl

perform-Reads :
    (a : Action) (w : Position) (start : Text) (l : Lexer)
    → Reads (perform a w start l).source (perform a w start l).at l.source l.at
unfolding perform lex_string lex_identifier lex_number
perform-Reads skip w start l = stop
perform-Reads line_comment w start l = advance_while-Reads in_line_comment l.source l.at
perform-Reads block_comment w start l =
    Reads-trans l.source l.at (skip_block_comment-Reads (advance_char l).source (advance_char l).at)
      (advance_char-Reads l)
perform-Reads literal w start l = string_loop-Reads w l.source _
perform-Reads word w start l = advance_while-Reads is_word l.source l.at
perform-Reads number w start l = advance_while-Reads is_digit l.source l.at
perform-Reads (simple kind text) w start l = stop
perform-Reads (pair kind text) w start l = advance_char-Reads l
perform-Reads (lone ch) w start l = stop
perform-Reads (unexpected ch) w start l = stop

-- One round of the loop at a byte reads that byte at least.
lex_token-Reads :
    (l : Lexer) (c : ℕ) (cs : Text)
    → l.source ≡ c ∷ cs
    → Reads (lex_token l).source (lex_token l).at cs (advance c l.at)
unfolding lex_token
lex_token-Reads l c cs e = rw e (
    perform-Reads (classify c (peek cs)) l.at (c ∷ cs)
      (record l { source = cs; at = advance c l.at }))

peek-cons : (s : Text) → (peek s == 0) ≡ false → (c : ℕ) × (cs : Text) × (s ≡ c ∷ cs)
peek-cons [] h = cc
peek-cons (c ∷ cs) h = (c, cs, refl)

lex_token-Done :
    (w : Text) (c : ℕ) (cs : Text) (l : Lexer)
    → (peek l.source == 0) ≡ false
    → l.source ≡ c ∷ cs
    → l.at ≡ place w
    → Done w (c ∷ cs) l (lex_token l)
unfolding lex_token
lex_token-Done w c cs l h e here =
    let first : peek l.source ≡ c = ap peek e in
    let nonzero : c ≢ 0 = λ z. ground arith in
    let behind : Lexer = record l { source = cs; at = advance c (place w) } in
    rw (e, here)
      (perform-Done w c behind (classify c (peek cs)) refl nonzero (classify-Arm c (peek cs)))

-- The state of the loop: the bytes read, and the rounds that read them.
abbrev Traced : Text → Lexer → Type 0
Traced source l = (w : Text) × Rounds source w l.source l.tokens × (l.at ≡ place w)

lex_token-Traced :
    (source : Text) (l : Lexer)
    → (peek l.source == 0) ≡ false
    → Traced source l
    → Traced source (lex_token l)
lex_token-Traced source l h (w, before, here) =
    let (c, cs, e) = peek-cons l.source h in
    let (piece, o, split, round, pushed) = lex_token-Done w c cs l h e here in
    let after = (lex_token l).source in
    let rounds =
      again w piece after l.tokens o (subst (λ s. Rounds source w s l.tokens) (e ∙ split) before)
        round in
    let moved =
      subst (λ s. Reads after (lex_token l).at s l.at) split (next (lex_token-Reads l c cs e)) in
    (
      w ++ piece,
      subst (λ ts. Rounds source (w ++ piece) after ts) (sym pushed) rounds,
      Reads-place_split l.at w piece moved here,
    )

lex_loop-Traced :
    (source : Text) (fuel : ℕ) (l : Lexer) → Traced source l → Traced source (lex_loop fuel l)
unfolding lex_loop
lex_loop-Traced source zero l h = h
lex_loop-Traced source (suc fuel) l h = elim (Bool-cases (peek l.source == 0)) [
  | inl e ↦ rw (e, lex_loop) h
  | inr e ↦
      rw (e, lex_loop) (lex_loop-Traced source fuel (lex_token l) (lex_token-Traced source l e h))
]

Rounds-whole :
    (source w rest : Text) (ts : List Token) → Rounds source w rest ts → source ≡ w ++ rest
Rounds-whole source _ _ _ begin = refl
Rounds-whole source _ _ _ (again w piece rest ts o before round) =
    Rounds-whole source w (piece ++ rest) ts before ∙ sym (append_assoc w piece rest)

empty_ends : (s : Text) → length s ≤ 0 → (peek s == 0) ≡ true
empty_ends [] h = refl
empty_ends (c ∷ cs) h = absurd (omega arith)

-- With a unit of fuel for each byte the loop ends by its own test.
lex_loop_ends :
    (fuel : ℕ) (l : Lexer) → length l.source ≤ fuel → (peek (lex_loop fuel l).source == 0) ≡ true
unfolding lex_loop
lex_loop_ends zero l h = empty_ends l.source h
lex_loop_ends (suc fuel) l h = elim (Bool-cases (peek l.source == 0)) [
  | inl e ↦ rw (e, lex_loop) e
  | inr e ↦
      let (c, cs, f) = peek-cons l.source e in
      rw (e, lex_loop)
        (lex_loop_ends fuel (lex_token l)
          (omega (arith, ap length f, length-Reads (lex_token-Reads l c cs f))))
]

place_start : start_position ≡ place []
unfolding place
place_start = refl

-- The last token.
abbrev end_of_file : Position → Token
end_of_file at = record { kind = TokenKind.eof; text = codes "<eof>"; value = pos 0; at = at }

-- What `lex_source` has done when it returns: it has read the source up to its end or its first
-- NUL byte, round by round.
pub record IsTrace (source : Text) (tokens : List Token) : Type 0 where
  pub read_text : Text
  pub rest : Text
  pub pushed : List Token
  pub whole : source ≡ read_text ++ rest
  pub rest_empty : peek rest ≡ 0
  pub rounds : Rounds source read_text rest pushed
  pub tokens_are : tokens ≡ pushed ++ (end_of_file (place read_text) ∷ [])

-- `lex_source` cuts the source, up to its end or its first NUL byte, into rounds by the lexical
-- rules: blanks, newlines, comments, operators of two bytes before those of one, string literals,
-- words of the greatest length, numbers of the greatest length, and bytes that start nothing. Its
-- tokens are those of the rounds, in their order: each with the kind, the text and the value that
-- the rules give the bytes of its round, at the line and the column that the newlines and the
-- bytes in front of it make; and behind them one end of file, where the reading stopped.
pub lex_source-IsTrace : (source : Text) → IsTrace source (lex_source source).0
unfolding lex_source
lex_source-IsTrace source =
    let l = lex_loop (length source) (initial source) in
    let (w, rounds, here) =
      lex_loop-Traced source (length source) (initial source) ([], begin, place_start) in
    record {
      read_text = w;
      rest = l.source;
      pushed = l.tokens;
      whole = Rounds-whole source w l.source l.tokens rounds;
      rest_empty =
          (==_iff (peek l.source) 0).0
            (lex_loop_ends (length source) (initial source) (omega arith));
      rounds = rounds;
      tokens_are = ap (λ at. l.tokens ++ (end_of_file at ∷ [])) here;
    }
