-- ===== src/Lexer/Trace.antt =====
-- How the lexer moves over the source: it only ever reads on, a byte at a time.
use back_and_forth.Prelude.{
  ℕ, ◌≤◌, ◌&&◌, tail, ◌≡◌, refl, inl, inr, Bool, [], ◌∷◌, arith, Text, ◌==◌, length, Bool-cases,
  subst,
}
use back_and_forth.Token.{Position}
use back_and_forth.Lexer.Chars.{peek, advance, advance_while}
use back_and_forth.Lexer.Comments.{skip_block_comment}
use back_and_forth.Lexer.Strings.{
  StringLoop, StringByte, nul, closing_quote, line_end, backslash, plain, string_byte, string_loop,
  decode_escape, read_byte, append_decoded,
}

-- Reading on from the source `s'` at `at'`, byte after byte, leads to `s` at `at`.
pub data Reads (s : Text) (at : Position) : Text → Position → Type 0 where
  stop : Reads s at s at
  next :
      {c : ℕ} {cs : Text} {at' : Position} → Reads s at cs (advance c at') → Reads s at (c ∷ cs) at'

pub Reads-trans :
    {s t : Text} {p q : Position} (u : Text) (r : Position)
    → Reads s p t q
    → Reads t q u r
    → Reads s p u r
Reads-trans _ _ h stop = h
Reads-trans _ _ h (next k) = next (Reads-trans _ _ h k)

pub length-Reads :
    {s : Text} {p : Position} {t : Text} {q : Position} → Reads s p t q → length s ≤ length t
length-Reads stop = omega arith
length-Reads (next k) = omega (arith, length-Reads k)

abbrev pub ReadsTo : Text × Position → Text → Position → Type 0
ReadsTo r s at = Reads r.0 r.1 s at

pub advance_while-Reads :
    (test : ℕ → Bool) (s : Text) (at : Position) → ReadsTo (advance_while test s at) s at
unfolding advance_while
advance_while-Reads test [] at = stop
advance_while-Reads test (c ∷ cs) at = elim (Bool-cases (test c)) [
  | inl e ↦ rw e (next (advance_while-Reads test cs (advance c at)))
  | inr e ↦ rw e stop
]

abbrev BlockReads : Bool × Text × Position → Text → Position → Type 0
BlockReads r s at = Reads r.1 r.2 s at

slash-Reads : (s : Text) (at : Position) → peek s ≡ b'/' → Reads (tail s) (advance b'/' at) s at
slash-Reads [] at h = absurd (omega arith)
slash-Reads (d ∷ ds) at h = subst (λ k. Reads ds (advance k at) (d ∷ ds) at) h (next stop)

pub skip_block_comment-Reads :
    (s : Text) (at : Position) → BlockReads (skip_block_comment s at) s at
unfolding skip_block_comment
skip_block_comment-Reads [] at = stop
skip_block_comment-Reads (c ∷ cs) at = elim (Bool-cases (c == 0)) [
  | inl e ↦ rw e stop
  | inr e ↦ elim (Bool-cases (c == b'*' && peek cs == b'/')) [
    | inl f ↦ rw (e, f) (next (slash-Reads cs (advance c at) (ground arith)))
    | inr f ↦ rw (e, f) (next (skip_block_comment-Reads cs (advance c at)))
  ]
]

decode_escape-at : (e : ℕ) (s : StringLoop) → (decode_escape e s).at ≡ s.at
unfolding decode_escape
decode_escape-at e s = ground arith

abbrev LoopReads : StringLoop → Text → Position → Type 0
LoopReads r s at = Reads r.source r.at s at

pub string_loop-Reads :
    (w : Position) (x : Text) (s : StringLoop) → LoopReads (string_loop w x s) x s.at
unfolding string_loop
string_loop-Reads w [] s = stop
string_loop-Reads w (c ∷ []) s = go (string_byte c) refl
  where
    go : (b : StringByte) → string_byte c ≡ b → LoopReads (string_loop w (c ∷ []) s) (c ∷ []) s.at
    go nul e = rw (e, string_loop) stop
    go closing_quote e = rw (e, string_loop) (next stop)
    go line_end e = rw (e, string_loop) (next stop)
    go backslash e = rw (e, string_loop) (next stop)
    go plain e = rw (e, string_loop) (next stop)
string_loop-Reads w (c ∷ d ∷ cs) s =
    go (string_byte c) refl (string_loop-Reads w cs) (string_loop-Reads w (d ∷ cs))
  where
    go :
        (b : StringByte)
        → string_byte c ≡ b
        → ((t : StringLoop) → LoopReads (string_loop w cs t) cs t.at)
        → ((t : StringLoop) → LoopReads (string_loop w (d ∷ cs) t) (d ∷ cs) t.at)
        → LoopReads (string_loop w (c ∷ d ∷ cs) s) (c ∷ d ∷ cs) s.at
    go nul e behind ahead = rw (e, string_loop) stop
    go closing_quote e behind ahead = rw (e, string_loop) (next stop)
    go line_end e behind ahead = rw (e, string_loop) (next stop)
    go plain e behind ahead =
        rw (e, string_loop) (next (ahead (append_decoded (read_byte c (d ∷ cs) s) c)))
    go backslash e behind ahead = elim (Bool-cases (d == 0)) [
      | inl f ↦ rw (e, f, string_loop) (next stop)
      | inr f ↦
          let t = read_byte d cs (read_byte c (d ∷ cs) s) in
          let u = decode_escape d t in
          let r = string_loop w cs u in
          rw (e, f, string_loop)
            (next (next (subst (λ p. Reads r.source r.at cs p) (decode_escape-at d t) (behind u))))
    ]
