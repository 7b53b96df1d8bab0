-- ===== src/Lexer/Keywords.antt =====
-- A word is what the ladder of `keyword_kind` says.
use back_and_forth.Prelude.{
  ◌&◌, ◌≡◌, ◌≢◌, ◌⊎◌, inl, inr, refl, sym, ◌∙◌, subst, List, [], ◌∷◌, Text, text_eq, text_eq_iff,
  Bool-cases, All,
}
use back_and_forth.Token.{TokenKind}
use back_and_forth.Lexer.Words.{find_keyword, keyword_kind, keywords}
use back_and_forth.Lexer.Rules.{
  Keyword, Word, reserved, plain_name, keyword_begin, keyword_func, keyword_static, keyword_int,
  keyword_str, keyword_string, keyword_bool, keyword_true, keyword_false, keyword_while,
  keyword_for, keyword_if, keyword_elsif, keyword_elif, keyword_else, keyword_return, keyword_break,
  keyword_continue, keyword_void, keyword_switch, keyword_case, keyword_default,
}

Keyword-keyword_kind :
    (text : Text) (k : TokenKind)
    → Keyword text k
    → (keyword_kind text ≡ k) × (k ≢ TokenKind.identifier)
unfolding keyword_kind
Keyword-keyword_kind _ _ keyword_begin = (refl, cc)
Keyword-keyword_kind _ _ keyword_func = (refl, cc)
Keyword-keyword_kind _ _ keyword_static = (refl, cc)
Keyword-keyword_kind _ _ keyword_int = (refl, cc)
Keyword-keyword_kind _ _ keyword_str = (refl, cc)
Keyword-keyword_kind _ _ keyword_string = (refl, cc)
Keyword-keyword_kind _ _ keyword_bool = (refl, cc)
Keyword-keyword_kind _ _ keyword_true = (refl, cc)
Keyword-keyword_kind _ _ keyword_false = (refl, cc)
Keyword-keyword_kind _ _ keyword_while = (refl, cc)
Keyword-keyword_kind _ _ keyword_for = (refl, cc)
Keyword-keyword_kind _ _ keyword_if = (refl, cc)
Keyword-keyword_kind _ _ keyword_elsif = (refl, cc)
Keyword-keyword_kind _ _ keyword_elif = (refl, cc)
Keyword-keyword_kind _ _ keyword_else = (refl, cc)
Keyword-keyword_kind _ _ keyword_return = (refl, cc)
Keyword-keyword_kind _ _ keyword_break = (refl, cc)
Keyword-keyword_kind _ _ keyword_continue = (refl, cc)
Keyword-keyword_kind _ _ keyword_void = (refl, cc)
Keyword-keyword_kind _ _ keyword_switch = (refl, cc)
Keyword-keyword_kind _ _ keyword_case = (refl, cc)
Keyword-keyword_kind _ _ keyword_default = (refl, cc)

find_keyword-Keyword :
    (text : Text) (table : List (Text × TokenKind))
    → All (λ e. Keyword e.0 e.1) table
    → Keyword text (find_keyword text table) ⊎ (find_keyword text table ≡ TokenKind.identifier)
unfolding find_keyword
find_keyword-Keyword text [] h = inr refl
find_keyword-Keyword text ((word, kind) ∷ rest) h = elim (Bool-cases (text_eq text word)) [
  | inl e ↦ rw e (inl (subst (λ t. Keyword t kind) (sym ((text_eq_iff text word).0 e)) h.0))
  | inr e ↦ rw e (find_keyword-Keyword text rest h.1)
]

keywords-Keyword : All (λ e. Keyword e.0 e.1) keywords
keywords-Keyword =
    keyword_begin & keyword_func & keyword_static & keyword_int & keyword_str & keyword_string
    & keyword_bool & keyword_true & keyword_false & keyword_while & keyword_for & keyword_if
    & keyword_elsif & keyword_elif & keyword_else & keyword_return & keyword_break
    & keyword_continue & keyword_void & keyword_switch & keyword_case & keyword_default & tt

pub keyword_kind-Word : (text : Text) → Word text (keyword_kind text)
unfolding keyword_kind
keyword_kind-Word text = elim (find_keyword-Keyword text keywords keywords-Keyword) [
  | inl h ↦ reserved _ h
  | inr h ↦
      subst (λ k. Word text k) (sym h)
        (plain_name
          (λ k z. let (same, other) = Keyword-keyword_kind text k z in other (sym same ∙ h)))
]
