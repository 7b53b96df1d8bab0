-- ===== src/Parser/Kinds.antt =====
-- Comparing token kinds.
use back_and_forth.Prelude.{Bool, true, false, ◌≡◌, ◌≢◌, arith}
use back_and_forth.Token.{TokenKind}

TokenKind-discrete : Discrete TokenKind
TokenKind-discrete = hlevel

unfoldable pub is_kind : TokenKind → TokenKind → Bool
unfolding TokenKind-discrete
is_kind k l = elim (TokenKind-discrete k l) [ yes h ↦ true | no h ↦ false ]

pub is_kind-eq : (k l : TokenKind) → is_kind k l ≡ true → k ≡ l
unfolding is_kind
is_kind-eq k l h = ground arith

pub is_kind_refl : (k : TokenKind) → is_kind k k ≡ true
unfolding is_kind
is_kind_refl k = ground arith

pub is_kind-ne : (k l : TokenKind) → k ≢ l → is_kind k l ≡ false
unfolding is_kind
is_kind-ne k l h = ground arith
