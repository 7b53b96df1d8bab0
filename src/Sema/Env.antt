-- ===== src/Sema/Env.antt =====
-- `Environment`, `find_function`, `parameter_index` and `builtin_parameter_index`.
use back_and_forth.Prelude.{ℕ, suc, List, [], ◌∷◌, Option, none, some, Text, text_eq, if◌then◌else◌}
use back_and_forth.Token.{Token}
use back_and_forth.Syntax.{BafType}

-- Where the type of a name is kept: in the binding, or in a parameter of a function, which is what
-- `external_type` points to.
pub data TypeSlot : Type 0 where
  own : BafType → TypeSlot
  external : ℕ → ℕ → TypeSlot

pub record Binding : Type 0 where
  pub name : Text
  pub slot : TypeSlot
  pub token : Token

-- The bindings, the newest first; `env->count = n` drops the newest.
abbrev pub Environment : Type 0
Environment = List Binding

-- `env_find` searches from the newest binding.
unfoldable pub env_find : Environment → Text → Option Binding
unfolding text_eq
env_find [] name = none
env_find (b ∷ bs) name = if text_eq b.name name then some b else env_find bs name

abbrev pub env_add : Environment → Text → TypeSlot → Token → Environment
env_add env name slot token = record { name = name; slot = slot; token = token } ∷ env

-- The first index whose element has the name: the searches of `find_function`, `parameter_index`
-- and `builtin_parameter_index`, where `none` stands for NULL and -1.
unfoldable pub index_of : List Text → Text → Option ℕ
unfolding text_eq
index_of [] name = none
index_of (n ∷ ns) name =
    if text_eq n name
    then some 0
    else elim (index_of ns name) [ none ↦ none | some i ↦ some (suc i) ]
