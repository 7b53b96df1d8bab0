-- ===== src/Sema/Matching.antt =====
-- The parts of `resolve_call`: finding the callee, and matching arguments with its parameters.
use back_and_forth.Prelude.{
  ℕ, zero, suc, Bool, true, false, not, List, [], ◌∷◌, map, Option, none, some, Text, ltb, ◌==◌,
  if◌then◌else◌, length, get_elem?, set,
}
use back_and_forth.Diagnostic.{
  Diagnostics, diag_error, variadic_named_argument, expects_arguments, no_parameter_named,
  too_many_arguments, supplied_more_than_once, missing_argument,
}
use back_and_forth.Syntax.{BafType, CallInfo, ArgInfo, Args, Program, no_args, arg}
use back_and_forth.Sema.Builtins.{BuiltinSpec, find_builtin}
use back_and_forth.Sema.Env.{index_of}

-- What a callee takes: any arguments, or one for each of these parameters.
pub data Target : Type 0 where
  variadic : Target
  fixed : List Text → Target

abbrev pub function_names : Program → List Text
function_names p = map (λ f. f.name) p.functions

-- The names of the parameters of the function with this index.
abbrev pub parameter_names : Program → ℕ → List Text
parameter_names p i = elim (get_elem? p.functions i) [
  | none ↦ []
  | some f ↦ map (λ a. a.name) f.params
]

abbrev pub function_type : Program → ℕ → BafType
function_type p i = elim (get_elem? p.functions i) [
  | none ↦ BafType.unknown
  | some f ↦ f.return_type
]

abbrev pub resolve_builtin : BuiltinSpec → CallInfo → CallInfo × Target
resolve_builtin b info = (
  record info { builtin = b.kind; return_type = b.return_type },
  if b.variadic then variadic else fixed (map (λ a. a.0) b.parameters),
)

-- The two branches of the head of `resolve_call`, at what `find_builtin` and `find_function` gave.
abbrev pub callee_from :
    Program → CallInfo → Option BuiltinSpec → Option ℕ → Option (CallInfo × Target)
callee_from p info (some b) f = some (resolve_builtin b info)
callee_from p info none (some i) = some (
  record info { resolved = some i; return_type = function_type p i },
  fixed (parameter_names p i),
)
callee_from p info none none = none

-- The head of `resolve_call`: the callee, and what it takes, unless nothing has that name.
unfoldable pub resolve_callee : Program → CallInfo → Option (CallInfo × Target)
unfolding find_builtin index_of
resolve_callee p info =
    callee_from p info (find_builtin info.callee) (index_of (function_names p) info.callee)

-- The variables of the loop over the arguments: `i`, `used` and `next_positional`.
pub record Matching : Type 0 where
  pub index : ℕ
  pub used : List Bool
  pub next_positional : ℕ
  pub diag : Diagnostics

-- `used[i]`
abbrev pub is_used : List Bool → ℕ → Bool
is_used [] i = false
is_used (b ∷ bs) zero = b
is_used (b ∷ bs) (suc i) = is_used bs i

-- The first index from `n` on that is not used, or the number of parameters.
unfoldable pub skip_used : List Bool → ℕ → ℕ
skip_used [] n = n
skip_used (b ∷ bs) zero = if b then suc (skip_used bs zero) else zero
skip_used (b ∷ bs) (suc n) = suc (skip_used bs n)

abbrev pub name_at : List Text → ℕ → Text
name_at [] i = []
name_at (n ∷ ns) zero = n
name_at (n ∷ ns) (suc i) = name_at ns i

abbrev pub with_parameter : ArgInfo → ℕ → ArgInfo
with_parameter a i = record a { resolved_parameter = some i }

-- The tail of the loop's body, from the test of `index` on.
unfoldable pub take_parameter : Text → List Text → ArgInfo → ℕ → Matching → ArgInfo × Matching
take_parameter callee params a i m =
    if not (ltb i (length params))
    then (a, record m { diag = diag_error m.diag a.token.at (too_many_arguments callee) })
    else if is_used m.used i
    then (
      a,
      record m { diag = diag_error m.diag a.token.at (supplied_more_than_once (name_at params i)) },
    )
    else (with_parameter a i, record m { used = set m.used i true })

-- An argument of a call with fixed parameters.
unfoldable pub match_named : Text → List Text → ArgInfo → Text → Matching → ArgInfo × Matching
unfolding index_of take_parameter
match_named callee params a n m = elim (index_of params n) [
  | none ↦ (a, record m { diag = diag_error m.diag a.token.at (no_parameter_named callee n) })
  | some i ↦ take_parameter callee params a i m
]

unfoldable pub match_positional : Text → List Text → ArgInfo → Matching → ArgInfo × Matching
unfolding skip_used take_parameter
match_positional callee params a m =
    let next = skip_used m.used m.next_positional in
    let taken = if ltb next (length params) then suc next else next in
    take_parameter callee params a next (record m { next_positional = taken })

unfoldable pub match_fixed : Text → List Text → ArgInfo → Matching → ArgInfo × Matching
unfolding match_named match_positional
match_fixed callee params a m = elim a.name [
  | some n ↦ match_named callee params a n m
  | none ↦ match_positional callee params a m
]

-- An argument of a variadic call takes its own index.
unfoldable pub match_variadic : Text → ArgInfo → Matching → ArgInfo × Matching
match_variadic callee a m =
    let diag : Diagnostics = elim a.name [
      | none ↦ m.diag
      | some n ↦ diag_error m.diag a.token.at (variadic_named_argument callee)
    ] in
    (with_parameter a m.index, record m { diag = diag })

unfoldable pub match_argument : Text → Target → ArgInfo → Matching → ArgInfo × Matching
unfolding match_fixed match_variadic
match_argument callee variadic a m = match_variadic callee a m
match_argument callee (fixed params) a m = match_fixed callee params a m

abbrev pub arg_count : Args → ℕ
arg_count no_args = zero
arg_count (arg a e rest) = suc (arg_count rest)

abbrev pub all_unused : List Text → List Bool
all_unused [] = []
all_unused (n ∷ ns) = false ∷ all_unused ns

-- The test of the number of arguments, and the variables before the loop.
unfoldable pub start_matching : CallInfo → Target → ℕ → Diagnostics → Matching
start_matching info variadic count diag = record {
  index = 0;
  used = [];
  next_positional = 0;
  diag = diag;
}
start_matching info (fixed params) count diag = record {
  index = 0;
  used = all_unused params;
  next_positional = 0;
  diag =
      if count == length params
      then diag
      else diag_error diag info.token.at (expects_arguments info.callee (length params) count);
}

-- The last loop, over the parameters and `used`.
unfoldable pub report_missing : CallInfo → List Text → List Bool → Diagnostics → Diagnostics
report_missing info [] used diag = diag
report_missing info (n ∷ ns) [] diag = diag
report_missing info (n ∷ ns) (u ∷ us) diag =
    report_missing info ns us
      (if u then diag else diag_error diag info.token.at (missing_argument n info.callee))

unfoldable pub finish_matching : CallInfo → Target → Matching → Diagnostics
unfolding report_missing
finish_matching info variadic m = m.diag
finish_matching info (fixed params) m = report_missing info params m.used m.diag
