-- ===== src/Diagnostic.antt =====
-- What `diag_error` of src/util.c reports: a position and a message. `Diagnostics.errors` is the
-- number of reports, so a list of them, in the order of the calls, stands for the whole object.
use back_and_forth.Prelude.{ℕ, List, Text, ◌++◌, [], ◌∷◌, Bool, true, false}
use back_and_forth.Token.{Position, TokenKind}
use back_and_forth.Syntax.{BafType}

-- One constructor for each format string, with the arguments that it prints.
pub data Message : Type 0 where
  -- src/lexer.c
  invalid_integer_literal : Text → Message
  unterminated_string_before_end_of_line : Message
  nul_escapes_are_not_supported : Message
  unknown_escape_sequence : ℕ → Message
  unterminated_string_literal : Message
  unterminated_block_comment : Message
  expected_second : ℕ → Message
  unexpected_character : ℕ → Message
  -- src/parser.c: `consume` prints its message and the kind that it found.
  expected_token : Text → TokenKind → Message
  expected_type_name : Message
  positional_after_named : Message
  qualified_name_must_be_called : Text → Message
  expected_expression : TokenKind → Message
  expected_statement_end : Message
  one_default_case : Message
  expected_case : Message
  expected_call_or_assignment : Text → Message
  expected_statement : TokenKind → Message
  one_begin_block : Message
  expected_declaration : TokenKind → Message
  missing_begin_block : Message
  -- src/sema.c
  unknown_function : Text → Message
  variadic_named_argument : Text → Message
  expects_arguments : Text → ℕ → ℕ → Message
  no_parameter_named : Text → Text → Message
  too_many_arguments : Text → Message
  supplied_more_than_once : Text → Message
  missing_argument : Text → Text → Message
  reserved_name : Text → Message
  function_already_declared : Text → Message
  duplicate_parameter : Text → Message
  function_does_not_return_a_value : Text → Message
  can_print_only_values : Text → Message
  unknown_name : Text → Message
  cannot_compare : BafType → BafType → Message
  cannot_compare_void : Message
  cannot_concatenate : BafType → Message
  left_side_is : BafType → Message
  right_side_is : BafType → Message
  expected_but_found : BafType → BafType → Message
  name_already_declared : Text → Message
  cannot_assign_to_unknown_name : Text → Message
  begin_block_cannot_return_a_value : Message
  returns_void : Text → Message
  must_return_a_value : Text → BafType → Message
  break_outside_loop : Message
  continue_outside_loop : Message
  switch_supports_only : Message
  case_values_must_be_literals : Message
  cannot_infer_parameter : Text → Message
  paths_without_return : Text → BafType → Message

pub record Diagnostic : Type 0 where
  pub at : Position
  pub message : Message

abbrev pub Diagnostics : Type 0
Diagnostics = List Diagnostic

abbrev pub diag_error : Diagnostics → Position → Message → Diagnostics
diag_error diag at m = diag ++ (record { at = at; message = m } ∷ [])

-- `diag->errors == 0`
abbrev pub no_errors : Diagnostics → Bool
no_errors [] = true
no_errors (d ∷ ds) = false
