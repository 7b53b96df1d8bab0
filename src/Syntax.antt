-- ===== src/Syntax.antt =====
-- The syntax tree of include/baf.h. A NULL pointer to an expression or a statement is a
-- constructor of its own, since the parser builds such nodes and the analyser tests for them; the
-- arrays of arguments, cases, branches and statements are lists declared in the block.
use back_and_forth.Prelude.{ℕ, ℤ, Bool, true, false, List, Option, Text}
use back_and_forth.Token.{Token}

-- `BafType`
pub data BafType : Type 0 where
  unknown void int str bool : BafType

-- `BuiltinKind`
pub data BuiltinKind : Type 0 where
  none_kind putsc putl inpt str_eq console_clear console_set_text_color : BuiltinKind
  console_set_background_color power_shutdown power_reboot : BuiltinKind
  disk_scan disk_count disk_list disk_hex disk_select disk_format disk_files disk_write :
      BuiltinKind
  disk_read disk_rem disk_exists disk_size disk_info disk_create_dir disk_goto_dir : BuiltinKind
  disk_get_dir str_length str_concat str_sub str_from_int str_from_bool str_to_int : BuiltinKind
  math_abs math_min math_max : BuiltinKind

pub data BinaryOp : Type 0 where
  add sub mul div mod_op eq ne lt le gt ge and_op or_op : BinaryOp

pub data UnaryOp : Type 0 where
  neg not_op : UnaryOp

-- What `Call` holds besides its arguments: `resolved` is the index in `Program.functions` of
-- `resolved_function`, and `none` its NULL.
pub record CallInfo : Type 0 where
  pub callee : Text
  pub token : Token
  pub resolved : Option ℕ
  pub builtin : BuiltinKind
  pub return_type : BafType

-- What `CallArg` holds besides its value; `none` is the -1 of `resolved_parameter`.
pub record ArgInfo : Type 0 where
  pub name : Option Text
  pub token : Token
  pub resolved_parameter : Option ℕ

mutual
  -- Every expression but NULL holds its token.
  pub data Expr : Type 0 where
    null : Expr
    integer : Token → ℤ → Expr
    string : Token → Text → Expr
    boolean : Token → Bool → Expr
    name : Token → Text → Expr
    binary : Token → BinaryOp → Expr → Expr → Expr
    unary : Token → UnaryOp → Expr → Expr
    call : Token → CallInfo → Args → Expr

  pub data Args : Type 0 where
    no_args : Args
    arg : ArgInfo → Expr → Args → Args

-- A `STMT_CALL` holds a `Call`, as an expression of that kind does.
mutual
  pub data Stmt : Type 0 where
    null_stmt : Stmt
    var : Token → BafType → Text → Expr → Stmt
    assign : Token → Text → Expr → Stmt
    call_stmt : Token → CallInfo → Args → Stmt
    while_stmt : Token → Expr → Block → Stmt
    for_stmt : Token → Stmt → Expr → Stmt → Block → Stmt
    switch_stmt : Token → Expr → Cases → Stmt
    if_stmt : Token → Branches → Stmt
    return_stmt : Token → Expr → Stmt
    break_stmt : Token → Stmt
    continue_stmt : Token → Stmt

  pub data Block : Type 0 where
    no_stmts : Block
    stmt : Stmt → Block → Block

  -- `SwitchCase`: its token, whether it is the default, its value and its body.
  pub data Cases : Type 0 where
    no_cases : Cases
    switch_case : Token → Bool → Expr → Block → Cases → Cases

  -- `IfBranch`: the condition of a trailing else is NULL.
  pub data Branches : Type 0 where
    no_branches : Branches
    branch : Token → Expr → Block → Branches → Branches

abbrev pub is_null : Expr → Bool
is_null null = true
is_null _ = false

pub record Parameter : Type 0 where
  pub name : Text
  pub token : Token
  pub type : BafType
  pub explicitly_typed : Bool

pub record Function : Type 0 where
  pub name : Text
  pub token : Token
  pub is_static : Bool
  pub return_type : BafType
  pub explicit_return_type : Bool
  pub params : List Parameter
  pub body : Block

pub record Program : Type 0 where
  pub functions : List Function
  pub begin_block : Block
