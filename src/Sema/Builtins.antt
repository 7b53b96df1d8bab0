-- ===== src/Sema/Builtins.antt =====
-- The table `BUILTINS` of src/sema.c, and the searches in it.
use Prim.Native.String.{String}
use back_and_forth.Prelude.{
  Bool, true, false, List, [], ◌∷◌, ◌++◌, Option, none, some, Text, codes, text_eq, if◌then◌else◌,
}
use back_and_forth.Syntax.{BafType, void, int, str, bool, BuiltinKind}

-- `BuiltinSpec`: `parameter_count` is the length of the list that stands for the two arrays.
pub record BuiltinSpec : Type 0 where
  pub name : Text
  pub kind : BuiltinKind
  pub return_type : BafType
  pub parameters : List (Text × BafType)
  pub variadic : Bool

abbrev spec : String → BuiltinKind → BafType → List (Text × BafType) → Bool → BuiltinSpec
spec name kind return_type parameters variadic = record {
  name = codes name;
  kind = kind;
  return_type = return_type;
  parameters = parameters;
  variadic = variadic;
}

-- The rows above `disk.select`, and those from it on.
unfoldable pub capital_rows : List BuiltinSpec
capital_rows =
    spec "putsc" BuiltinKind.putsc void [] true
    ∷ spec "putl" BuiltinKind.putl void [] true
    ∷ spec "inpt" BuiltinKind.inpt str [] true
    ∷ spec "clearc" BuiltinKind.console_clear void [] false
    ∷ spec "Console.Clear" BuiltinKind.console_clear void [] false
    ∷ spec "Console.SetTextColor" BuiltinKind.console_set_text_color void
        ((codes "color", int) ∷ []) false
    ∷ spec "Console.SetTextBackgroundColor" BuiltinKind.console_set_background_color void
        ((codes "color", int) ∷ []) false
    ∷ spec "console.setTextColor" BuiltinKind.console_set_text_color void
        ((codes "color", int) ∷ []) false
    ∷ spec "console.setTextBackgroundColor" BuiltinKind.console_set_background_color void
        ((codes "color", int) ∷ []) false
    ∷ spec "Power.Shutdown" BuiltinKind.power_shutdown void [] false
    ∷ spec "Power.Reboot" BuiltinKind.power_reboot void [] false
    ∷ spec "Disk.Scan" BuiltinKind.disk_scan void [] false
    ∷ spec "Disk.Count" BuiltinKind.disk_count int [] false
    ∷ spec "Disk.List" BuiltinKind.disk_list void [] false
    ∷ spec "Disk.Hex" BuiltinKind.disk_hex void ((codes "disk", int) ∷ (codes "lba", int) ∷ [])
        false
    ∷ spec "Disk.Select" BuiltinKind.disk_select bool ((codes "disk", int) ∷ []) false
    ∷ spec "Disk.Format" BuiltinKind.disk_format bool [] false
    ∷ spec "Disk.Files" BuiltinKind.disk_files void [] false
    ∷ spec "Disk.Write" BuiltinKind.disk_write bool
        ((codes "name", str) ∷ (codes "content", str) ∷ []) false
    ∷ spec "Disk.Read" BuiltinKind.disk_read str ((codes "name", str) ∷ []) false
    ∷ spec "Disk.Rem" BuiltinKind.disk_rem bool ((codes "name", str) ∷ []) false
    ∷ spec "Disk.Exists" BuiltinKind.disk_exists bool ((codes "name", str) ∷ []) false
    ∷ spec "Disk.Size" BuiltinKind.disk_size int ((codes "name", str) ∷ []) false
    ∷ spec "Disk.Info" BuiltinKind.disk_info void [] false
    ∷ spec "Disk.CreateDir" BuiltinKind.disk_create_dir bool ((codes "name", str) ∷ []) false
    ∷ spec "Disk.GotoDir" BuiltinKind.disk_goto_dir bool ((codes "name", str) ∷ []) false
    ∷ spec "Disk.GetDir" BuiltinKind.disk_get_dir str [] false
    ∷ []

unfoldable pub other_rows : List BuiltinSpec
other_rows =
    spec "disk.select" BuiltinKind.disk_select bool ((codes "disk", int) ∷ []) false
    ∷ spec "disk.format" BuiltinKind.disk_format bool [] false
    ∷ spec "disk.files" BuiltinKind.disk_files void [] false
    ∷ spec "disk.write" BuiltinKind.disk_write bool
        ((codes "name", str) ∷ (codes "content", str) ∷ []) false
    ∷ spec "disk.read" BuiltinKind.disk_read str ((codes "name", str) ∷ []) false
    ∷ spec "disk.rem" BuiltinKind.disk_rem bool ((codes "name", str) ∷ []) false
    ∷ spec "disk.exists" BuiltinKind.disk_exists bool ((codes "name", str) ∷ []) false
    ∷ spec "disk.size" BuiltinKind.disk_size int ((codes "name", str) ∷ []) false
    ∷ spec "disk.info" BuiltinKind.disk_info void [] false
    ∷ spec "disk.createDir" BuiltinKind.disk_create_dir bool ((codes "name", str) ∷ []) false
    ∷ spec "disk.gotoDir" BuiltinKind.disk_goto_dir bool ((codes "name", str) ∷ []) false
    ∷ spec "disk.getDir" BuiltinKind.disk_get_dir str [] false
    ∷ spec "Str.Length" BuiltinKind.str_length int ((codes "text", str) ∷ []) false
    ∷ spec "Str.Concat" BuiltinKind.str_concat str ((codes "left", str) ∷ (codes "right", str) ∷ [])
        false
    ∷ spec "Str.Sub" BuiltinKind.str_sub str
        ((codes "text", str) ∷ (codes "start", int) ∷ (codes "count", int) ∷ []) false
    ∷ spec "Str.FromInt" BuiltinKind.str_from_int str ((codes "value", int) ∷ []) false
    ∷ spec "Str.FromBool" BuiltinKind.str_from_bool str ((codes "value", bool) ∷ []) false
    ∷ spec "Str.ToInt" BuiltinKind.str_to_int int ((codes "text", str) ∷ []) false
    ∷ spec "Str.Equals" BuiltinKind.str_eq bool ((codes "left", str) ∷ (codes "right", str) ∷ [])
        false
    ∷ spec "str.length" BuiltinKind.str_length int ((codes "text", str) ∷ []) false
    ∷ spec "str.concat" BuiltinKind.str_concat str ((codes "left", str) ∷ (codes "right", str) ∷ [])
        false
    ∷ spec "str.sub" BuiltinKind.str_sub str
        ((codes "text", str) ∷ (codes "start", int) ∷ (codes "count", int) ∷ []) false
    ∷ spec "str.fromInt" BuiltinKind.str_from_int str ((codes "value", int) ∷ []) false
    ∷ spec "str.fromBool" BuiltinKind.str_from_bool str ((codes "value", bool) ∷ []) false
    ∷ spec "str.toInt" BuiltinKind.str_to_int int ((codes "text", str) ∷ []) false
    ∷ spec "str.equals" BuiltinKind.str_eq bool ((codes "left", str) ∷ (codes "right", str) ∷ [])
        false
    ∷ spec "Math.Abs" BuiltinKind.math_abs int ((codes "value", int) ∷ []) false
    ∷ spec "Math.Min" BuiltinKind.math_min int ((codes "left", int) ∷ (codes "right", int) ∷ [])
        false
    ∷ spec "Math.Max" BuiltinKind.math_max int ((codes "left", int) ∷ (codes "right", int) ∷ [])
        false
    ∷ spec "math.abs" BuiltinKind.math_abs int ((codes "value", int) ∷ []) false
    ∷ spec "math.min" BuiltinKind.math_min int ((codes "left", int) ∷ (codes "right", int) ∷ [])
        false
    ∷ spec "math.max" BuiltinKind.math_max int ((codes "left", int) ∷ (codes "right", int) ∷ [])
        false
    ∷ []

-- `BUILTINS`
unfoldable pub builtins : List BuiltinSpec
unfolding capital_rows other_rows
builtins = capital_rows ++ other_rows

unfoldable pub find_spec : Text → List BuiltinSpec → Option BuiltinSpec
unfolding text_eq
find_spec name [] = none
find_spec name (b ∷ bs) = if text_eq b.name name then some b else find_spec name bs

unfoldable pub find_builtin : Text → Option BuiltinSpec
unfolding find_spec builtins
find_builtin name = find_spec name builtins
