-- ===== src/Flags.antt =====
-- Package flag as the programs use it, with the values of cmd/utils/common-args.go among its kinds
-- of value. A flag is bound to a cell, for two flags can share a variable.
pub mod WebServer
pub mod Typed
pub mod Pairs
use git_bundle_server.Base.{
  ℕ, zero, suc, ◌+◌, Text, codes, Bool, true, false, not, ◌&&◌, ◌||◌, List, [], ◌∷◌, ◌++◌, Option,
  none, some, if◌then◌else◌, ◌==◌, text_Eq, nat_Eq, nat_eq, take, drop, Error, message, wrap,
}
use git_bundle_server.Base.Assoc.{has, lookup, insert}
use git_bundle_server.Go.Strings.{index, is_empty, to_lower}
use git_bundle_server.Machine.{Reply, done, failed}

-- What a variable bound to a flag holds.
pub data FlagValue : Type 0 where
  boolean : Bool → FlagValue
  string : Text → FlagValue
  tls_version : ℕ → FlagValue

-- `tls.VersionTLS11` and so on
abbrev pub tls_versions : List (Text × ℕ)
tls_versions = (codes "tlsv1.1", 770) ∷ (codes "tlsv1.2", 771) ∷ (codes "tlsv1.3", 772) ∷ []

-- `tlsVersions[*v]`
unfoldable pub tls_name : List (Text × ℕ) → ℕ → Option Text
tls_name [] v = none
tls_name ((name, w) ∷ more) v = if nat_eq w v then some name else tls_name more v

abbrev set_tls : Option ℕ → Reply FlagValue
set_tls (some v) = done (tls_version v)
set_tls none = failed (message (codes "valid TLS versions are: 'tlsv1.1', 'tlsv1.2', 'tlsv1.3'"))

-- `tlsVersionValue.Set`
unfoldable pub tls_set : Text → Reply FlagValue
tls_set s = set_tls (lookup (to_lower s) tls_versions)

-- `strconv.ParseBool`
unfoldable pub parse_bool : Text → Option Bool
parse_bool s =
    if has (codes "1" ∷ codes "t" ∷ codes "T" ∷ codes "true" ∷ codes "TRUE" ∷ codes "True" ∷ []) s
    then some true
    else if has
        (codes "0" ∷ codes "f" ∷ codes "F" ∷ codes "false" ∷ codes "FALSE" ∷ codes "False" ∷ []) s
    then some false
    else none

abbrev set_boolean : Option Bool → Reply FlagValue
set_boolean (some b) = done (boolean b)
set_boolean none = failed (message (codes "parse error"))

-- `Set`
unfoldable pub set_value : FlagValue → Text → Reply FlagValue
set_value (boolean b) s = set_boolean (parse_bool s)
set_value (string t) s = done (string s)
set_value (tls_version v) s = tls_set s

abbrev pub is_bool_flag : FlagValue → Bool
is_bool_flag (boolean b) = true
is_bool_flag (string t) = false
is_bool_flag (tls_version v) = false

-- A `flag.FlagSet`: its flags with their cells, the cells, the flags that were set, and the
-- arguments behind the flags.
pub record FlagSet : Type 0 where
  pub formal : List (Text × Text)
  pub cells : List (Text × FlagValue)
  pub actual : List Text
  pub args : List Text

abbrev pub no_flags : FlagSet
no_flags = record { formal = []; cells = []; actual = []; args = [] }

-- A new flag with a variable of its own.
unfoldable pub define : Text → FlagValue → FlagSet → FlagSet
define name value fs = record fs {
  formal = insert name name fs.formal;
  cells = insert name value fs.cells;
}

-- A new flag for the variable of another.
unfoldable pub define_alias : Text → Text → FlagSet → FlagSet
define_alias name cell fs = record fs { formal = insert name cell fs.formal }

-- The variable of a flag
unfoldable pub flag_value : FlagSet → Text → Option FlagValue
flag_value fs name = elim (lookup name fs.formal) [ none ↦ none | some cell ↦ lookup cell fs.cells ]

abbrev pub store : FlagSet → Text → Text → Reply FlagValue → Reply FlagSet
store fs name cell (done value) = done (record fs {
  cells = insert cell value fs.cells;
  actual = if has fs.actual name then fs.actual else name ∷ fs.actual;
})
store fs name cell (failed e) =
    failed (wrap (codes "invalid value for flag -" ++ name ++ codes ": ") e)

abbrev pub set_cell : FlagSet → Text → Text → Text → Option FlagValue → Reply FlagSet
set_cell fs name cell s (some value) = store fs name cell (set_value value s)
set_cell fs name cell s none = failed (message (codes "no such flag -" ++ name))

-- `FlagSet.Set`, of a flag that is there
unfoldable pub set_flag : FlagSet → Text → Text → Reply FlagSet
set_flag fs name s = elim (lookup name fs.formal) [
  | some cell ↦ set_cell fs name cell s (lookup cell fs.cells)
  | none ↦ failed (message (codes "no such flag -" ++ name))
]

-- The name and the value of `name=value`; the `=` is not the first character.
unfoldable pub split_value : Text → Text × Option Text
split_value [] = ([], none)
split_value (c ∷ s) = elim (index b'=' s) [
  | none ↦ (c ∷ s, none)
  | some i ↦ (c ∷ take i s, some (drop (suc i) s))
]

-- What an argument is: none of the flags' business, the `--` that ends them, a flag, or an error.
pub data Token : Type 0 where
  operand terminator bad : Token
  flag : Text → Option Text → Token

abbrev named : Text → Token
named name =
    if is_empty name
      || nat_eq (elim name [ [] ↦ 0 | c ∷ s ↦ c ]) b'-'
      || nat_eq (elim name [ [] ↦ 0 | c ∷ s ↦ c ]) b'='
    then bad
    else flag (split_value name).0 (split_value name).1

unfoldable pub token : Text → Token
token [] = operand
token (c ∷ []) = operand
token (c ∷ d ∷ s) =
    if not (nat_eq c b'-')
    then operand
    else if nat_eq d b'-'
    then (if is_empty s then terminator else named s)
    else named (d ∷ s)

-- Where `FlagSet.Parse` stands: before an argument, before the value of a flag, behind the flags
-- with the arguments that are put back, or at an error.
pub data Parsing : Type 0 where
  reading : FlagSet → Parsing
  waiting : FlagSet → Text → Parsing
  stopped : FlagSet → List Text → Parsing
  refused : Error → Parsing

abbrev undefined : Text → Parsing
undefined name =
    if name == codes "help" || name == codes "h"
    then refused (message (codes "flag: help requested"))
    else refused (message (codes "flag provided but not defined: -" ++ name))

abbrev pub after_set : Reply FlagSet → Parsing
after_set (done fs) = reading fs
after_set (failed e) = refused e

abbrev pub read_flag : FlagSet → Text → Option Text → Option FlagValue → Parsing
read_flag fs name value none = undefined name
read_flag fs name (some s) (some v) = after_set (set_flag fs name s)
read_flag fs name none (some v) =
    if is_bool_flag v then after_set (set_flag fs name (codes "true")) else waiting fs name

-- `parseOne` up to the value of a flag that stands in the next argument.
abbrev pub read_arg : FlagSet → Text → Token → Parsing
read_arg fs s operand = stopped fs (s ∷ [])
read_arg fs s terminator = stopped fs []
read_arg fs s bad = refused (message (codes "bad flag syntax: " ++ s))
read_arg fs s (flag name value) = read_flag fs name value (flag_value fs name)

-- `FlagSet.Parse` from where it stands on. What it prints is left out.
unfoldable pub parse_from : Parsing → List Text → Reply FlagSet
parse_from (reading fs) [] = done (record fs { args = [] })
parse_from (reading fs) (s ∷ args) = parse_from (read_arg fs s (token s)) args
parse_from (waiting fs name) [] = failed (message (codes "flag needs an argument: -" ++ name))
parse_from (waiting fs name) (s ∷ args) = parse_from (after_set (set_flag fs name s)) args
parse_from (stopped fs behind) args = done (record fs { args = behind ++ args })
parse_from (refused e) args = failed e

abbrev pub parse_flags : FlagSet → List Text → Reply FlagSet
parse_flags fs args = parse_from (reading fs) args
