-- ===== src/Argparse.antt =====
-- internal/argparse: the parser of flags, subcommands and positional arguments. What it prints is
-- left out; `Usage` and an error of the flags end the process with status 2.
pub mod Positional
pub mod Dispatch
use git_bundle_server.Base.{
  ℕ, zero, suc, ◌+◌, ◌-◌, Text, codes, Bool, true, false, not, ◌&&◌, ◌||◌, List, [], ◌∷◌, ◌++◌,
  Option, none, some, if◌then◌else◌, length, drop, leb, text_Eq, Outcome, ok, err, halt, panic,
  exit, M, throw, stop,
}
use git_bundle_server.Base.Assoc.{lookup, insert}
use git_bundle_server.Flags.{FlagSet, FlagValue, no_flags, define, define_alias, parse_flags}
use git_bundle_server.Machine.{Reply, done, failed}

-- `usageExitCode`
abbrev pub usage_exit_code : ℕ
usage_exit_code = 2

-- The variable of a positional argument, with what it holds: one string, or a list of them.
pub data Variable : Type 0 where
  string_var : Text → Variable
  list_var : List Text → Variable

pub record PositionalArg : Type 0 where
  pub name : Text
  pub required : Bool
  pub value : Variable

-- `genericSubcommand`, and any other subcommand
pub record Subcommand (W : Type 0) : Type 0 where
  pub name : Text
  pub run : List Text → M W (Unit {0})

-- `argParser`
pub record ArgParser (W : Type 0) : Type 0 where
  pub is_top_level : Bool
  pub parsed : Bool
  pub arg_offset : ℕ
  pub subcommands : List (Text × Subcommand W)
  pub positional_args : List PositionalArg
  pub selected_subcommand : Option (Subcommand W)
  pub flags : FlagSet

abbrev pub new_arg_parser : {W : Type 0} → ArgParser W
new_arg_parser = record {
  is_top_level = false;
  parsed = false;
  arg_offset = 0;
  subcommands = [];
  positional_args = [];
  selected_subcommand = none;
  flags = no_flags;
}

-- Element of a slice, the empty string if there is none: `flag.FlagSet.Arg`
unfoldable pub arg_at : List Text → ℕ → Text
arg_at [] i = []
arg_at (s ∷ args) zero = s
arg_at (s ∷ args) (suc i) = arg_at args i

abbrev is_list : Variable → Bool
is_list (string_var s) = false
is_list (list_var ss) = true

abbrev is_none : {A : Type 0} → List A → Bool
is_none [] = true
is_none (x ∷ xs) = false

-- The loop of `Parse` over the positional arguments that looks for mistakes of the program's own.
unfoldable pub validate_args : Bool → List PositionalArg → Outcome (Unit {0})
validate_args must_be_optional [] = ok tt
validate_args must_be_optional (a ∷ rest) =
    let later = validate_args (must_be_optional || not a.required) rest in
    if (must_be_optional || not a.required) && a.required
    then halt (panic (codes "cannot have required args after optional args"))
    else if not (is_none rest) && is_list a.value
    then halt (panic (codes "only the last positional arg can be a list type"))
    else later

-- `NArg`, `Arg` and `Args` for the arguments behind the flags and an offset into them.
unfoldable pub n_arg : List Text → ℕ → ℕ
n_arg args offset = if leb (length args) offset then 0 else length args - offset

abbrev pub arg : List Text → ℕ → ℕ → Text
arg args offset index = arg_at args (index + offset)

unfoldable pub args_from : List Text → ℕ → Outcome (List Text)
args_from args offset =
    if leb offset (length args)
    then ok (drop offset args)
    else halt (panic (codes "slice bounds out of range"))

-- The loop's results: the arguments with their values, and the offset.
abbrev pub Bound : Type 0
Bound = List PositionalArg × ℕ

abbrev pub bound_first : PositionalArg → Outcome Bound → Outcome Bound
bound_first a (ok (rest, offset)) = ok (a ∷ rest, offset)
bound_first a (err e) = err e
bound_first a (halt h) = halt h

abbrev pub bound_list : PositionalArg → List PositionalArg → ℕ → Outcome (List Text) → Outcome Bound
bound_list a rest offset (ok ss) = ok (record a { value = list_var ss } ∷ rest, offset)
bound_list a rest offset (err e) = err e
bound_list a rest offset (halt h) = halt h

-- One round of the loop for an argument that has a value; `later` is the rest of the loop.
abbrev pub bind_value :
    PositionalArg → List PositionalArg → List Text → ℕ → Outcome Bound → Variable → Outcome Bound
bind_value a rest args offset later (string_var old) =
    bound_first (record a { value = string_var (arg args offset 0) }) later
bind_value a rest args offset later (list_var old) =
    bound_list a rest (offset + n_arg args offset) (args_from args offset)

-- The loop of `Parse` that gives the positional arguments their values.
unfoldable pub bind_args : List Text → List PositionalArg → ℕ → Outcome Bound
bind_args args [] offset = ok ([], offset)
bind_args args (a ∷ rest) offset =
    let later = bind_args args rest (suc offset) in
    if leb (n_arg args offset) 0
    then (if a.required then halt (exit usage_exit_code) else ok (a ∷ rest, offset))
    else bind_value a rest args offset later a.value

module _ {W : Type 0} where
  unfoldable pub add_subcommand : Subcommand W → ArgParser W → ArgParser W
  add_subcommand s p = record p { subcommands = insert s.name s p.subcommands }

  abbrev pub add_subcommands : List (Subcommand W) → ArgParser W → ArgParser W
  add_subcommands [] p = p
  add_subcommands (s ∷ more) p = add_subcommands more (add_subcommand s p)

  -- `PositionalString` and `PositionalList`
  unfoldable pub positional_string : Text → Bool → ArgParser W → ArgParser W
  positional_string name required p = record p {
    positional_args =
        p.positional_args
        ++ (record { name = name; required = required; value = string_var [] } ∷ []);
  }

  unfoldable pub positional_list : Text → Bool → ArgParser W → ArgParser W
  positional_list name required p = record p {
    positional_args =
        p.positional_args
        ++ (record { name = name; required = required; value = list_var [] } ∷ []);
  }

  -- `Var` of the embedded flag set
  abbrev pub add_flag : Text → FlagValue → ArgParser W → ArgParser W
  add_flag name value p = record p { flags = define name value p.flags }

  abbrev pub selected : ArgParser W → Option (Subcommand W) → Outcome (ArgParser W)
  selected p none = halt (exit usage_exit_code)
  selected p (some s) =
      ok (record p { parsed = true; selected_subcommand = some s; arg_offset = suc p.arg_offset })

  unfoldable pub parse_subcommand : ArgParser W → Outcome (ArgParser W)
  parse_subcommand p =
      if is_none p.flags.args
      then halt (exit usage_exit_code)
      else selected p (lookup (arg_at p.flags.args 0) p.subcommands)

  -- All arguments should be accounted for.
  abbrev pub accounted : ArgParser W → Outcome Bound → Outcome (ArgParser W)
  accounted p (ok (bound, offset)) =
      if not (leb (n_arg p.flags.args offset) 0)
      then halt (exit usage_exit_code)
      else ok (record p { parsed = true; positional_args = bound; arg_offset = offset })
  accounted p (err e) = err e
  accounted p (halt h) = halt h

  unfoldable pub parse_positional : ArgParser W → Outcome (ArgParser W)
  parse_positional p = accounted p (bind_args p.flags.args p.positional_args p.arg_offset)

  -- `Parse` behind the flags
  abbrev pub parse_behind : ArgParser W → Reply FlagSet → Outcome (ArgParser W)
  parse_behind p (failed e) = halt (exit usage_exit_code)
  parse_behind p (done flags) =
      if not (is_none p.subcommands)
      then parse_subcommand (record p { flags = flags })
      else parse_positional (record p { flags = flags })

  abbrev pub parse_valid : ArgParser W → List Text → Outcome (Unit {0}) → Outcome (ArgParser W)
  parse_valid p args (ok u) = parse_behind p (parse_flags p.flags args)
  parse_valid p args (err e) = err e
  parse_valid p args (halt h) = halt h

  unfoldable pub parse : ArgParser W → List Text → Outcome (ArgParser W)
  parse p args =
      if p.parsed
      then ok p
      else if not (is_none p.subcommands) && not (is_none p.positional_args)
      then halt (panic (codes "cannot mix subcommands and positional args"))
      else parse_valid p args (validate_args false p.positional_args)

  abbrev run_with : Subcommand W → Outcome (List Text) → M W (Unit {0})
  run_with s (ok args) = s.run args
  run_with s (err e) = throw e
  run_with s (halt h) = stop h

  abbrev pub invoke : ArgParser W → Option (Subcommand W) → M W (Unit {0})
  invoke p none = stop (panic (codes "subcommand has not been parsed"))
  invoke p (some s) = run_with s (args_from p.flags.args p.arg_offset)

  unfoldable pub invoke_subcommand : ArgParser W → M W (Unit {0})
  invoke_subcommand p =
      if not p.parsed
      then stop (panic (codes "subcommand has not been parsed"))
      else invoke p p.selected_subcommand
