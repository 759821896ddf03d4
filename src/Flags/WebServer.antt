-- ===== src/Flags/WebServer.antt =====
-- cmd/utils/common-args.go: the flags of the web server, which `git-bundle-server web-server start`
-- takes too, and their validation.
use git_bundle_server.Base.{
  ℕ, Text, codes, Bool, true, false, not, List, [], ◌∷◌, ◌++◌, Option, none, some, if◌then◌else◌,
  leb, ℤ, pos, negsuc, Outcome, ok, halt, panic, exit, text_Eq,
}
use git_bundle_server.Flags.{
  FlagSet, FlagValue, boolean, string, tls_version, tls_versions, tls_name, define, flag_value,
}
use git_bundle_server.Argparse.{usage_exit_code}
use git_bundle_server.Go.Decimal.{parse_int}
use git_bundle_server.Go.Strings.{is_empty}

-- The types that `Get` of a flag is cast to.
abbrev pub as_string : FlagValue → Option Text
as_string (string s) = some s
as_string (boolean b) = none
as_string (tls_version v) = none

abbrev pub as_uint16 : FlagValue → Option ℕ
as_uint16 (string s) = none
as_uint16 (boolean b) = none
as_uint16 (tls_version v) = some v

abbrev pub as_bool : FlagValue → Option Bool
as_bool (string s) = none
as_bool (boolean b) = some b
as_bool (tls_version v) = none

abbrev pub cast_value : {A : Type 0} → Text → Option A → Outcome A
cast_value name (some a) = ok a
cast_value name none = halt (panic (codes "flag '--" ++ name ++ codes "' is invalid"))

abbrev pub found_value : {A : Type 0} → (FlagValue → Option A) → Text → Option FlagValue → Outcome A
found_value cast name (some v) = cast_value name (cast v)
found_value cast name none = halt (panic (codes "flag '--" ++ name ++ codes "' is undefined"))

-- `GetFlagValue[T]`, with the cast to T
unfoldable pub get_flag_value : {A : Type 0} → (FlagValue → Option A) → FlagSet → Text → Outcome A
get_flag_value cast fs name = found_value cast name (flag_value fs name)

abbrev pub tls_text : Option Text → Outcome Text
tls_text (some name) = ok name
tls_text none = halt (panic (codes "invalid tlsVersionValue"))

-- `String` of a flag's value
unfoldable pub value_text : FlagValue → Outcome Text
value_text (string s) = ok s
value_text (boolean true) = ok (codes "true")
value_text (boolean false) = ok (codes "false")
value_text (tls_version v) = tls_text (tls_name tls_versions v)

-- The flags that `WebServerFlags` defines, with their defaults.
abbrev pub web_server_values : List (Text × FlagValue)
web_server_values =
    (codes "port", string (codes "8080"))
    ∷ (codes "cert", string [])
    ∷ (codes "key", string [])
    ∷ (codes "tls-version", tls_version 771)
    ∷ (codes "client-ca", string [])
    ∷ (codes "auth-config", string [])
    ∷ []

-- `parser.Var(f.Value, f.Name, f.Usage)` for each flag
unfoldable pub define_all : List (Text × FlagValue) → FlagSet → FlagSet
define_all [] fs = fs
define_all ((name, value) ∷ more) fs = define_all more (define name value fs)

abbrev pub in_port_range : Option ℤ → Bool
in_port_range none = false
in_port_range (some (pos n)) = leb n 65535
in_port_range (some (negsuc n)) = false

-- What a variable of type string holds
abbrev pub text_of : FlagSet → Text → Text
text_of fs name = elim (flag_value fs name) [ some (string s) ↦ s | _ ↦ [] ]

abbrev both_empty_or_not : Text → Text → Bool
both_empty_or_not cert key = if is_empty cert then is_empty key else not (is_empty key)

-- The function for validation; `Usage` ends the process.
unfoldable pub validate_values : Text → Text → Text → Outcome (Unit {0})
validate_values port cert key =
    if not (in_port_range (parse_int port))
    then halt (exit usage_exit_code)
    else if both_empty_or_not cert key
    then ok tt
    else halt (exit usage_exit_code)

abbrev pub validate : FlagSet → Outcome (Unit {0})
validate fs =
    validate_values (text_of fs (codes "port")) (text_of fs (codes "cert"))
      (text_of fs (codes "key"))
