-- ===== src/Daemon/Start.antt =====
-- cmd/git-bundle-server/web-server.go: the command `web-server` with its subcommands `start` and
-- `stop`, and NewDaemonProvider of internal/daemon/daemon.go.
use git_bundle_server.Argparse.{
  ArgParser, new_arg_parser, add_flag, add_subcommands, parse, invoke_subcommand,
}
use git_bundle_server.Base.{
  Text, codes, Bool, true, false, ◌&&◌, ◌||◌, List, [], ◌∷◌, ◌++◌, Option, none, some,
  if◌then◌else◌, ◌==◌, text_Eq, ltb, nat_eq, Error, message, wrap, Outcome, ok, err, halt, M, ◌>>=◌,
  ◌>>◌,
}
use git_bundle_server.Base.Assoc.{has, keys}
use git_bundle_server.Daemon.{DaemonProvider, get_daemon_config, stop_server}
use git_bundle_server.Flags.{FlagSet, FlagValue, boolean, define_alias, flag_value}
use git_bundle_server.Flags.WebServer.{
  as_bool, get_flag_value, value_text, web_server_values, define_all, validate,
}
use git_bundle_server.Go.Path.{clean, join, is_rooted}
use git_bundle_server.Machine.{Machine, Reply, done, failed}

-- `NewDaemonProvider`, for the name of the operating system and the two providers
unfoldable pub new_daemon_provider : {P : Type 0} → Text → P → P → Outcome P
new_daemon_provider os systemd launchd =
    if os == codes "linux"
    then ok systemd
    else if os == codes "darwin"
    then ok launchd
    else err (message (codes "cannot configure daemon handler for OS '" ++ os ++ codes "'"))

-- `filepath.Abs`, for what `os.Getwd` gives
unfoldable pub abs : Reply Text → Text → Reply Text
abs getwd path =
    if is_rooted path
    then done (clean path)
    else elim getwd [ done wd ↦ done (join (wd ∷ path ∷ [])) | failed e ↦ failed e ]

-- The order of strings, in which `Visit` goes through the flags
unfoldable pub text_lt : Text → Text → Bool
text_lt s [] = false
text_lt [] (d ∷ t) = true
text_lt (c ∷ s) (d ∷ t) = ltb c d || (nat_eq c d && text_lt s t)

unfoldable pub insert_name : Text → List Text → List Text
insert_name n [] = n ∷ []
insert_name n (k ∷ names) = if text_lt n k then n ∷ k ∷ names else k ∷ insert_name n names

unfoldable pub sort_names : List Text → List Text
sort_names [] = []
sort_names (n ∷ names) = insert_name n (sort_names names)

abbrev pub path_flags : List Text
path_flags = codes "cert" ∷ codes "key" ∷ codes "client-ca" ∷ codes "auth-config" ∷ []

-- What the flags that were gone through have left: the arguments, and the first error.
abbrev pub Passed : Type 0
Passed = List Text × Option Error

abbrev pub first_error : Text → Error → Option Error → Option Error
first_error name e (some old) = some old
first_error name e none =
    some (wrap (codes "could not get absolute path of '" ++ name ++ codes "': ") e)

-- `config.Arguments = append(...)` for a flag and the value to pass on
abbrev pub add_pair : Passed → Text → Reply Text → Passed
add_pair (args, e) name (done value) = (args ++ ((codes "--" ++ name) ∷ value ∷ []), e)
add_pair (args, e) name (failed new) = (args, first_error name new e)

abbrev pub passed_value : Reply Text → Text → Text → Reply Text
passed_value getwd name value = if has path_flags name then abs getwd value else done value

abbrev pub pass_value : Reply Text → Passed → Text → Outcome Text → Outcome Passed
pass_value getwd acc name (ok value) = ok (add_pair acc name (passed_value getwd name value))
pass_value getwd acc name (err e) = err e
pass_value getwd acc name (halt h) = halt h

abbrev pub value_of : Text → Option FlagValue → Outcome Text
value_of name (some v) = value_text v
value_of name none = ok []

-- The function given to `Visit`
unfoldable pub pass_flag : Reply Text → FlagSet → Passed → Text → Outcome Passed
pass_flag getwd fs acc name =
    if has (keys web_server_values) name
    then pass_value getwd acc name (value_of name (flag_value fs name))
    else ok acc

unfoldable pub pass_flags : Reply Text → FlagSet → List Text → Outcome Passed → Outcome Passed
pass_flags getwd fs [] acc = acc
pass_flags getwd fs (name ∷ names) (ok acc) =
    pass_flags getwd fs names (pass_flag getwd fs acc name)
pass_flags getwd fs (name ∷ names) (err e) = err e
pass_flags getwd fs (name ∷ names) (halt h) = halt h

-- `loopErr` decides.
abbrev pub without_error : Outcome Passed → Outcome (List Text)
without_error (ok (args, none)) = ok args
without_error (ok (args, some e)) = err e
without_error (err e) = err e
without_error (halt h) = halt h

-- The arguments for the service
unfoldable pub service_flags : Reply Text → FlagSet → Outcome (List Text)
service_flags getwd fs = without_error (pass_flags getwd fs (sort_names fs.actual) (ok ([], none)))

module _ (m : Machine) (getwd : Reply Text) (d : DaemonProvider m.World) where
  open m use {World}

  abbrev pub start_parser : ArgParser World
  start_parser =
      let p = add_flag (codes "force") (boolean false) new_arg_parser in
      record p {
        flags = define_all web_server_values (define_alias (codes "f") (codes "force") p.flags);
      }

  -- `startServer` behind its arguments
  unfoldable pub start_with : FlagSet → M World (Unit {0})
  start_with fs = do
    force ← λ w. (get_flag_value as_bool fs (codes "force"), w)
    config ← get_daemon_config m
    args ← λ w. (service_flags getwd fs, w)
    d.create (record config { arguments = args }) force
    d.start config.label

  unfoldable pub start_server : List Text → M World (Unit {0})
  start_server args = do
    p ← λ w. (parse start_parser args, w)
    λ w. (validate p.flags, w)
    start_with p.flags

  -- `stopServer`
  unfoldable pub stop_command : List Text → M World (Unit {0})
  stop_command args = do
    p ← λ w. (parse {W = World} (add_flag (codes "remove") (boolean false) new_arg_parser) args, w)
    remove ← λ w. (get_flag_value as_bool p.flags (codes "remove"), w)
    stop_server m d remove

  -- `webServerCmd.Run`
  unfoldable pub web_server_run : List Text → M World (Unit {0})
  web_server_run args = do
    p ← λ w. (
      parse
          (add_subcommands
            (record { name = codes "start"; run = start_server }
              ∷ record { name = codes "stop"; run = stop_command }
              ∷ [])
            new_arg_parser)
          args,
      w,
    )
    invoke_subcommand p
