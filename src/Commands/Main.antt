-- ===== src/Commands/Main.antt =====
-- cmd/git-bundle-server: `main`, and each command from its arguments on. The order of the list of
-- repositories and what is printed are left out, but for what `list` and `version` print.
use git_bundle_server.Argparse.{
  ArgParser, Subcommand, PositionalArg, Variable, string_var, list_var, new_arg_parser, add_flag,
  add_subcommands, positional_string, parse, invoke_subcommand,
}
use git_bundle_server.Base.{
  ℕ, Text, codes, Bool, true, false, List, [], ◌∷◌, ◌++◌, Option, if◌then◌else◌, ◌==◌, text_Eq,
  Outcome, ok, err, halt, exit, panic, M, return, ◌>>=◌, ◌>>◌,
}
use git_bundle_server.Bundles.ListFile.{Json}
use git_bundle_server.Commands.{
  delete_run, init_run, update_run, start_run, stop_run, update_all_run, repair_routes,
}
use git_bundle_server.Core.Repo.{Repos, get_repositories}
use git_bundle_server.Daemon.{DaemonProvider}
use git_bundle_server.Daemon.Start.{web_server_run}
use git_bundle_server.Flags.{boolean}
use git_bundle_server.Flags.WebServer.{as_bool, get_flag_value}
use git_bundle_server.Git.{get_remote_url}
use git_bundle_server.Go.Strings.{is_empty}
use git_bundle_server.Machine.{Machine, Reply}

-- What the variable of a positional argument of the name holds
abbrev string_of : Variable → Text
string_of (string_var s) = s
string_of (list_var ss) = []

unfoldable pub positional_value : List PositionalArg → Text → Text
positional_value [] name = []
positional_value (a ∷ more) name =
    if a.name == name then string_of a.value else positional_value more name

-- The text that `version` prints
unfoldable pub version_text : Text → Text
version_text version =
    codes "git-bundle-server version "
    ++ (if is_empty version then codes "<no version>" else version)

-- `main` around a run: an error is fatal and ends the process with status 1, as a panic does.
abbrev pub exit_status : {A : Type 0} → Outcome A → ℕ
exit_status (ok a) = 0
exit_status (err e) = 1
exit_status (halt (panic p)) = 1
exit_status (halt (exit n)) = n

module _ (m : Machine) where
  open m use {World}

  abbrev pub parsed : ArgParser World → List Text → M World (ArgParser World)
  parsed p args w = (parse p args, w)

  -- `parser.PositionalString("route", ..., true)`, which `delete`, `update`, `start` and `stop`
  -- have
  unfoldable pub with_route : (Text → M World (Unit {0})) → List Text → M World (Unit {0})
  with_route run args = do
    p ← parsed (positional_string (codes "route") true new_arg_parser) args
    run (positional_value p.positional_args (codes "route"))

  unfoldable pub init_command : (Text → Text → Option Text) → Json → List Text → M World (Unit {0})
  init_command find j args = do
    p ←
        parsed
          (positional_string (codes "route") false
            (positional_string (codes "url") true new_arg_parser))
          args
    init_run m find j (positional_value p.positional_args (codes "url"))
        (positional_value p.positional_args (codes "route"))

  unfoldable pub update_all_command : List Text → M World (Unit {0})
  update_all_command args = do parsed new_arg_parser args; update_all_run m args

  -- `repair routes`
  unfoldable pub repair_routes_command : List Text → M World (Unit {0})
  repair_routes_command args = do
    p ←
        parsed
          (add_flag (codes "dry-run") (boolean false)
            (add_flag (codes "start-all") (boolean false) new_arg_parser))
          args
    enable ← λ w. (get_flag_value as_bool p.flags (codes "start-all"), w)
    dry_run ← λ w. (get_flag_value as_bool p.flags (codes "dry-run"), w)
    repair_routes m enable dry_run

  unfoldable pub repair_run : List Text → M World (Unit {0})
  repair_run args = do
    p ←
        parsed
          (add_subcommands (record { name = codes "routes"; run = repair_routes_command } ∷ [])
            new_arg_parser)
          args
    invoke_subcommand p

  -- The loop of `listCmd.Run`: the lines that are printed, if there is no error
  unfoldable pub list_lines : Bool → Repos → M World (List Text)
  list_lines name_only [] = return []
  list_lines true ((route, r) ∷ repos) = do rest ← list_lines true repos; return (r.route ∷ rest)
  list_lines false ((route, r) ∷ repos) = do
    remote ← get_remote_url m r.repo_dir
    rest ← list_lines false repos
    return ((r.route ++ codes " \t" ++ remote) ∷ rest)

  unfoldable pub list_run : List Text → M World (List Text)
  list_run args = do
    p ← parsed (add_flag (codes "name-only") (boolean false) new_arg_parser) args
    name_only ← λ w. (get_flag_value as_bool p.flags (codes "name-only"), w)
    repos ← get_repositories m
    list_lines name_only repos

  unfoldable pub version_run : Text → List Text → M World Text
  version_run version args = do parsed new_arg_parser args; return (version_text version)

  module _ (find : Text → Text → Option Text) (j : Json) (getwd : Reply Text)
      (d : DaemonProvider m.World) (version : Text) where
    -- `all`
    abbrev pub all_commands : List (Subcommand World)
    all_commands =
        record { name = codes "delete"; run = with_route (delete_run m) }
        ∷ record { name = codes "init"; run = init_command find j }
        ∷ record { name = codes "repair"; run = repair_run }
        ∷ record { name = codes "start"; run = with_route (start_run m) }
        ∷ record { name = codes "stop"; run = with_route (stop_run m) }
        ∷ record { name = codes "update"; run = with_route (update_run m j) }
        ∷ record { name = codes "update-all"; run = update_all_command }
        ∷ record { name = codes "list"; run = λ args. (do list_run args; return tt) }
        ∷ record { name = codes "version"; run = λ args. (do version_run version args; return tt) }
        ∷ record { name = codes "web-server"; run = web_server_run m getwd d }
        ∷ []

    abbrev pub main_parser : ArgParser World
    main_parser = add_subcommands all_commands (record new_arg_parser { is_top_level = true })

    -- `main`, up to the exit status
    unfoldable pub main_run : List Text → World → ℕ × World
    main_run args w =
        let (o, after) = (do p ← parsed main_parser args; invoke_subcommand p) w in
        (exit_status o, after)
