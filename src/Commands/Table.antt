-- ===== src/Commands/Table.antt =====
-- The table of the commands of cmd/git-bundle-server, and the status that each of them ends with.
use git_bundle_server.Argparse.Dispatch.{run_named, run_flagged}
use git_bundle_server.Base.{
  ℕ, Text, codes, true, false, List, [], ◌∷◌, Option, none, text_Eq, text_eq, exit, panic, M, stop,
  return, ◌>>◌, Error, Outcome, ok, err, halt, ◌≡◌, refl, ap, sym, subst, ◌∙◌, arith,
}
use git_bundle_server.Base.Assoc.{has, lookup, insert, lookup-insert}
use git_bundle_server.Bundles.ListFile.{Json}
use git_bundle_server.Argparse.{
  ArgParser, Subcommand, new_arg_parser, add_subcommand, add_subcommands,
}
use git_bundle_server.Commands.{delete_run, update_run, start_run, stop_run}
use git_bundle_server.Commands.Cli.{run_parsed, with_route-eq-run_parsed, main_run-eq-run_flagged}
use git_bundle_server.Commands.Main.{
  exit_status, init_command, repair_run, update_all_command, list_run, version_run, all_commands,
  main_parser, main_run,
}
use git_bundle_server.Daemon.{DaemonProvider}
use git_bundle_server.Daemon.Start.{web_server_run}
use git_bundle_server.Flags.{FlagSet, no_flags, parse_flags}
use git_bundle_server.Machine.{Machine, Reply, done, failed}

-- The status of a process, by how its run ended
pub data Ends : Outcome (Unit {0}) → ℕ → Type 0 where
  without_error : Ends (ok tt) 0
  with_error : (e : Error) → Ends (err e) 1
  with_panic : (p : Text) → Ends (halt (panic p)) 1
  with_status : (n : ℕ) → Ends (halt (exit n)) n

abbrev pub command_names : List Text
command_names =
    codes "delete"
    ∷ codes "init"
    ∷ codes "repair"
    ∷ codes "start"
    ∷ codes "stop"
    ∷ codes "update"
    ∷ codes "update-all"
    ∷ codes "list"
    ∷ codes "version"
    ∷ codes "web-server"
    ∷ []

abbrev names_of : {W : Type 0} → List (Subcommand W) → List Text
names_of [] = []
names_of (s ∷ more) = s.name ∷ names_of more

lookup-add_subcommands :
    {W : Type 0} (ss : List (Subcommand W)) (p : ArgParser W) (name : Text)
    → has (names_of ss) name ≡ false
    → lookup name (add_subcommands ss p).subcommands ≡ lookup name p.subcommands
unfolding add_subcommand
lookup-add_subcommands [] p name h = refl
lookup-add_subcommands (s ∷ more) p name h =
    lookup-add_subcommands more (add_subcommand s p) name (ground arith)
    ∙ lookup-insert s.name name s p.subcommands
    ∙ ground arith

Ends-exit_status : (o : Outcome (Unit {0})) → Ends o (exit_status o)
Ends-exit_status (ok u) = without_error
Ends-exit_status (err e) = with_error e
Ends-exit_status (halt (panic p)) = with_panic p
Ends-exit_status (halt (exit n)) = with_status n

module _ (m : Machine) (find : Text → Text → Option Text) (j : Json) (getwd : Reply Text)
    (d : DaemonProvider m.World) (version : Text) where
  -- What the arguments behind the program's own flags ask for
  pub data Names : List Text → M m.World (Unit {0}) → Type 0 where
    names_nothing : Names [] (stop (exit 2))
    names_unknown :
        (name : Text) (rest : List Text)
        → has command_names name ≡ false
        → Names (name ∷ rest) (stop (exit 2))
    names_delete :
        (rest : List Text)
        → Names (codes "delete" ∷ rest) (run_parsed m (delete_run m) (parse_flags no_flags rest))
    names_start :
        (rest : List Text)
        → Names (codes "start" ∷ rest) (run_parsed m (start_run m) (parse_flags no_flags rest))
    names_stop :
        (rest : List Text)
        → Names (codes "stop" ∷ rest) (run_parsed m (stop_run m) (parse_flags no_flags rest))
    names_update :
        (rest : List Text)
        → Names (codes "update" ∷ rest) (run_parsed m (update_run m j) (parse_flags no_flags rest))
    names_init : (rest : List Text) → Names (codes "init" ∷ rest) (init_command m find j rest)
    names_repair : (rest : List Text) → Names (codes "repair" ∷ rest) (repair_run m rest)
    names_update_all :
        (rest : List Text) → Names (codes "update-all" ∷ rest) (update_all_command m rest)
    names_list : (rest : List Text) → Names (codes "list" ∷ rest) (list_run m rest >> return tt)
    names_version :
        (rest : List Text)
        → Names (codes "version" ∷ rest) (version_run m version rest >> return tt)
    names_web_server :
        (rest : List Text) → Names (codes "web-server" ∷ rest) (web_server_run m getwd d rest)

  -- What a command line asks for: the program has no flags of its own.
  pub data Runs : List Text → M m.World (Unit {0}) → Type 0 where
    runs_misused :
        (args : List Text) (e : Error)
        → parse_flags no_flags args ≡ failed e
        → Runs args (stop (exit 2))
    runs_named :
        (args : List Text) (fs : FlagSet) (act : M m.World (Unit {0}))
        → parse_flags no_flags args ≡ done fs
        → Names fs.args act
        → Runs args act

  lookup-unknown :
      (name : Text)
      → has command_names name ≡ false
      → lookup name (main_parser m find j getwd d version).subcommands ≡ none
  unfolding lookup
  lookup-unknown name h =
      lookup-add_subcommands (all_commands m find j getwd d version)
        (record new_arg_parser { is_top_level = true }) name h

  run_named-Names :
      (args : List Text) (act : M m.World (Unit {0})) (w : m.World)
      → Names args act
      → run_named (main_parser m find j getwd d version).subcommands args w ≡ act w
  unfolding add_subcommand insert lookup text_eq
  run_named-Names _ _ w names_nothing = refl
  run_named-Names _ _ w (names_unknown name rest h) = rw (lookup-unknown name h) refl
  run_named-Names _ _ w (names_delete rest) = with_route-eq-run_parsed m (delete_run m) rest w
  run_named-Names _ _ w (names_start rest) = with_route-eq-run_parsed m (start_run m) rest w
  run_named-Names _ _ w (names_stop rest) = with_route-eq-run_parsed m (stop_run m) rest w
  run_named-Names _ _ w (names_update rest) = with_route-eq-run_parsed m (update_run m j) rest w
  run_named-Names _ _ w (names_init rest) = refl
  run_named-Names _ _ w (names_repair rest) = refl
  run_named-Names _ _ w (names_update_all rest) = refl
  run_named-Names _ _ w (names_list rest) = refl
  run_named-Names _ _ w (names_version rest) = refl
  run_named-Names _ _ w (names_web_server rest) = refl

  run_flagged-Runs :
      (args : List Text) (act : M m.World (Unit {0})) (w : m.World)
      → Runs args act
      → run_flagged (main_parser m find j getwd d version).subcommands (parse_flags no_flags args) w
        ≡ act w
  run_flagged-Runs _ _ w (runs_misused args e h) = ground (arith, h)
  run_flagged-Runs _ _ w (runs_named args fs act h named) =
      ap (λ r. run_flagged (main_parser m find j getwd d version).subcommands r w) h
      ∙ run_named-Names fs.args act w named

  -- Where the table gives a command line something to run, the program runs that and nothing else,
  -- and ends with status 0 if it gives no error, with 1 if it gives an error or panics, and with
  -- its own status if it ends the process. The table has each of the ten commands, with the
  -- arguments behind its name (for `delete`, `start`, `stop` and `update` the one route behind the
  -- flags, or status 2), and status 2 with nothing done for flags that cannot be parsed, no
  -- command, and a name that is none of the ten.
  pub main_run-Ends :
      (args : List Text) (act : M m.World (Unit {0})) (w : m.World)
      → Runs args act
      → Ends (act w).0 (main_run m find j getwd d version args w).0
        × ((main_run m find j getwd d version args w).1 ≡ (act w).1)
  main_run-Ends args act w runs =
      let same = main_run-eq-run_flagged m find j getwd d version args w in
      let ran = run_flagged-Runs args act w runs in
      (
        subst (Ends (act w).0) (sym (ap (λ r. r.0) same ∙ ap (λ r. exit_status r.0) ran))
            (Ends-exit_status (act w).0),
        ap (λ r. r.1) same ∙ ap (λ r. r.1) ran,
      )
