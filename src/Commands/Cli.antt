-- ===== src/Commands/Cli.antt =====
-- What a command line of git-bundle-server runs.
use git_bundle_server.Argparse.{
  ArgParser, usage_exit_code, new_arg_parser, positional_string, parse, add_subcommand,
  validate_args,
}
use git_bundle_server.Argparse.Dispatch.{run_flagged, dispatch, dispatch-eq-run_flagged}
use git_bundle_server.Argparse.Positional.{match_args, settle, parse-match_args}
use git_bundle_server.Base.{
  Text, codes, true, List, [], ◌∷◌, Option, text_eq, text_Eq, exit, M, stop, bind_from, Outcome,
  ◌≡◌, refl, ap, sym, ◌∙◌, arith,
}
use git_bundle_server.Base.Assoc.{insert}
use git_bundle_server.Bundles.ListFile.{Json}
use git_bundle_server.Commands.Main.{
  positional_value, exit_status, with_route, main_parser, main_run,
}
use git_bundle_server.Daemon.{DaemonProvider}
use git_bundle_server.Flags.{FlagSet, no_flags, parse_flags}
use git_bundle_server.Machine.{Machine, Reply, done, failed}

module _ (m : Machine) where
  open m use {World}

  -- Exactly one argument, the route
  abbrev pub run_single : (Text → M World (Unit {0})) → List Text → M World (Unit {0})
  run_single run [] = stop (exit usage_exit_code)
  run_single run (route ∷ []) = run route
  run_single run (route ∷ more ∷ rest) = stop (exit usage_exit_code)

  abbrev pub run_parsed : (Text → M World (Unit {0})) → Reply FlagSet → M World (Unit {0})
  run_parsed run (done fs) = run_single run fs.args
  run_parsed run (failed e) = stop (exit usage_exit_code)

  abbrev route_parser : ArgParser World
  route_parser = positional_string (codes "route") true new_arg_parser

  parsed_route :
      (args : List Text) (fs : FlagSet)
      → parse_flags no_flags args ≡ done fs
      → parse route_parser args
        ≡ settle
            (record route_parser { flags = fs })
            (match_args route_parser.positional_args fs.args)
  unfolding positional_string validate_args
  parsed_route args fs h = parse-match_args route_parser args fs refl refl refl refl h

  abbrev then_run : (Text → M World (Unit {0})) → Outcome (ArgParser World) → M World (Unit {0})
  then_run run o w = bind_from o w (λ p. run (positional_value p.positional_args (codes "route")))

  settled_run :
      (run : Text → M World (Unit {0})) (fs : FlagSet) (args : List Text) (w : World)
      → then_run run
          (settle
            (record route_parser { flags = fs })
            (match_args route_parser.positional_args args))
          w
        ≡ run_single run args w
  unfolding positional_string positional_value match_args text_eq
  settled_run run fs [] w = refl
  settled_run run fs (route ∷ []) w = refl
  settled_run run fs (route ∷ more ∷ rest) w = refl

  -- A command with a route, which `delete`, `update`, `start` and `stop` are, runs for the route
  -- that is the one argument behind the flags, and ends the process with status 2 if the flags
  -- cannot be parsed or there is no argument or more than one.
  pub with_route-eq-run_parsed :
      (run : Text → M World (Unit {0})) (args : List Text) (w : World)
      → with_route m run args w ≡ run_parsed run (parse_flags no_flags args) w
  unfolding with_route positional_string parse validate_args
  with_route-eq-run_parsed run args w = split (parse_flags no_flags args) refl
    where
      split :
          (r : Reply FlagSet)
          → parse_flags no_flags args ≡ r
          → with_route m run args w ≡ run_parsed run (parse_flags no_flags args) w
      split (failed e) h = ground (arith, h)
      split (done fs) h =
          ap (λ o. then_run run o w) (parsed_route args fs h)
          ∙ settled_run run fs fs.args w
          ∙ ap (λ r. run_parsed run r w) (sym h)

  module _ (find : Text → Text → Option Text) (j : Json) (getwd : Reply Text)
      (d : DaemonProvider m.World) (version : Text) where
    -- The program runs what its subcommands give the arguments behind its flags, and makes the status
    -- of how that ends.
    pub main_run-eq-run_flagged :
        (args : List Text) (w : World)
        → main_run m find j getwd d version args w ≡ (
          exit_status
              (run_flagged
                (main_parser m find j getwd d version).subcommands
                (parse_flags no_flags args)
                w).0,
          (run_flagged
              (main_parser m find j getwd d version).subcommands
              (parse_flags no_flags args)
              w).1,
        )
    unfolding main_run dispatch add_subcommand insert text_eq
    main_run-eq-run_flagged args w =
        ap (λ r. (exit_status r.0, r.1))
          (dispatch-eq-run_flagged (main_parser m find j getwd d version) _ _ _ args w refl refl
            refl refl)
