-- ===== src/Tests/Programs.antt =====
-- Command lines, the container and the trace at concrete inputs.
use git_bundle_server.Argparse.{
  ArgParser, Subcommand, new_arg_parser, positional_string, positional_list, parse, validate_args,
}
use git_bundle_server.Argparse.Dispatch.{run_flagged, dispatch, dispatch-eq-run_flagged}
use git_bundle_server.Argparse.Positional.{match_args, settle, parse-match_args}
use git_bundle_server.Base.{
  ℕ, Text, codes, text_eq, text_Eq, true, false, List, [], ◌∷◌, Option, none, some, length, pos,
  int_Eq, ok, M, ◌≡◌, refl, arith,
}
use git_bundle_server.Base.Assoc.{has, lookup, insert, Distinct}
use git_bundle_server.Commands.Cli.{run_parsed, with_route-eq-run_parsed}
use git_bundle_server.Commands.Table.{Ends, Runs, runs_named, names_start, main_run-Ends}
use git_bundle_server.Commands.{start_run}
use git_bundle_server.Commands.Main.{with_route, main_run}
use git_bundle_server.Container.{
  Container, resolved, get_dependency, build_git_bundle_server_container, register_all_of,
  register_dependency, remove_name, cron_helper, file_system, repository_provider, bundle_provider,
  cron_scheduler, git_helper, daemon_provider,
}
use git_bundle_server.Container.Program
use git_bundle_server.Container.Program.{get_dependency-built}
use git_bundle_server.Container.Singletons.{get_dependency-resolved}
use git_bundle_server.Daemon.{DaemonProvider}
use git_bundle_server.Flags.{FlagSet, no_flags, parse_flags, parse_from, token}
use git_bundle_server.Log.{
  Context, Trace, MainEnd, cmd_name, log_event, new_trace2, exit_process, with_trace_logger,
}
use git_bundle_server.Log.Frames.{Framed, Logged, log_exit-events, with_trace_logger-Framed}
use git_bundle_server.Log.Children.{
  Call, starts, exits, enters, leaves, begins_child, readies_child, ends_child, reports, started,
  down, run_calls, run_calls-started,
}
use git_bundle_server.Log.Regions.{
  Regions, no_more, inside_of, run_regions, spell, run_regions-spell,
}
use git_bundle_server.Machine.{done, or_empty}
use git_bundle_server.Machine.Memory.{Memory, memory}
use git_bundle_server.Tests.Inputs.{empty_disk, coder}

abbrev two_positional : ArgParser ℕ
two_positional =
    positional_list (codes "rest") false (positional_string (codes "url") true new_arg_parser)

abbrev three_texts : List Text
three_texts = codes "a" ∷ codes "b" ∷ codes "c" ∷ []

abbrev behind_flags : List Text → FlagSet
behind_flags args = record no_flags { args = args }

parse-match_args_example :
    parse two_positional three_texts
    ≡ settle
        (record two_positional { flags = behind_flags three_texts })
        (match_args two_positional.positional_args three_texts)
unfolding positional_string positional_list validate_args parse_from token
parse-match_args_example =
    parse-match_args two_positional three_texts (behind_flags three_texts) refl refl refl refl refl

abbrev counting : Subcommand ℕ
counting = record { name = codes "count"; run = λ args w. (ok tt, length args) }

abbrev one_command : ArgParser ℕ
one_command = record new_arg_parser { subcommands = (codes "count", counting) ∷ [] }

dispatch-eq-run_flagged_example :
    dispatch one_command (codes "count" ∷ three_texts) 7
    ≡ run_flagged one_command.subcommands (parse_flags no_flags (codes "count" ∷ three_texts)) 7
dispatch-eq-run_flagged_example =
    dispatch-eq-run_flagged one_command (codes "count") counting [] (codes "count" ∷ three_texts) 7
      refl refl refl refl

abbrev quiet : Text → M Memory (Unit {0})
quiet route w = (ok tt, w)

with_route-eq-run_parsed_example :
    with_route memory quiet (codes "a/b" ∷ []) empty_disk
    ≡ run_parsed memory quiet (parse_flags no_flags (codes "a/b" ∷ [])) empty_disk
with_route-eq-run_parsed_example =
    with_route-eq-run_parsed memory quiet (codes "a/b" ∷ []) empty_disk

abbrev ranks : List (Text × ℕ)
ranks =
    (repository_provider, 2)
    ∷ (bundle_provider, 2)
    ∷ (cron_scheduler, 1)
    ∷ (cron_helper, 2)
    ∷ (git_helper, 1)
    ∷ (daemon_provider, 1)
    ∷ []

abbrev rank_of : Text → ℕ
rank_of t = elim (lookup t ranks) [ none ↦ 0 | some n ↦ n ]

abbrev built : Container
built = record build_git_bundle_server_container { created = file_system ∷ [] }

get_dependency-resolved_example :
    (d : Container) × (get_dependency 3 cron_helper built ≡ resolved d)
    × (has d.created cron_helper ≡ true)
    × ((s : Text) → has built.created s ≡ true → has d.created s ≡ true)
    × Distinct d.created
    × (d.initializers ≡ built.initializers)
unfolding lookup text_eq build_git_bundle_server_container register_all_of register_dependency
    remove_name insert
get_dependency-resolved_example =
    get_dependency-resolved rank_of built cron_helper 3 (ground arith) (refl, tt) refl (omega arith)

abbrev counted_ids : ℕ → Text
counted_ids n = n ∷ []

-- A main function that names its command and ends the process with status 3.
abbrev named_exit : Context → Trace → MainEnd × Trace
named_exit ctx t =
    exit_process counted_ids ctx 3 (log_event (or_empty ctx.sid) (cmd_name (codes "list")) t)

named_exit-Logged :
    (ctx : Context) (sid : Text) (u : Trace)
    → ctx.sid ≡ some sid
    → Logged sid u.events (named_exit ctx u)
named_exit-Logged ctx sid u h = (
  (or_empty ctx.sid, cmd_name (codes "list")) ∷ [],
  log_exit-events counted_ids ctx sid 3 (log_event (or_empty ctx.sid) (cmd_name (codes "list")) u)
      h,
)

with_trace_logger-Framed_example :
    Framed counted_ids
      (counted_ids 0)
      three_texts
      []
      (with_trace_logger counted_ids three_texts named_exit new_trace2)
with_trace_logger-Framed_example =
    with_trace_logger-Framed counted_ids three_texts named_exit new_trace2 named_exit-Logged

abbrev in_session : Context
in_session = record { sid = some (codes "s"); parent_region = none }

-- Two children within a region, and an error between them
abbrev two_children : List Call
two_children =
    starts three_texts in_session
    ∷ enters in_session (codes "bundles") (codes "collapse_list")
    ∷ begins_child in_session three_texts
    ∷ readies_child (codes "s") (pos 0) 42 three_texts
    ∷ ends_child (codes "s") (pos 0) 42 (pos 1)
    ∷ reports in_session (codes "%s") (codes "failed") []
    ∷ begins_child in_session []
    ∷ leaves (codes "s") 0 (codes "bundles") (codes "collapse_list")
    ∷ exits in_session 0
    ∷ []

run_calls-started_example :
    (started (run_calls counted_ids two_children new_trace2).events ≡ down 2)
    × Distinct (started (run_calls counted_ids two_children new_trace2).events)
run_calls-started_example = run_calls-started counted_ids two_children (omega arith)

abbrev collapse_region : Regions
collapse_region =
    inside_of (codes "bundles") (codes "collapse_list")
      (inside_of (codes "repo") (codes "get_repos") no_more no_more) no_more

run_regions-spell_example :
    (run_regions counted_ids in_session collapse_region new_trace2).events
    ≡ spell (codes "s") 0 collapse_region []
run_regions-spell_example =
    run_regions-spell counted_ids collapse_region in_session (codes "s") new_trace2 refl

abbrev no_service : DaemonProvider Memory
no_service = record {
  create = λ config force w. (ok tt, w);
  start = λ label w. (ok tt, w);
  stop_service = λ label w. (ok tt, w);
  remove_service = λ label w. (ok tt, w);
}

abbrev no_match : Text → Text → Option Text
no_match re url = none

-- `start` without a route: status 2, and nothing is done.
start_line :
    Runs memory no_match coder
      (done (codes "/"))
      no_service
      []
      (codes "start" ∷ [])
      (run_parsed memory (start_run memory) (parse_flags no_flags []))
unfolding parse_from token
start_line =
    runs_named (codes "start" ∷ []) (behind_flags (codes "start" ∷ [])) _ refl (names_start [])

main_run-Ends_example :
    Ends
      (run_parsed memory (start_run memory) (parse_flags no_flags []) empty_disk).0
      (main_run memory no_match coder
        (done (codes "/"))
        no_service
        []
        (codes "start" ∷ [])
        empty_disk).0
    × ((main_run memory no_match coder
          (done (codes "/"))
          no_service
          []
          (codes "start" ∷ [])
          empty_disk).1
        ≡ (run_parsed memory (start_run memory) (parse_flags no_flags []) empty_disk).1)
main_run-Ends_example =
    main_run-Ends memory no_match coder (done (codes "/")) no_service [] (codes "start" ∷ [])
      (run_parsed memory (start_run memory) (parse_flags no_flags [])) empty_disk start_line

get_dependency-built_example :
    (d : Container) × (get_dependency 3 cron_helper (Program.built (file_system ∷ [])) ≡ resolved d)
    × (has d.created cron_helper ≡ true)
    × Distinct d.created
unfolding lookup text_eq build_git_bundle_server_container register_all_of register_dependency
    remove_name insert
get_dependency-built_example = get_dependency-built (file_system ∷ []) cron_helper (refl, tt) refl
