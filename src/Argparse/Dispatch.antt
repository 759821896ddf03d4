-- ===== src/Argparse/Dispatch.antt =====
-- What argparse makes of a command line with subcommands, from the parse to the call.
use git_bundle_server.Argparse.{
  ArgParser, Subcommand, usage_exit_code, arg_at, args_from, validate_args, parse_subcommand, parse,
  invoke_subcommand,
}
use git_bundle_server.Base.{
  Text, text_Eq, false, List, [], ◌∷◌, Option, none, some, Outcome, exit, M, bind_from, ◌>>=◌, stop,
  ◌≡◌, refl, arith,
}
use git_bundle_server.Base.Assoc.{lookup}
use git_bundle_server.Flags.{FlagSet, parse_flags}
use git_bundle_server.Machine.{Reply, done, failed}

module _ {W : Type 0} where
  abbrev chosen : List Text → Option (Subcommand W) → M W (Unit {0})
  chosen rest none = stop (exit usage_exit_code)
  chosen rest (some s) = s.run rest

  -- The arguments behind the flags name a subcommand, which runs with the rest of them.
  abbrev pub run_named : List (Text × Subcommand W) → List Text → M W (Unit {0})
  run_named subcommands [] = stop (exit usage_exit_code)
  run_named subcommands (name ∷ rest) = chosen rest (lookup name subcommands)

  abbrev pub run_flagged : List (Text × Subcommand W) → Reply FlagSet → M W (Unit {0})
  run_flagged subcommands (failed e) = stop (exit usage_exit_code)
  run_flagged subcommands (done fs) = run_named subcommands fs.args

  -- `parser.Parse(ctx, args)` and `return parser.InvokeSubcommand(ctx)`
  unfoldable pub dispatch : ArgParser W → List Text → M W (Unit {0})
  dispatch p args = do q ← λ w. (parse p args, w); invoke_subcommand q

  abbrev after_parse : Outcome (ArgParser W) → M W (Unit {0})
  after_parse o w = bind_from o w (λ q. invoke_subcommand q)

  parse_subcommand-named :
      (p : ArgParser W) (w : W)
      → p.arg_offset ≡ 0
      → after_parse (parse_subcommand p) w ≡ run_named p.subcommands p.flags.args w
  unfolding parse_subcommand invoke_subcommand args_from arg_at
  parse_subcommand-named p w h =
      run (p.flags.args) refl (lookup (arg_at p.flags.args 0) p.subcommands) refl
    where
      run :
          (args : List Text)
          → p.flags.args ≡ args
          → (found : Option (Subcommand W)) → lookup (arg_at p.flags.args 0) p.subcommands ≡ found
          → after_parse (parse_subcommand p) w ≡ run_named p.subcommands p.flags.args w
      run [] e found f = ground (arith, e, f, h)
      run (s ∷ args) e none f = ground (arith, e, f, h)
      run (s ∷ args) e (some found) f = ground (arith, e, f, h)

  -- For a parser that has not parsed yet and has subcommands and no positional arguments: parsing a
  -- command line and invoking the subcommand ends the process with status 2 if the flags cannot be
  -- parsed or the first argument behind them is missing or names no subcommand, and otherwise is
  -- the run of the subcommand of that name with the arguments behind the name; it does not panic
  -- but where the subcommand does.
  pub dispatch-eq-run_flagged :
      (p : ArgParser W) (name : Text) (s : Subcommand W) (more : List (Text × Subcommand W))
      (args : List Text) (w : W)
      → p.parsed ≡ false
      → p.subcommands ≡ (name, s) ∷ more
      → p.positional_args ≡ []
      → p.arg_offset ≡ 0
      → dispatch p args w ≡ run_flagged p.subcommands (parse_flags p.flags args) w
  unfolding dispatch parse validate_args
  dispatch-eq-run_flagged p name s more args w hp hs ha ho = split (parse_flags p.flags args) refl
    where
      split :
          (r : Reply FlagSet)
          → parse_flags p.flags args ≡ r
          → dispatch p args w ≡ run_flagged p.subcommands (parse_flags p.flags args) w
      split (failed e) f = ground (arith, hp, hs, ha, f)
      split (done fs) f =
          ground (arith, hp, hs, ha, f, parse_subcommand-named (record p { flags = fs }) w ho)
