-- ===== src/Cmd/Settings.antt =====
-- What the settings of a run make of the command.
use git_bundle_server.Base.{
  Text, codes, List, [], ◌∷◌, ◌++◌, ◌≡◌, refl, ap, sym, subst, ◌∙◌, Error, Outcome, ok, err, halt,
  panic, wrap, M, return, ◌>>=◌, wrapping,
}
use git_bundle_server.Cmd.{
  Setting, stdin, stdout, stderr, env, apply_option, apply_options, command, captured, exit_result,
  build_cmd, run_cmd, run,
}
use git_bundle_server.Machine.{
  Machine, Command, Stream, discarded, inherited, buffered, Exit, unstarted, ended, broken, Reply,
  Run, done, failed, outcome,
}
use mathlib.Core.List.{append_assoc, append-nil}

-- The value of the last setting of a kind, or the one before all settings
abbrev pub last_stdin : Text → List Setting → Text
last_stdin t [] = t
last_stdin t (stdin s ∷ more) = last_stdin s more
last_stdin t (stdout s ∷ more) = last_stdin t more
last_stdin t (stderr s ∷ more) = last_stdin t more
last_stdin t (env vars ∷ more) = last_stdin t more

abbrev pub last_stdout : Stream → List Setting → Stream
last_stdout t [] = t
last_stdout t (stdin s ∷ more) = last_stdout t more
last_stdout t (stdout s ∷ more) = last_stdout s more
last_stdout t (stderr s ∷ more) = last_stdout t more
last_stdout t (env vars ∷ more) = last_stdout t more

abbrev pub last_stderr : Stream → List Setting → Stream
last_stderr t [] = t
last_stderr t (stdin s ∷ more) = last_stderr t more
last_stderr t (stdout s ∷ more) = last_stderr t more
last_stderr t (stderr s ∷ more) = last_stderr s more
last_stderr t (env vars ∷ more) = last_stderr t more

-- The variables of all settings for the environment
abbrev pub all_env : List Setting → List Text
all_env [] = []
all_env (stdin s ∷ more) = all_env more
all_env (stdout s ∷ more) = all_env more
all_env (stderr s ∷ more) = all_env more
all_env (env vars ∷ more) = vars ++ all_env more

abbrev pub with_settings : Command → List Setting → Command
with_settings c settings = record c {
  stdin = last_stdin c.stdin settings;
  stdout = last_stdout c.stdout settings;
  stderr = last_stderr c.stderr settings;
  env = c.env ++ all_env settings;
}

apply_options-with_settings :
    (c : Command) (settings : List Setting) → apply_options c settings ≡ with_settings c settings
unfolding apply_options apply_option
apply_options-with_settings c [] = ap (λ vars. record c { env = vars }) (sym (append-nil c.env))
apply_options-with_settings c (stdin s ∷ more) =
    apply_options-with_settings (record c { stdin = s }) more
apply_options-with_settings c (stdout s ∷ more) =
    apply_options-with_settings (record c { stdout = s }) more
apply_options-with_settings c (stderr s ∷ more) =
    apply_options-with_settings (record c { stderr = s }) more
apply_options-with_settings c (env vars ∷ more) =
    apply_options-with_settings (record c { env = c.env ++ vars }) more
    ∙ ap (λ all. record (with_settings c (env vars ∷ more)) { env = all })
        (append_assoc c.env vars (all_env more))

-- What a buffer of an output holds, for what was written to the output
pub data Kept : Stream → Text → Text → Type 0 where
  kept : (text : Text) → Kept buffered text text
  not_kept : (text : Text) → Kept discarded text []
  passed_on : (text : Text) → Kept inherited text []

-- What an execution of the command comes to
pub data Gives (c : Command) : Exit → Outcome Run → Type 0 where
  gives_run :
      (r r' : Run)
      → r'.code ≡ r.code
      → Kept c.stdout r.stdout r'.stdout
      → Kept c.stderr r.stderr r'.stderr
      → Gives c (ended r) (ok r')
  gives_error : (e : Error) → Gives c (broken e) (err e)
  gives_panic : (e : Error) (p : Text) → Gives c (unstarted e) (halt (panic p))

Kept-captured : (s : Stream) (text : Text) → Kept s text (captured s text)
Kept-captured buffered text = kept text
Kept-captured discarded text = not_kept text
Kept-captured inherited text = passed_on text

Gives-exit_result : (c : Command) (x : Exit) → Gives c x (exit_result c x)
Gives-exit_result c (ended r) =
    gives_run r _ refl (Kept-captured c.stdout r.stdout) (Kept-captured c.stderr r.stderr)
Gives-exit_result c (broken e) = gives_error e
Gives-exit_result c (unstarted e) = gives_panic e _

-- The command of a run: the program and its arguments, the last input, output and error output that
-- the settings give, or else no input and no outputs, and the variables of all settings in order.
-- No variables stand for the environment of this process.
abbrev pub executed : Text → List Text → List Setting → Command
executed exe args settings = record {
  program = exe;
  args = args;
  stdin = last_stdin [] settings;
  stdout = last_stdout discarded settings;
  stderr = last_stderr discarded settings;
  env = all_env settings;
}

module _ (m : Machine) where
  -- A run of a program, by what the search for the program gave
  pub data Ran (program : Text) (args : List Text) (settings : List Setting) (w : m.World)
      : Reply Text → Outcome Run × m.World → Type 0 where
    ran_missing :
        (e : Error)
        → Ran program args settings w
            (failed e)
            (err (wrap (codes "failed to find '" ++ program ++ codes "' on the path: ") e), w)
    ran_found :
        (exe : Text) (o : Outcome Run)
        → Gives (executed exe args settings) (m.exec (executed exe args settings) w).0 o
        → Ran program args settings w (done exe) (o, (m.exec (executed exe args settings) w).1)

  run_cmd-Ran :
      (program exe : Text) (args : List Text) (settings : List Setting) (w : m.World)
      → Ran program args settings w
          (done exe)
          (run_cmd m (apply_options (command exe args) settings) w)
  unfolding run_cmd
  run_cmd-Ran program exe args settings w =
      subst
        (λ c. Ran program args settings w (done exe) (exit_result c (m.exec c w).0, (m.exec c w).1))
        (sym (apply_options-with_settings (command exe args) settings))
        (ran_found exe _ (Gives-exit_result (executed exe args settings) _))

  -- A program that is not found is an error that names it, with nothing executed. Of one that is
  -- found, a run executes it with the arguments, with the last input, output and error output that
  -- the settings give or none, and with the variables of all settings in their order for its
  -- environment, or that of this process if they give none; where it runs to its end, the run gives
  -- its exit status and what it wrote to the outputs that are buffered, and the error where waiting
  -- for it fails; where it does not start, the program panics.
  pub run-Ran :
      (program : Text) (args : List Text) (settings : List Setting) (w : m.World)
      → Ran program args settings w (m.look_path program w) (run m program args settings w)
  unfolding run build_cmd
  run-Ran program args settings w = split (m.look_path program w)
    where
      found : Reply Text → M m.World Run
      found r =
          wrapping (codes "failed to find '" ++ program ++ codes "' on the path: ")
            (λ w. (outcome r, w))
          >>= (λ exe. return (command exe args))
          >>= (λ c. run_cmd m (apply_options c settings))

      split : (r : Reply Text) → Ran program args settings w r (found r w)
      split (failed e) = ran_missing e
      split (done exe) = run_cmd-Ran program exe args settings w
