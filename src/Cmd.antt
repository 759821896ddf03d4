-- ===== src/Cmd.antt =====
-- internal/cmd: `commandExecutor` and its settings, over a machine that finds and runs programs.
pub mod Settings
use git_bundle_server.Base.{
  Text, codes, List, [], ◌∷◌, ◌++◌, Outcome, ok, err, halt, panic, M, return, ◌>>=◌, wrapping, ℤ,
}
use git_bundle_server.Machine.{
  Machine, Command, Stream, discarded, inherited, buffered, Run, Exit, unstarted, ended, broken,
  outcome,
}

-- A `Setting`: its key is the constructor.
pub data Setting : Type 0 where
  stdin : Text → Setting
  stdout : Stream → Setting
  stderr : Stream → Setting
  env : List Text → Setting

-- One round of the loop of `applyOptions`. The types of the values leave nothing to panic about.
unfoldable pub apply_option : Command → Setting → Command
apply_option c (stdin text) = record c { stdin = text }
apply_option c (stdout s) = record c { stdout = s }
apply_option c (stderr s) = record c { stderr = s }
apply_option c (env vars) = record c { env = c.env ++ vars }

unfoldable pub apply_options : Command → List Setting → Command
apply_options c [] = c
apply_options c (s ∷ settings) = apply_options (apply_option c s) settings

-- `exec.Command(exe, args...)`
abbrev pub command : Text → List Text → Command
command exe args = record {
  program = exe;
  args = args;
  stdin = [];
  stdout = discarded;
  stderr = discarded;
  env = [];
}

-- What a buffer that is given for an output holds at the end.
abbrev pub captured : Stream → Text → Text
captured discarded text = []
captured inherited text = []
captured buffered text = text

-- Either the exit status with the buffers, or the error; the status -1 beside an error is not read.
-- If `Start` fails there is no process, and `childReady`, which is called before the error is
-- looked at, reads the process's number.
abbrev pub exit_result : Command → Exit → Outcome Run
exit_result c (unstarted e) =
    halt (panic (codes "invalid memory address or nil pointer dereference"))
exit_result c (ended r) = ok (record {
  code = r.code;
  stdout = captured c.stdout r.stdout;
  stderr = captured c.stderr r.stderr;
})
exit_result c (broken e) = err e

module _ (m : Machine) where
  open m use {World}

  unfoldable pub build_cmd : Text → List Text → M World Command
  build_cmd program args = do
    exe ←
        wrapping (codes "failed to find '" ++ program ++ codes "' on the path: ")
          (λ w. (outcome (m.look_path program w), w))
    return (command exe args)

  unfoldable pub run_cmd : Command → M World Run
  run_cmd c w = (exit_result c (m.exec c w).0, (m.exec c w).1)

  unfoldable pub run : Text → List Text → List Setting → M World Run
  run program args settings = do c ← build_cmd program args; run_cmd (apply_options c settings)

  unfoldable pub run_stdout : Text → List Text → M World ℤ
  run_stdout program args = do
    r ← run program args (stdout inherited ∷ stderr inherited ∷ [])
    return r.code

  unfoldable pub run_quiet : Text → List Text → M World ℤ
  run_quiet program args = do r ← run program args []; return r.code
