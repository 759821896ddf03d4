-- ===== src/Core/Cron.antt =====
-- internal/core/cron.go: `cronScheduler`, and cmd/utils/cron.go.
use git_bundle_server.Base.{
  Text, codes, List, [], ◌∷◌, ◌++◌, map, if◌then◌else◌, ◌==◌, int_Eq, ℤ, pos, Error, message, M,
  return, throw, ◌>>=◌, ◌>>◌, wrapping,
}
use git_bundle_server.Common.FileSystem.{write_file, delete_file, get_local_executable}
use git_bundle_server.Core.Paths.{crontab_file}
use git_bundle_server.Core.Repo.{user}
use git_bundle_server.Go.Decimal.{show_int}
use git_bundle_server.Go.Strings.{contains, join_with}
use git_bundle_server.Cmd.{run, run_quiet, stdout}
use git_bundle_server.Machine.{buffered, Machine}

abbrev pub cron_daily : Text
cron_daily = codes "0 0 * * *"

abbrev pub cron_weekly : Text
cron_weekly = codes "0 0 0 * *"

-- `%s` of a slice is its elements between brackets.
unfoldable pub new_schedule : Text → Text → List Text → Text
new_schedule schedule exe args =
    schedule
    ++ codes " \""
    ++ exe
    ++ codes "\" ["
    ++ join_with b' ' (map (λ (s : Text). codes "\"" ++ s ++ codes "\"") args)
    ++ codes "]"

abbrev crontab_exited : ℤ → Error
crontab_exited code = message (codes "'crontab' exited with status " ++ show_int code)

module _ (m : Machine) where
  open m use {World}

  unfoldable pub load_existing_schedule : M World Text
  load_existing_schedule = do
    r ← run m (codes "crontab") (codes "-l" ∷ []) (stdout buffered ∷ [])
    if r.code == pos 0 then return r.stdout else throw (crontab_exited r.code)

  unfoldable pub commit_cron_schedule : Text → M World (Unit {0})
  commit_cron_schedule filename = do
    code ← run_quiet m (codes "crontab") (filename ∷ [])
    if code == pos 0 then return tt else throw (crontab_exited code)

  -- What `AddJob` does with the text of the crontab to be.
  unfoldable pub install_schedule : Text → M World (Unit {0})
  install_schedule text = do
    u ← user m
    wrapping (codes "failed to write new cron schedule to temp file: ")
        (write_file m (crontab_file u) text)
    wrapping (codes "failed to commit new cron schedule: ") (commit_cron_schedule (crontab_file u))
    wrapping (codes "failed to clear schedule temp file: ") (delete_file m (crontab_file u))
    return tt

  -- What is appended is `schedule` and not the new line of the table.
  unfoldable pub add_job : Text → Text → List Text → M World (Unit {0})
  add_job schedule exe args = do
    existing ← wrapping (codes "failed to get existing cron schedule: ") load_existing_schedule
    if contains existing (new_schedule schedule exe args)
        then return tt
        else install_schedule (existing ++ schedule)

  unfoldable pub set_cron_schedule : M World (Unit {0})
  set_cron_schedule = do
    exe ←
        wrapping (codes "failed to get executable: ")
          (get_local_executable m (codes "git-bundle-server"))
    wrapping (codes "failed to set cron schedule: ")
        (add_job cron_daily exe (codes "update-all" ∷ []))
