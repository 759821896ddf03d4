-- ===== src/Daemon/Systemd.antt =====
-- internal/daemon/systemd.go
use git_bundle_server.Base.{
  Text, codes, Bool, not, ◌&&◌, List, [], ◌∷◌, ◌++◌, if◌then◌else◌, nat_eq, ◌==◌, int_Eq, ℤ, pos,
  message, M, return, throw, ◌>>=◌, ◌>>◌, wrapping,
}
use git_bundle_server.Common.FileSystem.{file_exists, write_file, delete_file}
use git_bundle_server.Core.Repo.{user}
use git_bundle_server.Daemon.{DaemonConfig}
use git_bundle_server.Cmd.{run_quiet}
use git_bundle_server.Go.Decimal.{show_int}
use git_bundle_server.Go.Path.{join}
use git_bundle_server.Machine.{Machine, User}

-- `strings.ReplaceAll(str, "'", "\\'")`
unfoldable pub escape_quotes : Text → Text
escape_quotes [] = []
escape_quotes (c ∷ s) =
    let rest = escape_quotes s in if nat_eq c b'\'' then b'\\' ∷ b'\'' ∷ rest else c ∷ rest

-- `sq_escape`
unfoldable pub sq_escape : Text → Text
sq_escape s = codes "'" ++ escape_quotes s ++ codes "'"

-- `{{range .Arguments}} {{sq_escape .}}{{end}}`
unfoldable pub service_arguments : List Text → Text
service_arguments [] = []
service_arguments (a ∷ rest) = codes " " ++ sq_escape a ++ service_arguments rest

-- `serviceTemplate`, filled in
unfoldable pub service_unit : DaemonConfig → Text
service_unit config =
    codes "[Unit]\nDescription="
    ++ config.description
    ++ codes "\n\n[Service]\nType=simple\nExecStart="
    ++ sq_escape config.program
    ++ service_arguments config.arguments
    ++ codes "\n"

unfoldable pub service_filename : User → Text → Text
service_filename u label = join (
    u.home_dir
    ∷ codes ".config"
    ∷ codes "systemd"
    ∷ codes "user"
    ∷ (label ++ codes ".service")
    ∷ [])

abbrev pub unit_not_installed : ℤ
unit_not_installed = pos 5

module _ (m : Machine) where
  open m use {World}

  unfoldable pub reload_daemon : M World (Unit {0})
  reload_daemon = do
    code ← run_quiet m (codes "systemctl") (codes "--user" ∷ codes "daemon-reload" ∷ [])
    if not (code == pos 0)
        then throw (
            message (codes "'systemctl --user daemon-reload' exited with status " ++ show_int code))
        else return tt

  abbrev pub systemd_user : M World User
  systemd_user = wrapping (codes "could not get current user for systemd service: ") (user m)

  unfoldable pub systemd_create : DaemonConfig → Bool → M World (Unit {0})
  systemd_create config force = do
    u ← systemd_user
    exists ←
        wrapping
          (codes "could not determine whether service unit '" ++ config.label ++ codes "' exists: ")
          (file_exists m (service_filename u config.label))
    if not force && exists then return tt else (do
      wrapping (codes "unable to write service unit: ")
          (write_file m (service_filename u config.label) (service_unit config))
      reload_daemon)

  -- The message names the other operation.
  unfoldable pub systemd_start : Text → M World (Unit {0})
  systemd_start label = do
    code ← run_quiet m (codes "systemctl") (codes "--user" ∷ codes "start" ∷ label ∷ [])
    if not (code == pos 0)
        then throw (message (codes "'systemctl stop' exited with status " ++ show_int code))
        else return tt

  unfoldable pub systemd_stop : Text → M World (Unit {0})
  systemd_stop label = do
    code ← run_quiet m (codes "systemctl") (codes "--user" ∷ codes "stop" ∷ label ∷ [])
    if not (code == pos 0) && not (code == unit_not_installed)
        then throw (message (codes "'systemctl stop' exited with status " ++ show_int code))
        else return tt

  unfoldable pub systemd_remove : Text → M World (Unit {0})
  systemd_remove label = do
    u ← wrapping (codes "could not get current user for launchd service: ") (user m)
    wrapping (codes "could not delete service unit: ") (delete_file m (service_filename u label))
    reload_daemon
