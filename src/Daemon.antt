-- ===== src/Daemon.antt =====
-- internal/daemon: the web server as a service of systemd or launchd, and the commands
-- `web-server start` and `web-server stop` of cmd/git-bundle-server/web-server.go.
pub mod Systemd
pub mod Launchd
pub mod Start
pub mod Visited
pub mod Passed
use git_bundle_server.Base.{
  Text, codes, Bool, true, false, List, [], ◌∷◌, ◌++◌, if◌then◌else◌, ℤ, Error, message, Outcome,
  ok, err, halt, M, return, throw, bind_from, ◌>>=◌, ◌>>◌,
}
use git_bundle_server.Common.FileSystem.{get_local_executable}
use git_bundle_server.Go.Decimal.{show_int}
use git_bundle_server.Machine.{Machine, Command, Run, outcome, call}

-- `DaemonConfig`
pub record DaemonConfig : Type 0 where
  pub label : Text
  pub description : Text
  pub program : Text
  pub arguments : List Text

-- `DaemonProvider`
pub record DaemonProvider (World : Type 0) : Type 0 where
  pub create : DaemonConfig → Bool → M World (Unit {0})
  pub start : Text → M World (Unit {0})
  pub stop_service : Text → M World (Unit {0})
  pub remove_service : Text → M World (Unit {0})

module _ (m : Machine) where
  open m use {World}

  -- `getDaemonConfig`
  unfoldable pub get_daemon_config : M World DaemonConfig
  get_daemon_config = do
    program_path ← get_local_executable m (codes "git-bundle-web-server")
    return (record {
      label = codes "com.git-ecosystem.gitbundleserver";
      description = codes "Web server hosting Git Bundle Server content";
      program = program_path;
      arguments = [];
    })

  -- `stopServer` behind the parsing of its arguments
  unfoldable pub stop_server : DaemonProvider World → Bool → M World (Unit {0})
  stop_server d remove = do
    config ← get_daemon_config
    d.stop_service config.label
    if remove then d.remove_service config.label else return tt
