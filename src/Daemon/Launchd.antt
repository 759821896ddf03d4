-- ===== src/Daemon/Launchd.antt =====
-- internal/daemon/launchd.go. The encoding of a property list as XML is the standard library's: a
-- parameter.
use git_bundle_server.Base.{
  Text, codes, Bool, true, false, not, ◌&&◌, ◌||◌, List, [], ◌∷◌, ◌++◌, if◌then◌else◌, ◌==◌, int_Eq,
  ℤ, pos, message, Outcome, M, return, throw, ◌>>=◌, ◌>>◌, wrapping,
}
use git_bundle_server.Common.FileSystem.{file_exists, write_file, delete_file}
use git_bundle_server.Core.Repo.{user}
use git_bundle_server.Daemon.{DaemonConfig}
use git_bundle_server.Cmd.{run_quiet}
use git_bundle_server.Go.Decimal.{show_int}
use git_bundle_server.Go.Path.{join}
use git_bundle_server.Machine.{Machine, User}

-- A value of `addKeyValue`.
pub data PlistValue : Type 0 where
  string : Text → PlistValue
  array : List Text → PlistValue

-- `toPlist`: the keys with their values, in order.
unfoldable pub to_plist : DaemonConfig → List (Text × PlistValue)
to_plist c =
    (codes "Label", string c.label)
    ∷ (codes "Program", string c.program)
    ∷ (codes "LimitLoadToSessionType", string (codes "Background"))
    ∷ (codes "StandardOutPath", string (codes "/dev/null"))
    ∷ (codes "StandardErrorPath", string (codes "/dev/null"))
    ∷ (codes "ProgramArguments", array (c.program ∷ c.arguments))
    ∷ []

abbrev pub no_such_process : ℤ
no_such_process = pos 3

abbrev pub service_not_found : ℤ
service_not_found = pos 113

unfoldable pub plist_filename : User → Text → Text
plist_filename u label =
    join (u.home_dir ∷ codes "Library" ∷ codes "LaunchAgents" ∷ (label ++ codes ".plist") ∷ [])

abbrev pub domain_target : User → Text
domain_target u = codes "user/" ++ u.uid

abbrev pub service_target : User → Text → Text
service_target u label = domain_target u ++ codes "/" ++ label

abbrev pub launchctl : Text
launchctl = codes "launchctl"

module _ (m : Machine) where
  open m use {World}

  unfoldable pub is_bootstrapped : Text → M World Bool
  is_bootstrapped target = do
    code ← run_quiet m launchctl (codes "print" ∷ target ∷ [])
    if code == pos 0
        then return true
        else if code == service_not_found
        then return false
        else throw (
            message (
              codes "could not determine if service '"
              ++ target
              ++ codes "' is bootstrapped: 'launchctl print' exited with status '"
              ++ show_int code
              ++ codes "'"))

  unfoldable pub bootstrap_file : Text → Text → M World (Unit {0})
  bootstrap_file domain filename = do
    code ← run_quiet m launchctl (codes "bootstrap" ∷ domain ∷ filename ∷ [])
    if not (code == pos 0)
        then throw (message (codes "'launchctl bootstrap' exited with status " ++ show_int code))
        else return tt

  unfoldable pub bootout : Text → M World Bool
  bootout target = do
    code ← run_quiet m launchctl (codes "bootout" ∷ target ∷ [])
    if code == pos 0
        then return true
        else if code == no_such_process
        then return false
        else throw (message (codes "'launchctl bootout' failed with status " ++ show_int code))

  abbrev pub launchd_user : M World User
  launchd_user = wrapping (codes "could not get current user for launchd service: ") (user m)

  -- The steps of `Create` behind the two tests of the present state.
  unfoldable pub reconfigure : User → Text → Text → Bool → Bool → Bool → M World (Unit {0})
  reconfigure u label text force loaded exists = do
    if loaded
        then wrapping (codes "could not bootout daemon process '" ++ label ++ codes "': ")
            (bootout (service_target u label))
        else return false
    if not exists || force
        then wrapping (codes "unable to write plist file: ")
            (write_file m (plist_filename u label) text)
        else return tt
    wrapping (codes "could not bootstrap daemon process '" ++ label ++ codes "': ")
        (bootstrap_file (domain_target u) (plist_filename u label))

  -- `encode` is `xml.Header`, the document type and what `xml.Encoder` makes of the list.
  unfoldable pub launchd_create :
      (List (Text × PlistValue) → Outcome Text) → DaemonConfig → Bool → M World (Unit {0})
  launchd_create encode config force = do
    text ← wrapping (codes "could not encode plist: ") (λ w. (encode (to_plist config), w))
    u ← launchd_user
    loaded ← is_bootstrapped (service_target u config.label)
    exists ←
        wrapping
          (codes "could not determine whether plist '"
            ++ plist_filename u config.label
            ++ codes "' exists: ")
          (file_exists m (plist_filename u config.label))
    if not force && loaded && exists
        then return tt
        else reconfigure u config.label text force loaded exists

  unfoldable pub launchd_start : Text → M World (Unit {0})
  launchd_start label = do
    u ← launchd_user
    code ← run_quiet m launchctl (codes "kickstart" ∷ service_target u label ∷ [])
    if not (code == pos 0)
        then throw (message (codes "'launchctl kickstart' exited with status " ++ show_int code))
        else return tt

  unfoldable pub launchd_stop : Text → M World (Unit {0})
  launchd_stop label = do
    u ← launchd_user
    code ← run_quiet m launchctl (codes "kill" ∷ codes "SIGINT" ∷ service_target u label ∷ [])
    if not (code == pos 0) && not (code == service_not_found) && not (code == no_such_process)
        then throw (message (codes "'launchctl kill' exited with status " ++ show_int code))
        else return tt

  unfoldable pub launchd_remove : Text → M World (Unit {0})
  launchd_remove label = do
    u ← launchd_user
    wrapping (codes "could not remove daemon process '" ++ label ++ codes "': ")
        (bootout (service_target u label))
    wrapping (codes "could not delete launchd plist: ") (delete_file m (plist_filename u label))
    return tt
