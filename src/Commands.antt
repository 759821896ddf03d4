-- ===== src/Commands.antt =====
-- cmd/git-bundle-server: what the subcommands do once their arguments are parsed. What they print
-- is left out; a repository map is an association list, gone through from its front.
pub mod Repair
pub mod Update
pub mod Updated
pub mod Main
pub mod Cli
pub mod Table
use git_bundle_server.Base.{
  Text, codes, Bool, true, false, not, ◌&&◌, ◌||◌, List, [], ◌∷◌, ◌++◌, Option, none, some,
  if◌then◌else◌, ◌==◌, int_Eq, text_Eq, ℤ, pos, Error, message, wrap, Outcome, ok, err, halt, exit,
  M, return, throw, stop, bind_from, ◌>>=◌, ◌>>◌, wrapped, wrapping,
}
use git_bundle_server.Base.Assoc.{lookup, insert, delete}
use git_bundle_server.Bundles.BundleList.{
  Bundle, BundleList, create_initial_bundle, create_singleton_list,
}
use git_bundle_server.Bundles.ListFile.{Json, write_bundle_list, get_bundle_list}
use git_bundle_server.Bundles.Provider.{create_incremental, collapse_list}
use git_bundle_server.Common.FileSystem.{get_local_executable, no_more}
use git_bundle_server.Core.Cron.{set_cron_schedule}
use git_bundle_server.Core.Repo.{
  Repository, Repos, create_repository, remove_route, get_repositories, read_repository_storage,
  write_all_routes,
}
use git_bundle_server.Git.{clone_bare_repo, create_bundle}
use git_bundle_server.Go.Decimal.{show_int}
use git_bundle_server.Go.Strings.{is_empty, trim_suffix}
use git_bundle_server.Cmd.{run_stdout}
use git_bundle_server.Machine.{Machine, Command, Run, outcome, call}
use git_bundle_server.Utils.{segment_keys}

-- `GetRouteFromUrl`: the first group that one of the regular expressions finds, which is for the
-- package regexp to say.
unfoldable pub first_match : (Text → Text → Option Text) → Text → List Text → Option Text
first_match find url [] = none
first_match find url (re ∷ res) =
    let rest = first_match find url res in
    elim (find re url) [ some g ↦ some (trim_suffix g (codes ".git")) | none ↦ rest ]

unfoldable pub get_route_from_url : (Text → Text → Option Text) → Text → Option Text
get_route_from_url find url = first_match find url (
    codes "^[\\w-]+@[\\w\\.-]+:([\\w\\.-]+/[\\w\\.-]+)/*$"
    ∷ codes "^(?i:http[s]?)://[\\w\\.-]+/([\\w\\.-]+/[\\w\\.-]+)/*$"
    ∷ codes "^(?i:file)://[\\w\\.-/ ]*/([\\w\\.-]+/[\\w\\.-]+)/*$"
    ∷ [])

-- `storedRepos[route]`, the zero value if there is none
abbrev pub or_zero : Option Repository → Repository
or_zero (some r) = r
or_zero none = record { route = []; repo_dir = []; web_dir = [] }

-- The loop over `notRegistered` of `repairRoutes`.
unfoldable pub register_all : Repos → List Text → Repos → Repos
register_all stored [] repos = repos
register_all stored (route ∷ routes) repos =
    register_all stored routes (insert route (or_zero (lookup route stored)) repos)

-- The loop over `missingOnDisk`.
unfoldable pub delete_all : List Text → Repos → Repos
delete_all [] repos = repos
delete_all (route ∷ routes) repos = delete_all routes (delete route repos)

-- The map of repositories that `repairRoutes` arrives at.
unfoldable pub repaired : Bool → Repos → Repos → Repos
repaired enable repos stored =
    let (both, missing, unregistered) = segment_keys repos stored in
    delete_all missing (
      if enable && not (no_more unregistered)
      then register_all stored unregistered repos
      else repos)

unfoldable pub needs_no_repair : Bool → Repos → Repos → Bool
needs_no_repair enable repos stored =
    let (both, missing, unregistered) = segment_keys repos stored in
    (not enable || no_more unregistered) && no_more missing

module _ (m : Machine) where
  open m use {World}

  -- A call whose error is dropped.
  abbrev pub no_error : {A : Type 0} → Outcome A → Outcome (Unit {0})
  no_error (ok a) = ok tt
  no_error (err e) = ok tt
  no_error (halt h) = halt h

  abbrev pub ignoring : {A : Type 0} → M World A → M World (Unit {0})
  ignoring a w = (no_error (a w).0, (a w).1)

  unfoldable pub delete_run : Text → M World (Unit {0})
  delete_run route = do
    repo ← create_repository m route
    remove_route m route
    call (m.remove_all repo.web_dir)
    call (m.remove_all repo.repo_dir)

  -- `initCmd.Run` behind the choice of the route. The error of the clone is dropped.
  unfoldable pub init_at : Json → Text → Text → M World (Unit {0})
  init_at j url route = do
    repo ← create_repository m route
    ignoring (clone_bare_repo m url repo.repo_dir)
    bundle ← create_initial_bundle m repo
    written ←
        wrapping (codes "failed to create bundle: ") (create_bundle m repo.repo_dir bundle.filename)
    if not written
        then throw (message (codes "refused to write empty bundle. Is the repo empty?"))
        else (do
          wrapping (codes "failed to write bundle list: ")
              (write_bundle_list m j (create_singleton_list bundle) repo)
          ignoring (set_cron_schedule m))

  -- `Usage` ends the process with status 2.
  abbrev pub init_or_usage : Json → Text → Option Text → M World (Unit {0})
  init_or_usage j url none = stop (exit 2)
  init_or_usage j url (some route) = init_at j url route

  unfoldable pub init_run : (Text → Text → Option Text) → Json → Text → Text → M World (Unit {0})
  init_run find j url route =
      init_or_usage j url (if is_empty route then get_route_from_url find url else some route)

  -- `updateCmd.Run` behind the incremental bundle; a nil bundle is one with nothing new.
  abbrev pub publish : Json → Repository → BundleList → Option Bundle → M World (Unit {0})
  publish j repo list none = return tt
  publish j repo list (some bundle) = do
    collapsed ←
        collapse_list m repo
          (record list { bundles = insert bundle.creation_token bundle list.bundles })
    wrapping (codes "failed to write bundle list: ") (write_bundle_list m j collapsed repo)

  unfoldable pub update_run : Json → Text → M World (Unit {0})
  update_run j route = do
    repo ← create_repository m route
    list ← wrapping (codes "failed to load bundle list: ") (get_bundle_list m j repo)
    bundle ← create_incremental m repo list
    publish j repo list bundle

  abbrev pub deleted_route : Text → {A : Type 0} → Outcome A → Outcome A
  deleted_route route (ok a) = ok a
  deleted_route route (err e) = err (
      message
        (codes "route '" ++ route ++ codes "' appears to have been deleted; use 'init' instead"))
  deleted_route route (halt h) = halt h

  unfoldable pub start_run : Text → M World (Unit {0})
  start_run route = do
    repo ← create_repository m route
    λ w. (
      deleted_route route (outcome (m.read_dir repo.repo_dir w).0),
      (m.read_dir repo.repo_dir w).1,
    )
    ignoring (set_cron_schedule m)

  -- The error is logged and dropped.
  unfoldable pub stop_run : Text → M World (Unit {0})
  stop_run route = ignoring (remove_route m route)

  -- The loop of `updateAllCmd.Run`.
  unfoldable pub update_each : Text → List Text → Repos → M World (Unit {0})
  update_each exe args [] = return tt
  update_each exe args ((route, r) ∷ repos) = do
    code ← run_stdout m exe (codes "update" ∷ route ∷ args)
    if not (code == pos 0)
        then throw (message (codes "git-bundle-server update exited with status " ++ show_int code))
        else update_each exe args repos

  unfoldable pub update_all_run : List Text → M World (Unit {0})
  update_all_run args = do
    repos ← get_repositories m
    exe ←
        wrapping (codes "failed to get path to execuable: ")
          (get_local_executable m (codes "git-bundle-server"))
    update_each exe args repos

  -- If the routes file cannot be read, the map starts empty.
  abbrev pub or_no_repos : Outcome Repos → Outcome Repos
  or_no_repos (ok repos) = ok repos
  or_no_repos (err e) = ok []
  or_no_repos (halt h) = halt h

  -- What `repairRoutes` writes, unless it has nothing to do or is not to do it.
  unfoldable pub apply_repairs : Bool → Bool → Repos → Repos → M World (Unit {0})
  apply_repairs enable dry_run repos stored =
      if needs_no_repair enable repos stored || dry_run
      then return tt
      else (do write_all_routes m (repaired enable repos stored); ignoring (set_cron_schedule m))

  unfoldable pub repair_routes : Bool → Bool → M World (Unit {0})
  repair_routes enable dry_run = do
    repos ← λ w. (or_no_repos (get_repositories m w).0, (get_repositories m w).1)
    stored ←
        wrapping (codes "could not read internal repository storage: ") (read_repository_storage m)
    apply_repairs enable dry_run repos stored
