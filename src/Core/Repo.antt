-- ===== src/Core/Repo.antt =====
-- internal/core/repo.go: `repoProvider`. A map of repositories is an association list by route.
pub mod Routes
pub mod Changes
use git_bundle_server.Base.{
  ℕ, Text, codes, Bool, true, false, not, List, [], ◌∷◌, ◌++◌, Option, none, some, if◌then◌else◌,
  ltb, length, drop, text_Eq, ◌-◌, Error, message, wrap, Outcome, ok, err, halt, M, return, throw,
  bind_from, ◌>>=◌, ◌>>◌, wrapped, wrapping,
}
use git_bundle_server.Base.Assoc.{lookup, insert, delete}
use git_bundle_server.Common.FileSystem.{
  ReadDirEntry, read_file_lines, write_file, read_dir_recursive,
}
use git_bundle_server.Core.Paths.{bundle_root, web_root, repo_root}
use git_bundle_server.Git.{get_remote_url}
use git_bundle_server.Go.Path.{join, slash}
use git_bundle_server.Go.Strings.{split, join_with, is_empty}
use git_bundle_server.Machine.{Machine, User, outcome, call}

pub record Repository : Type 0 where
  pub route : Text
  pub repo_dir : Text
  pub web_dir : Text

abbrev pub Repos : Type 0
Repos = List (Text × Repository)

-- The literal that `CreateRepository`, `GetRepositories` and `ReadRepositoryStorage` share.
unfoldable pub repository : User → Text → Repository
repository user route = record {
  route = route;
  repo_dir = join (repo_root user ∷ route ∷ []);
  web_dir = join (web_root user ∷ route ∷ []);
}

unfoldable pub route_file : User → Text
route_file user = join (bundle_root user ∷ codes "routes" ∷ [])

-- The loop of `WriteAllRoutes`.
unfoldable pub contents_onto : Text → Repos → Text
contents_onto contents [] = contents
contents_onto contents ((route, r) ∷ repos) = contents_onto (contents ++ route ++ codes "\n") repos

-- The loop of `GetRepositories`.
unfoldable pub read_routes : User → Repos → List Text → Repos
read_routes user repos [] = repos
read_routes user repos (route ∷ lines) =
    read_routes user (if is_empty route then repos else insert route (repository user route) repos)
      lines

module _ (m : Machine) where
  open m use {World}

  abbrev pub user : M World User
  user w = (outcome m.current_user, w)

  unfoldable pub write_all_routes : Repos → M World (Unit {0})
  write_all_routes repos = do u ← user; write_file m (route_file u) (contents_onto [] repos)

  unfoldable pub get_repositories : M World Repos
  get_repositories = do
    u ← user
    lines ← read_file_lines m (route_file u)
    return (read_routes u [] lines)

  -- The error of `WriteAllRoutes` is replaced, not wrapped.
  abbrev pub replaced : Outcome (Unit {0}) → Outcome (Unit {0})
  replaced (ok x) = ok x
  replaced (err e) = err (message (codes "warning: failed to write route file"))
  replaced (halt h) = halt h

  abbrev pub replacing : M World (Unit {0}) → M World (Unit {0})
  replacing a w = (replaced (a w).0, (a w).1)

  -- A new route: the part of `CreateRepository` behind the lookup.
  unfoldable pub add_repository : User → Text → Repos → M World Repository
  add_repository u route repos = do
    let repo = repository u route
    wrapping (codes "failed to create web directory: ") (call (m.mkdir_all repo.web_dir))
    replacing (write_all_routes (insert route repo repos))
    return repo

  -- What follows `repo, contains := repos[route]`.
  abbrev pub create_found : User → Text → Repos → Option Repository → M World Repository
  create_found u route repos (some repo) = return repo
  create_found u route repos none = add_repository u route repos

  unfoldable pub create_repository : Text → M World Repository
  create_repository route = do
    u ← user
    repos ← wrapping (codes "failed to parse routes file: ") get_repositories
    create_found u route repos (lookup route repos)

  abbrev pub remove_found : Text → Repos → Option Repository → M World (Unit {0})
  remove_found route repos none =
      throw (message (codes "route '" ++ route ++ codes "' is not registered"))
  remove_found route repos (some r) = write_all_routes (delete route repos)

  unfoldable pub remove_route : Text → M World (Unit {0})
  remove_route route = do
    repos ← wrapping (codes "failed to parse routes file: ") get_repositories
    remove_found route repos (lookup route repos)

  -- The last two elements of a path that has them.
  unfoldable pub route_of_path : Text → Option Text
  route_of_path path =
      let elems = split slash path in
      if ltb (length elems) 2 then none else some (join_with slash (drop (length elems - 2) elems))

  -- `_, err = GetRemoteUrl(...)`: whether there is no error.
  abbrev succeeds : {A : Type 0} → Outcome A → Outcome Bool
  succeeds (ok a) = ok true
  succeeds (err e) = ok false
  succeeds (halt h) = halt h

  -- The loop of `ReadRepositoryStorage`.
  unfoldable pub read_stored : User → Repos → List ReadDirEntry → M World Repos
  read_stored u repos [] = return repos
  read_stored u repos (e ∷ es) =
      let skipped = read_stored u repos es in
      let added = λ (route : Text). read_stored u (insert route (repository u route) repos) es in
      if not e.is_dir then skipped else (do
        valid ← λ w. (succeeds (get_remote_url m e.path w).0, (get_remote_url m e.path w).1)
        if not valid then skipped else elim (route_of_path e.path) [
          | none ↦ throw (message (codes "invalid repo path '" ++ e.path ++ codes "'"))
          | some route ↦ added route
        ])

  unfoldable pub read_repository_storage : M World Repos
  read_repository_storage = do
    u ← user
    entries ← read_dir_recursive m 2 (repo_root u) true
    read_stored u [] entries
