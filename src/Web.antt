-- ===== src/Web.antt =====
-- cmd/git-bundle-web-server/bundle-server.go: `parseRoute` and the handler `serve`.
pub mod Routing
pub mod Serving
pub mod Lifecycle
pub mod Setup
use git_bundle_server.Base.{
  ℕ, Text, codes, Bool, true, false, List, [], ◌∷◌, ◌++◌, Option, none, some, if◌then◌else◌, nat_eq,
  ◌||◌, ◌==◌, text_Eq, ℤ, pos, Error, message, Outcome, ok, err, halt, M, Halt, panic,
}
use git_bundle_server.Base.Assoc.{lookup}
use git_bundle_server.Auth.{
  Request, Response, AuthResult, AuthFunc, apply_result, write_header, fresh,
}
use git_bundle_server.Bundles.ListFile.{bundle_list_filename, repo_bundle_list_filename}
use git_bundle_server.Core.Repo.{Repository, Repos, get_repositories}
use git_bundle_server.Go.Path.{join, slash}
use git_bundle_server.Go.Strings.{fields, is_empty}
use git_bundle_server.Machine.{Machine, Reply, done, failed}

-- `switch len(elements)`
abbrev pub route_elements : List Text → Outcome (Text × Text × Text)
route_elements [] = err (message (codes "empty route"))
route_elements (owner ∷ []) = err (message (codes "route has owner, but no repo"))
route_elements (owner ∷ repo ∷ []) = ok (owner, repo, [])
route_elements (owner ∷ repo ∷ filename ∷ []) = ok (owner, repo, filename)
route_elements (owner ∷ repo ∷ filename ∷ more ∷ rest) =
    err (message (codes "path has depth exceeding three"))

-- The owner, the repository and the file of a path.
unfoldable pub parse_route : Text → Outcome (Text × Text × Text)
parse_route path = route_elements (fields slash path)

-- `path[len(path)-1] == '/'`, which panics on an empty path.
unfoldable pub ends_in_slash : Text → Outcome Bool
ends_in_slash [] = halt (panic (codes "index out of range [-1]"))
ends_in_slash (c ∷ []) = ok (nat_eq c slash)
ends_in_slash (c ∷ d ∷ s) = ends_in_slash (d ∷ s)

-- Which file of the repository's directory answers a request: `none` for a reserved name.
abbrev pub choose_list : Repository → Outcome Bool → Outcome (Option Text)
choose_list r (ok true) = ok (some (join (r.web_dir ∷ bundle_list_filename ∷ [])))
choose_list r (ok false) = ok (some (join (r.web_dir ∷ repo_bundle_list_filename ∷ [])))
choose_list r (err e) = err e
choose_list r (halt h) = halt h

unfoldable pub file_to_serve : Repository → Text → Text → Outcome (Option Text)
file_to_serve r path filename =
    if is_empty filename
    then choose_list r (ends_in_slash path)
    else if filename == bundle_list_filename || filename == repo_bundle_list_filename
    then ok none
    else ok (some (join (r.web_dir ∷ filename ∷ [])))

abbrev pub not_found : Response → Response
not_found = write_header (pos 404)

module _ (m : Machine) where
  open m use {World}

  -- `os.OpenFile` and `http.ServeContent`
  abbrev pub serve_content : Text → Response → Reply Text → World → Outcome Response × World
  serve_content filename w (done content) s =
      (ok (record w { served = some (filename, content) }), s)
  serve_content filename w (failed e) s = (ok (not_found w), s)

  abbrev pub serve_file : Text → Response → Outcome (Option Text) → M World Response
  serve_file filename w (ok none) s = (ok (not_found w), s)
  serve_file filename w (ok (some file)) s =
      serve_content filename w (m.open_read file s).0 (m.open_read file s).1
  serve_file filename w (err e) s = (err e, s)
  serve_file filename w (halt h) s = (halt h, s)

  abbrev pub serve_repository : Text → Text → Response → Option Repository → M World Response
  serve_repository path filename w none s = (ok (not_found w), s)
  serve_repository path filename w (some r) s =
      serve_file filename w (file_to_serve r path filename) s

  -- What follows `GetRepositories`.
  abbrev pub serve_route : Text → Text → Text → Response → Outcome Repos → M World Response
  serve_route path route filename w (ok repos) s =
      serve_repository path filename w (lookup route repos) s
  serve_route path route filename w (err e) s = (ok (write_header (pos 500) w), s)
  serve_route path route filename w (halt h) s = (halt h, s)

  -- What follows the check of the client's authorization, which is in `applied`.
  abbrev pub serve_authorized : Text → Text → Text → Outcome (Bool × Response) → M World Response
  serve_authorized path route filename (ok (true, w)) s = (ok w, s)
  serve_authorized path route filename (ok (false, w)) s =
      serve_route path route filename w (get_repositories m s).0 (get_repositories m s).1
  serve_authorized path route filename (err e) s = (err e, s)
  serve_authorized path route filename (halt h) s = (halt h, s)

  abbrev pub applied : Outcome AuthResult → Outcome (Bool × Response)
  applied (ok res) = ok (apply_result res fresh)
  applied (err e) = err e
  applied (halt h) = halt h

  -- `if b.authorize != nil { ... }`
  abbrev pub authorized : Option AuthFunc → Request → Text → Text → Outcome (Bool × Response)
  authorized none r owner repo = ok (false, fresh)
  authorized (some authorize) r owner repo = applied (authorize r owner repo)

  abbrev pub serve_parsed :
      Option AuthFunc → Request → Outcome (Text × Text × Text) → M World Response
  serve_parsed authorize r (ok (owner, repo, filename)) s =
      serve_authorized r.path (owner ++ codes "/" ++ repo) filename
        (authorized authorize r owner repo) s
  serve_parsed authorize r (err e) s = (ok (not_found fresh), s)
  serve_parsed authorize r (halt h) s = (halt h, s)

  unfoldable pub serve : Option AuthFunc → Request → M World Response
  serve authorize r = serve_parsed authorize r (parse_route r.path)
