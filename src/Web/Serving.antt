-- ===== src/Web/Serving.antt =====
-- Who is served, and what.
use git_bundle_server.Base.{
  Text, codes, ◌++◌, Bool, true, false, Option, none, some, ◌≡◌, refl, ap, sym, ◌∙◌, arith, text_Eq,
  Outcome, ok, err, halt,
}
use git_bundle_server.Base.Assoc.{lookup}
use git_bundle_server.Auth.{
  Request, Response, AuthResult, AuthFunc, apply_result, write_header, fresh,
}
use git_bundle_server.Core.Repo.{Repository, Repos, get_repositories}
use git_bundle_server.Machine.{Machine, IsLawful, Reply, done, failed}
use git_bundle_server.Web.{
  parse_route, file_to_serve, serve, serve_content, serve_file, serve_repository, serve_route,
  serve_authorized, authorized, applied, serve_parsed,
}

-- The client may go on: no middleware, or one whose result lets it.
abbrev pub LetsIn : Option AuthFunc → Request → Text → Text → Type 0
LetsIn none r owner repo = Unit {0}
LetsIn (some authorize) r owner repo =
    (res : AuthResult) × (authorize r owner repo ≡ ok res) × ((apply_result res fresh).0 ≡ false)

-- The headers and status come from the middleware, which cannot serve a file by itself.
abbrev pub ServesNothing : Option AuthFunc → Type 0
ServesNothing none = Unit {0}
ServesNothing (some authorize) =
    (r : Request) (owner repo : Text) (res : AuthResult)
    → authorize r owner repo ≡ ok res
    → (apply_result res fresh).1.served ≡ none

module _ (m : Machine) (lawful : IsLawful m) (name content : Text) where
  -- Each step back from the response: what the step before it was given.
  content-served :
      (filename : Text) (w : Response) (reply : Reply Text) (s : m.World) (out : Response)
      → w.served ≡ none
      → (serve_content m filename w reply s).0 ≡ ok out
      → out.served ≡ some (name, content)
      → (filename ≡ name) × (reply ≡ done content)
  unfolding write_header
  content-served filename w (done c) s out quiet h k = ground arith
  content-served filename w (failed e) s out quiet h k = ground arith

  file-served :
      (filename : Text) (w : Response) (choice : Outcome (Option Text)) (s : m.World)
      (out : Response)
      → w.served ≡ none
      → (serve_file m filename w choice s).0 ≡ ok out
      → out.served ≡ some (name, content)
      → (file : Text) × (choice ≡ ok (some file))
        × (filename ≡ name)
        × (m.file s file ≡ some content)
  unfolding write_header
  file-served filename w (ok none) s out quiet h k = ground arith
  file-served filename w (ok (some file)) s out quiet h k =
      let (same, opened) =
        content-served filename w (m.open_read file s).0 (m.open_read file s).1 out quiet h k in
      (file, refl, same, lawful.open_read_done file s content opened)
  file-served filename w (err e) s out quiet h k = cc
  file-served filename w (halt e) s out quiet h k = cc

  repository-served :
      (path filename : Text) (w : Response) (found : Option Repository) (s : m.World)
      (out : Response)
      → w.served ≡ none
      → (serve_repository m path filename w found s).0 ≡ ok out
      → out.served ≡ some (name, content)
      → (repository : Repository) × (file : Text) × (found ≡ some repository)
        × (file_to_serve repository path filename ≡ ok (some file))
        × (filename ≡ name)
        × (m.file s file ≡ some content)
  unfolding write_header
  repository-served path filename w none s out quiet h k = ground arith
  repository-served path filename w (some r) s out quiet h k =
      let (file, chosen, same, held) =
        file-served filename w (file_to_serve r path filename) s out quiet h k in
      (r, file, refl, chosen, same, held)

  route-served :
      (path route filename : Text) (w : Response) (read : Outcome Repos) (s : m.World)
      (out : Response)
      → w.served ≡ none
      → (serve_route m path route filename w read s).0 ≡ ok out
      → out.served ≡ some (name, content)
      → (repos : Repos) × (repository : Repository) × (file : Text) × (read ≡ ok repos)
        × (lookup route repos ≡ some repository)
        × (file_to_serve repository path filename ≡ ok (some file))
        × (filename ≡ name)
        × (m.file s file ≡ some content)
  unfolding write_header
  route-served path route filename w (ok repos) s out quiet h k =
      let (r, file, found, chosen, same, held) =
        repository-served path filename w (lookup route repos) s out quiet h k in
      (repos, r, file, refl, found, chosen, same, held)
  route-served path route filename w (err e) s out quiet h k = ground arith
  route-served path route filename w (halt e) s out quiet h k = cc

  authorized-quiet :
      (authorize : Option AuthFunc) (r : Request) (owner repo : Text) (stops : Bool) (w : Response)
      → ServesNothing authorize
      → authorized m authorize r owner repo ≡ ok (stops, w)
      → w.served ≡ none
  authorized-quiet none r owner repo stops w quiet h = ground arith
  authorized-quiet (some f) r owner repo stops w quiet h =
      result (f r owner repo) (quiet r owner repo) h
    where
      result :
          (o : Outcome AuthResult)
          → ((res : AuthResult) → o ≡ ok res → (apply_result res fresh).1.served ≡ none)
          → applied m o ≡ ok (stops, w)
          → w.served ≡ none
      result (ok res) q h = let given = q res refl in ground arith
      result (err e) q h = cc
      result (halt e) q h = cc

  authorized-LetsIn :
      (authorize : Option AuthFunc) (r : Request) (owner repo : Text) (w : Response)
      → authorized m authorize r owner repo ≡ ok (false, w)
      → LetsIn authorize r owner repo
  authorized-LetsIn none r owner repo w h = tt
  authorized-LetsIn (some f) r owner repo w h = result (f r owner repo) h
    where
      result :
          (o : Outcome AuthResult)
          → applied m o ≡ ok (false, w)
          → (res : AuthResult) × (o ≡ ok res) × ((apply_result res fresh).0 ≡ false)
      result (ok res) h = (res, refl, ground arith)
      result (err e) h = cc
      result (halt e) h = cc

  authorized-served :
      (path route filename : Text) (check : Outcome (Bool × Response)) (s : m.World)
      (out : Response)
      → ((stops : Bool) (w : Response) → check ≡ ok (stops, w) → w.served ≡ none)
      → (serve_authorized m path route filename check s).0 ≡ ok out
      → out.served ≡ some (name, content)
      → (w : Response) × (check ≡ ok (false, w))
        × ((serve_route m path route filename w (get_repositories m s).0 (get_repositories m s).1).0
            ≡ ok out)
  authorized-served path route filename (ok (true, w)) s out quiet h k =
      let silent = quiet true w refl in ground arith
  authorized-served path route filename (ok (false, w)) s out quiet h k = (w, refl, h)
  authorized-served path route filename (err e) s out quiet h k = cc
  authorized-served path route filename (halt e) s out quiet h k = cc

  abbrev Served : Option AuthFunc → Request → m.World → Outcome (Text × Text × Text) → Type 0
  Served authorize r w parsed =
      (owner : Text) × (repo : Text) × (repos : Repos) × (repository : Repository) × (file : Text)
      × (parsed ≡ ok (owner, repo, name))
      × LetsIn authorize r owner repo
      × ((get_repositories m w).0 ≡ ok repos)
      × (lookup (owner ++ codes "/" ++ repo) repos ≡ some repository)
      × (file_to_serve repository r.path name ≡ ok (some file))
      × (m.file (get_repositories m w).1 file ≡ some content)

  parsed-served :
      (authorize : Option AuthFunc) (r : Request) (parsed : Outcome (Text × Text × Text))
      (w : m.World) (out : Response)
      → ServesNothing authorize
      → (serve_parsed m authorize r parsed w).0 ≡ ok out
      → out.served ≡ some (name, content)
      → Served authorize r w parsed
  unfolding write_header
  parsed-served authorize r (ok (owner, repo, filename)) w out quiet h k =
      let route = owner ++ codes "/" ++ repo in
      let check = authorized m authorize r owner repo in
      let (reply, passed, next) =
        authorized-served r.path route filename check w out
          (λ stops v e. authorized-quiet authorize r owner repo stops v quiet e) h k in
      let silent = authorized-quiet authorize r owner repo false reply quiet passed in
      let (repos, repository, file, read, found, chosen, same, held) =
        route-served r.path route filename reply (get_repositories m w).0 (get_repositories m w).1
          out silent next k in
      (
        owner,
        repo,
        repos,
        repository,
        file,
        ap (λ (n : Text). ok (owner, repo, n)) same,
        authorized-LetsIn authorize r owner repo reply passed,
        read,
        found,
        ap (file_to_serve repository r.path) (sym same) ∙ chosen,
        held,
      )
  parsed-served authorize r (err e) w out quiet h k = ground arith
  parsed-served authorize r (halt e) w out quiet h k = cc

  -- On a lawful machine, with a middleware that serves nothing by itself: if `serve` hands a file
  -- to the client, then the path has an owner and a repository, the middleware lets the client in,
  -- the repository is registered, and the content is that of the file on disk that the path stands
  -- for.
  pub serve-eq-served :
      (authorize : Option AuthFunc) (r : Request) (w : m.World) (out : Response)
      → ServesNothing authorize
      → (serve m authorize r w).0 ≡ ok out
      → out.served ≡ some (name, content)
      → (owner : Text) × (repo : Text) × (repos : Repos) × (repository : Repository) × (file : Text)
        × (parse_route r.path ≡ ok (owner, repo, name))
        × LetsIn authorize r owner repo
        × ((get_repositories m w).0 ≡ ok repos)
        × (lookup (owner ++ codes "/" ++ repo) repos ≡ some repository)
        × (file_to_serve repository r.path name ≡ ok (some file))
        × (m.file (get_repositories m w).1 file ≡ some content)
  unfolding serve
  serve-eq-served authorize r w out quiet h k =
      parsed-served authorize r (parse_route r.path) w out quiet h k
