-- ===== src/Core/Repo/Routes.antt =====
-- The registry of routes: what `WriteAllRoutes` writes is what `GetRepositories` reads.
use mathlib.Core.List.{append_assoc, append-nil}
use git_bundle_server.Base.{
  false, Text, codes, List, [], ◌∷◌, ◌++◌, some, none, ◌≡◌, refl, ◌∙◌, ap, sym, arith, text_Eq,
  text_eq_iff, All, M, Outcome, ok, ◌>>=◌, >>=-eq-ok, >>=-ok, wrapping, if◌then◌else◌,
}
use git_bundle_server.Base.Assoc.{has, keys, lookup, insert, lookup-insert}
use git_bundle_server.Common.FileSystem.{
  create_leading_dirs, write_file, read_file_lines, scan_lines, lines_of,
}
use git_bundle_server.Common.FileSystem.Lines.{IsLine, scan_lines-cons}
use git_bundle_server.Core.Repo.{
  Repos, repository, route_file, contents_onto, read_routes, user, write_all_routes,
  get_repositories,
}
use git_bundle_server.Go.Path.{dir}
use git_bundle_server.Go.Strings.{is_empty, split}
use git_bundle_server.Machine.{Machine, IsLawful, User, done, call}
use git_bundle_server.Machine.Frame.{wrapped-outcome-eq-ok}

-- A route that the file can hold: a line that is not empty.
pub record IsRoute (route : Text) : Type 0 where
  pub some_text : is_empty route ≡ false
  pub is_line : IsLine route

abbrev pub route_lines : List Text → Text
route_lines [] = []
route_lines (r ∷ rs) = r ++ b'\n' ∷ route_lines rs

contents_onto-route_lines :
    (acc : Text) (repos : Repos) → contents_onto acc repos ≡ acc ++ route_lines (keys repos)
unfolding contents_onto
contents_onto-route_lines acc [] = sym (append-nil acc)
contents_onto-route_lines acc ((route, r) ∷ repos) =
    contents_onto-route_lines (acc ++ route ++ codes "\n") repos ∙ simp append_assoc

scan_lines-route_lines : (rs : List Text) → All IsRoute rs → scan_lines (route_lines rs) ≡ rs
unfolding scan_lines lines_of split
scan_lines-route_lines [] h = refl
scan_lines-route_lines (r ∷ rs) h =
    scan_lines-cons r (route_lines rs) h.0.is_line ∙ ap (◌∷◌ r) (scan_lines-route_lines rs h.1)

lookup-read_routes :
    (u : User) (acc : Repos) (rs : List Text) (k : Text)
    → All IsRoute rs
    → lookup k (read_routes u acc rs) ≡ (if has rs k then some (repository u k) else lookup k acc)
unfolding read_routes
lookup-read_routes u acc [] k h = refl
lookup-read_routes u acc (r ∷ rs) k h = ground (
  arith,
  h.0.some_text,
  lookup-read_routes u (insert r (repository u r) acc) rs k h.1,
  lookup-insert r k (repository u r) acc,
  text_eq_iff r k,
)

module _ (m : Machine) (lawful : IsLawful m) (u : User) (is_user : m.current_user ≡ done u) where
  -- A file that was written holds what was written.
  file-write_file :
      (path c : Text) (w : m.World)
      → (write_file m path c w).0 ≡ ok tt
      → m.file (write_file m path c w).1 path ≡ some c
  unfolding write_file create_leading_dirs
  file-write_file path c w e =
      let made =
        wrapping (codes "error creating parent directories: ") (call (m.mkdir_all (dir path))) in
      let put = wrapping (codes "could not write file: ") (call (m.write_file path c)) in
      let (_, a, b) = >>=-eq-ok made (λ _. put) w e in
      ap (λ (s : Outcome (Unit {0}) × m.World). m.file s.1 path) (>>=-ok made (λ _. put) w a)
      ∙ lawful.write_file_done path c (made w).1 (
          wrapped-outcome-eq-ok (codes "could not write file: ") (m.write_file path c (made w).1).0
            b)

  -- The repositories that are read from a file of these lines.
  get_repositories-read :
      (rs : List Text) (w : m.World) (c : Text)
      → All IsRoute rs
      → m.file w (route_file u) ≡ some (route_lines rs)
      → (m.open_read (route_file u) w).0 ≡ done c
      → (get_repositories m w).0 ≡ ok (read_routes u [] rs)
  unfolding get_repositories read_file_lines
  get_repositories-read rs w c h on_disk opened =
      let content : some c ≡ some (route_lines rs) =
        sym (lawful.open_read_done (route_file u) w c opened) ∙ on_disk in
      ground (arith, is_user, opened, content, scan_lines-route_lines rs h)

  pub user_ok : (w : m.World) → user m w ≡ (ok u, w)
  user_ok w = ground (arith, is_user)

  pub file-write_all_routes :
      (repos : Repos) (w : m.World)
      → (write_all_routes m repos w).0 ≡ ok tt
      → m.file (write_all_routes m repos w).1 (route_file u) ≡ some (route_lines (keys repos))
  unfolding write_all_routes
  file-write_all_routes repos w e =
      let put : User → M m.World (Unit {0}) =
        λ v. write_file m (route_file v) (contents_onto [] repos) in
      let step : (user m >>= put) w ≡ put u w =
        >>=-ok (user m) put w (ap (λ (s : Outcome User × m.World). s.0) (user_ok w)) in
      ap (λ (s : Outcome (Unit {0}) × m.World). m.file s.1 (route_file u)) step
      ∙ file-write_file (route_file u) (contents_onto [] repos) w
          (sym (ap (λ (s : Outcome (Unit {0}) × m.World). s.0) step) ∙ e)
      ∙ ap some (contents_onto-route_lines [] repos)

  -- For a known user, lawful machine and routes that the file can hold: if WriteAllRoutes succeeds
  -- and the file can then be opened, GetRepositories gives a map that has exactly the routes
  -- written, each with the directories that belong to it.
  pub get_repositories-write_all_routes :
      (repos : Repos) (w : m.World) (c : Text)
      → All IsRoute (keys repos)
      → (write_all_routes m repos w).0 ≡ ok tt
      → (m.open_read (route_file u) (write_all_routes m repos w).1).0 ≡ done c
      → (back : Repos) × ((get_repositories m (write_all_routes m repos w).1).0 ≡ ok back)
        × ((k : Text)
            → lookup k back ≡ (if has (keys repos) k then some (repository u k) else none))
  unfolding lookup
  get_repositories-write_all_routes repos w c h e opened = (
    read_routes u [] (keys repos),
    get_repositories-read (keys repos) (write_all_routes m repos w).1 c h
        (file-write_all_routes repos w e) opened,
    λ k. lookup-read_routes u [] (keys repos) k h,
  )
