-- ===== src/Core/Repo/Changes.antt =====
-- `RemoveRoute` and `CreateRepository` change the registry by the one route they are given.
use git_bundle_server.Base.{
  true, false, ◌||◌, Text, codes, [], ◌∷◌, Option, some, none, ◌≡◌, refl, ◌∙◌, ap, sym, arith,
  text_Eq, ◌==◌, text_eq, All, M, Outcome, ok, err, halt, ◌>>=◌, >>=-eq-ok, >>=-ok, return,
  wrapping, wrapped, if◌then◌else◌, Bool-cases, inl, inr,
}
use git_bundle_server.Base.Assoc.{
  has, keys, lookup, insert, delete, lookup-has, has-keys-insert, has-keys-delete,
}
use git_bundle_server.Core.Repo.{
  Repository, Repos, repository, route_file, user, write_all_routes, get_repositories, remove_route,
  remove_found, create_repository, create_found, add_repository, replaced, replacing,
}
use git_bundle_server.Core.Repo.Routes.{IsRoute, user_ok, get_repositories-write_all_routes}
use git_bundle_server.Machine.{Machine, IsLawful, User, done, call}

All-keys-delete :
    (P : Text → Type 0) (k : Text) (m : Repos) → All P (keys m) → All P (keys (delete k m))
unfolding delete
All-keys-delete P k [] h = tt
All-keys-delete P k ((j, r) ∷ m) h = elim (Bool-cases (text_eq j k)) [
  | inl same ↦ rw same (All-keys-delete P k m h.1)
  | inr differ ↦ rw differ (h.0, All-keys-delete P k m h.1)
]

wrapped-ok-ok : {A : Type 0} (p : Text) (o : Outcome A) {x : A} → wrapped p o ≡ ok x → o ≡ ok x
wrapped-ok-ok p (ok a) h = h
wrapped-ok-ok p (err e) h = cc
wrapped-ok-ok p (halt e) h = cc

module _ (m : Machine) (lawful : IsLawful m) (u : User) (is_user : m.current_user ≡ done u) where
  remove_found-eq-ok :
      (route : Text) (repos : Repos) (found : Option Repository) (w : m.World)
      → found ≡ lookup route repos
      → (remove_found m route repos found w).0 ≡ ok tt
      → (has (keys repos) route ≡ true)
        × (remove_found m route repos found w ≡ write_all_routes m (delete route repos) w)
  remove_found-eq-ok route repos none w f h = cc
  remove_found-eq-ok route repos (some r) w f h =
      (ground (arith, f, (lookup-has route repos).1), refl)

  remove_route-eq-ok :
      (route : Text) (repos : Repos) (w : m.World)
      → (get_repositories m w).0 ≡ ok repos
      → (remove_route m route w).0 ≡ ok tt
      → (has (keys repos) route ≡ true)
        × (remove_route m route w
            ≡ write_all_routes m (delete route repos) (get_repositories m w).1)
  unfolding remove_route
  remove_route-eq-ok route repos w read h =
      let rest : Repos → M m.World (Unit {0}) = λ rs. remove_found m route rs (lookup route rs) in
      let loaded = wrapping (codes "failed to parse routes file: ") (get_repositories m) in
      let step = >>=-ok loaded rest w (ap (wrapped (codes "failed to parse routes file: ")) read) in
      let (there, wrote) =
        remove_found-eq-ok route repos (lookup route repos) (get_repositories m w).1 refl
          (sym (ap (λ (s : Outcome (Unit {0}) × m.World). s.0) step) ∙ h) in
      (there, step ∙ wrote)

  -- For a known user, a lawful machine and registered routes that the file can hold: if RemoveRoute
  -- succeeds, the route was registered, and GetRepositories, once the file can be opened, gives
  -- every other route that was registered and no more.
  pub get_repositories-remove_route :
      (route : Text) (repos : Repos) (w : m.World) (c : Text)
      → (get_repositories m w).0 ≡ ok repos
      → All IsRoute (keys repos)
      → (remove_route m route w).0 ≡ ok tt
      → (m.open_read (route_file u) (remove_route m route w).1).0 ≡ done c
      → (has (keys repos) route ≡ true)
        × ((back : Repos) × ((get_repositories m (remove_route m route w).1).0 ≡ ok back)
            × ((k : Text)
                → lookup k back ≡ (
                    if route == k
                    then none
                    else if has (keys repos) k
                    then some (repository u k)
                    else none)))
  get_repositories-remove_route route repos w c read h e opened =
      let (there, step) = remove_route-eq-ok route repos w read e in
      let kept = delete route repos in
      let (back, got, entries) =
        get_repositories-write_all_routes m lawful u is_user kept (get_repositories m w).1 c
          (All-keys-delete IsRoute route repos h)
          (sym (ap (λ (s : Outcome (Unit {0}) × m.World). s.0) step) ∙ e)
          (sym (ap (λ (s : Outcome (Unit {0}) × m.World). (m.open_read (route_file u) s.1).0) step)
            ∙ opened) in
      (
        there,
        (
          back,
          ap (λ (s : Outcome (Unit {0}) × m.World). (get_repositories m s.1).0) step ∙ got,
          λ k. ground (arith, entries k, has-keys-delete route k repos),
        ),
      )

  -- Adding a route writes the map that has it as well, from the world behind `MkdirAll`.
  add_repository-eq-ok :
      (route : Text) (repos : Repos) (w : m.World) (r : Repository)
      → (add_repository m u route repos w).0 ≡ ok r
      → (v : m.World) × ((write_all_routes m (insert route (repository u route) repos) v).0 ≡ ok tt)
        × (add_repository m u route repos w ≡ (
          ok (repository u route),
          (write_all_routes m (insert route (repository u route) repos) v).1,
        ))
  unfolding add_repository
  add_repository-eq-ok route repos w r h =
      let all = insert route (repository u route) repos in
      let made =
        wrapping (codes "failed to create web directory: ")
          (call (m.mkdir_all (repository u route).web_dir)) in
      let done_with : Unit {0} → M m.World Repository = λ _. return (repository u route) in
      let put = replacing m (write_all_routes m all) in
      let rest : Unit {0} → M m.World Repository = λ _. put >>= done_with in
      let (_, a, b) = >>=-eq-ok made rest w h in
      let (_, c, d) = >>=-eq-ok put done_with (made w).1 b in
      (
        (made w).1,
        replaced-ok (write_all_routes m all (made w).1).0 c,
        >>=-ok made rest w a ∙ >>=-ok put done_with (made w).1 c,
      )
    where
      replaced-ok : (o : Outcome (Unit {0})) {x : Unit {0}} → replaced m o ≡ ok x → o ≡ ok tt
      replaced-ok (ok a) h = refl
      replaced-ok (err e) h = cc
      replaced-ok (halt e) h = cc

  create_repository-new :
      (route : Text) (repos : Repos) (w : m.World)
      → (get_repositories m w).0 ≡ ok repos
      → has (keys repos) route ≡ false
      → create_repository m route w ≡ add_repository m u route repos (get_repositories m w).1
  unfolding create_repository
  create_repository-new route repos w read h =
      let loaded = wrapping (codes "failed to parse routes file: ") (get_repositories m) in
      let found : User → Repos → M m.World Repository =
        λ v rs. create_found m v route rs (lookup route rs) in
      let rest : User → M m.World Repository = λ v. loaded >>= found v in
      >>=-ok (user m) rest w
        (ap (λ (s : Outcome User × m.World). s.0) (user_ok m lawful u is_user w))
      ∙ >>=-ok loaded (found u) w (ap (wrapped (codes "failed to parse routes file: ")) read)
      ∙ ap (λ o. create_found m u route repos o (get_repositories m w).1)
          ((lookup-has route repos).1 h)

  -- For a known user, a lawful machine and routes that the file can hold: if CreateRepository of a
  -- route that is not registered succeeds, it gives the directories that belong to the route, and
  -- GetRepositories, once the file can be opened, gives the route and those registered before, and
  -- no more.
  pub get_repositories-create_repository :
      (route : Text) (repos : Repos) (w : m.World) (c : Text) (r : Repository)
      → (get_repositories m w).0 ≡ ok repos
      → All IsRoute (keys (insert route (repository u route) repos))
      → has (keys repos) route ≡ false
      → (create_repository m route w).0 ≡ ok r
      → (m.open_read (route_file u) (create_repository m route w).1).0 ≡ done c
      → (r ≡ repository u route)
        × ((back : Repos) × ((get_repositories m (create_repository m route w).1).0 ≡ ok back)
            × ((k : Text)
                → lookup k back
                  ≡ (if route == k || has (keys repos) k then some (repository u k) else none)))
  get_repositories-create_repository route repos w c r read h new e opened =
      let all = insert route (repository u route) repos in
      let begun = create_repository-new route repos w read new in
      let (v, wrote, step) =
        add_repository-eq-ok route repos (get_repositories m w).1 r
          (sym (ap (λ (s : Outcome Repository × m.World). s.0) begun) ∙ e) in
      let whole = begun ∙ step in
      let (back, got, entries) =
        get_repositories-write_all_routes m lawful u is_user all v c h wrote (
          sym (ap (λ (s : Outcome Repository × m.World). (m.open_read (route_file u) s.1).0) whole)
          ∙ opened) in
      (
        ground (arith, e, ap (λ (s : Outcome Repository × m.World). s.0) whole),
        (
          back,
          ap (λ (s : Outcome Repository × m.World). (get_repositories m s.1).0) whole ∙ got,
          λ k. ground (arith, entries k, has-keys-insert route k (repository u route) repos),
        ),
      )
