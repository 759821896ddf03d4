-- ===== src/Web/Routing.antt =====
-- Which file answers which URL: those that the provider of bundles writes.
use git_bundle_server.Base.{
  ℕ, Text, codes, Bool, true, false, List, [], ◌∷◌, ◌++◌, some, ◌≡◌, refl, sym, ap, ◌∙◌, arith,
  text_eq, text_eq_iff, text_Eq, nat_Eq, nat_eq, ok, ℤ, Bool-cases, inl, inr,
}
use git_bundle_server.Base.Assoc.{has, has-append}
use git_bundle_server.Bundles.BundleList.{bundle_name, new_bundle}
use git_bundle_server.Bundles.ListFile.{
  bundle_list_filename, repo_bundle_list_filename, list_path, repo_list_path, request,
  request_with_slash,
}
use git_bundle_server.Bundles.ListFile.Uris.{
  route_of, join-route_of, join-route_of-name, bundle_name-is_elem,
}
use git_bundle_server.Core.Repo.{Repository}
use git_bundle_server.Go.Decimal.{show_int}
use git_bundle_server.Go.Path.{slash, join, is_elem}
use git_bundle_server.Go.Path.Laws.{
  Elems, absolute, absolute-concat, fields-absolute, fields-append, is_elem-no_slash,
  is_elem-ne_empty,
}
use git_bundle_server.Go.Strings.{fields, is_empty, split, drop_empty}
use git_bundle_server.Web.{parse_route, route_elements, file_to_serve, ends_in_slash, choose_list}

-- A name with a dot is not one without.
ne-dot : (s t : Text) → has s b'.' ≡ true → has t b'.' ≡ false → text_eq s t ≡ false
ne-dot s t h k = elim (Bool-cases (text_eq s t)) [
  | inl same ↦ ground (arith, ap (λ x. has x b'.') ((text_eq_iff s t).0 same), h, k)
  | inr differ ↦ differ
]

bundle_name-dot : (z : ℤ) → has (bundle_name z) b'.' ≡ true
unfolding bundle_name
bundle_name-dot z = ground (
  arith,
  has-append (codes "bundle-") (show_int z ++ codes ".bundle") b'.',
  has-append (show_int z) (codes ".bundle") b'.',
)

ends_in_slash-append : (s : Text) (c : ℕ) → ends_in_slash (s ++ c ∷ []) ≡ ok (nat_eq c slash)
unfolding ends_in_slash
ends_in_slash-append [] c = refl
ends_in_slash-append (d ∷ []) c = refl
ends_in_slash-append (d ∷ e ∷ s) c = ends_in_slash-append (e ∷ s) c

ends_in_slash-no_slash :
    (c : Text) → has c slash ≡ false → is_empty c ≡ false → ends_in_slash c ≡ ok false
unfolding ends_in_slash
ends_in_slash-no_slash [] h k = cc
ends_in_slash-no_slash (x ∷ []) h k = ground arith
ends_in_slash-no_slash (x ∷ y ∷ s) h k = ends_in_slash-no_slash (y ∷ s) (ground arith) refl

-- A path ends as its last element does, in no slash.
ends_in_slash-elem :
    (s c : Text)
    → has c slash ≡ false
    → is_empty c ≡ false
    → ends_in_slash (s ++ slash ∷ c) ≡ ok false
unfolding ends_in_slash
ends_in_slash-elem [] [] h k = cc
ends_in_slash-elem [] (x ∷ c) h k = ends_in_slash-no_slash (x ∷ c) h k
ends_in_slash-elem (d ∷ []) c h k = ends_in_slash-elem [] c h k
ends_in_slash-elem (d ∷ e ∷ s) c h k = ends_in_slash-elem (e ∷ s) c h k

module _ (o r : Text) (o_elem : is_elem o ≡ true) (r_elem : is_elem r ≡ true) where
  elems : Elems (o ∷ r ∷ [])
  elems = (o_elem, (r_elem, tt))

  parse_route-two :
      (path : Text) → fields slash path ≡ o ∷ r ∷ [] → parse_route path ≡ ok (o, r, [])
  unfolding parse_route
  parse_route-two path h = ap route_elements h

  parse_route-three :
      (path f : Text) → fields slash path ≡ o ∷ r ∷ f ∷ [] → parse_route path ≡ ok (o, r, f)
  unfolding parse_route
  parse_route-three path f h = ap route_elements h

  fields-request : fields slash (absolute (o ∷ r ∷ [])) ≡ o ∷ r ∷ []
  fields-request = fields-absolute o (r ∷ []) elems

  file_to_serve-list :
      (repo : Repository) (path : Text) (b : Bool)
      → ends_in_slash path ≡ ok b
      → file_to_serve repo path [] ≡ choose_list repo (ok b)
  unfolding file_to_serve
  file_to_serve-list repo path b h = ap (choose_list repo) h

  file_to_serve-bundle :
      (repo : Repository) (path : Text) (k : ℤ)
      → file_to_serve repo path (bundle_name k)
        ≡ ok (some (join (repo.web_dir ∷ bundle_name k ∷ [])))
  unfolding file_to_serve
  file_to_serve-bundle repo path k =
      rw
        (
          is_elem-ne_empty (bundle_name k) (bundle_name-is_elem k),
          ne-dot (bundle_name k) bundle_list_filename (bundle_name-dot k) refl,
          ne-dot (bundle_name k) repo_bundle_list_filename (bundle_name-dot k) refl,
        )
        refl

  -- For a repository whose route is an owner and a repository, each one element of a path: the URI
  -- that NewBundle gives a bundle is parsed as a route of that repository and is answered with the
  -- file that NewBundle names; the requests of the two bundle lists are parsed as that route, and
  -- each is answered with the list that WriteBundleList writes for it.
  pub serve_written :
      (repo : Repository) (k : ℤ)
      → repo.route ≡ route_of o r o_elem r_elem
      → (parse_route (new_bundle repo k).uri ≡ ok (o, r, bundle_name k))
        × (file_to_serve repo (new_bundle repo k).uri (bundle_name k)
            ≡ ok (some (new_bundle repo k).filename))
        × (parse_route (request repo) ≡ ok (o, r, []))
        × (file_to_serve repo (request repo) [] ≡ ok (some (repo_list_path repo)))
        × (parse_route (request_with_slash repo) ≡ ok (o, r, []))
        × (file_to_serve repo (request_with_slash repo) [] ≡ ok (some (list_path repo)))
  unfolding new_bundle drop_empty split
  serve_written repo k at_route =
      let asked : request repo ≡ absolute (o ∷ r ∷ []) =
        ap (λ (t : Text). join (codes "/" ∷ t ∷ [])) at_route ∙ join-route_of o r o_elem r_elem in
      let uri : (new_bundle repo k).uri ≡ absolute (o ∷ r ∷ []) ++ slash ∷ bundle_name k =
        ap (λ (t : Text). join (codes "/" ∷ t ∷ bundle_name k ∷ [])) at_route
        ∙ join-route_of-name o r o_elem r_elem (bundle_name k) (bundle_name-is_elem k) in
      let named : fields slash (new_bundle repo k).uri ≡ o ∷ r ∷ bundle_name k ∷ [] =
        ap (fields slash) (uri ∙ absolute-concat o (r ∷ []) (bundle_name k))
        ∙ fields-absolute o (r ∷ bundle_name k ∷ [])
            (o_elem, (r_elem, (bundle_name-is_elem k, tt))) in
      let slashed : fields slash (request_with_slash repo) ≡ o ∷ r ∷ [] =
        ap (λ (t : Text). fields slash (t ++ slash ∷ [])) asked
        ∙ fields-append (absolute (o ∷ r ∷ [])) []
        ∙ ap (λ (l : List Text). l ++ []) fields-request in
      (
        parse_route-three (new_bundle repo k).uri (bundle_name k) named,
        file_to_serve-bundle repo (new_bundle repo k).uri k,
        parse_route-two (request repo) (ap (fields slash) asked ∙ fields-request),
        file_to_serve-list repo (request repo) false (
            ap ends_in_slash (asked ∙ sym (absolute-concat o [] r))
            ∙ ends_in_slash-elem (absolute (o ∷ [])) r (is_elem-no_slash r r_elem)
                (is_elem-ne_empty r r_elem)),
        parse_route-two (request_with_slash repo) slashed,
        file_to_serve-list repo (request_with_slash repo) true
            (ends_in_slash-append (request repo) slash),
      )
