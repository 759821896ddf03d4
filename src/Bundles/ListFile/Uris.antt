-- ===== src/Bundles/ListFile/Uris.antt =====
-- The bundle list files: no panic, and each relative URI leads back to its bundle.
use mathlib.Core.List.{append_assoc}
use git_bundle_server.Base.{
  ℕ, zero, suc, ◌+◌, ◌%◌, ◌/◌, Bool, true, false, Text, codes, List, [], ◌∷◌, ◌++◌, ◌≡◌, ◌≢◌, refl,
  ◌∙◌, ap, sym, arith, length, length-append, nat_Eq, text_Eq, text_eq, text_eq_iff, ℤ, pos, negsuc,
  int_Eq, eq_ℤ, eq_ℤ_iff,
}
use git_bundle_server.Base.Assoc.{has, keys, has-append}
use git_bundle_server.Bundles.BundleList.{
  Bundles, BundleList, bundle_name, new_bundle, sort, sorted_creation_tokens,
}
use git_bundle_server.Bundles.BundleList.Sorted.{has-sort}
use git_bundle_server.Bundles.ListFile.{bundle_at, entry, entries, uri_base, list_header, list_file}
use git_bundle_server.Core.Repo.{Repository}
use git_bundle_server.Go.Decimal.{show_int, show_nat, digits_onto}
use git_bundle_server.Go.Path.{slash, join, is_elem}
use git_bundle_server.Go.Path.Laws.{
  Elems, absolute, absolute-concat, dir-absolute, clean-fields, fields-append, is_elem-no_slash,
  is_elem-ne_empty, fields-join_with,
}
use git_bundle_server.Go.Strings.{
  trim_prefix-append, split, drop_empty, join_with, fields, is_empty,
}

has-digits_onto :
    (f n : ℕ) (rest : Text) → has rest slash ≡ false → has (digits_onto f n rest) slash ≡ false
unfolding digits_onto
has-digits_onto zero n rest h = h
has-digits_onto (suc f) n rest h =
    ground (arith, has-digits_onto f (n / 10) ((b'0' + n % 10) ∷ rest))

has-show_int : (z : ℤ) → has (show_int z) slash ≡ false
unfolding show_int show_nat
has-show_int (pos n) = has-digits_onto (suc n) n [] refl
has-show_int (negsuc n) = ground (arith, has-digits_onto (suc (n + 1)) (n + 1) [] refl)

-- A bundle's file name is one element of a path.
pub bundle_name-is_elem : (z : ℤ) → is_elem (bundle_name z) ≡ true
unfolding is_elem bundle_name text_eq
bundle_name-is_elem z = ground (
  arith,
  has-append (codes "bundle-") (show_int z ++ codes ".bundle") slash,
  has-append (show_int z) (codes ".bundle") slash,
  has-show_int z,
)

not-eq-append : (p s : Text) → p ≢ [] → text_eq s (p ++ s) ≡ false
not-eq-append [] s h = absurd (h refl)
not-eq-append (c ∷ p) s h = ground (arith, text_eq_iff s (c ∷ (p ++ s)), longer)
  where
    longer : s ≢ c ∷ (p ++ s)
    longer e = omega (arith, ap length e, length-append p s)

int_refl : (k : ℤ) → eq_ℤ k k ≡ true
int_refl k = (eq_ℤ_iff k k).1 refl

-- The entries of tokens, each with its relative URI.
abbrev pub entry_texts : (ℤ → Text) → List ℤ → Text
entry_texts relative [] = []
entry_texts relative (k ∷ ks) = entry k (relative k) ++ entry_texts relative ks

entries-entry_texts :
    (base : Text) (bundles : Bundles) (relative : ℤ → Text) (ks : List ℤ)
    → base ≢ []
    → ((k : ℤ) → has ks k ≡ true → (bundle_at k bundles).uri ≡ base ++ relative k)
    → entries base bundles ks ≡ (entry_texts relative ks, false)
unfolding entries
entries-entry_texts base bundles relative [] ne h = refl
entries-entry_texts base bundles relative (k ∷ ks) ne h = rw (
  h k (ground (arith, int_refl k)),
  trim_prefix-append base (relative k),
  not-eq-append base (relative k) ne,
  entries-entry_texts base bundles relative ks ne (λ j m. h j (ground arith)),
)

list_file-entry_texts :
    (list : BundleList) (request base : Text) (relative : ℤ → Text)
    → uri_base request ≡ base
    → base ≢ []
    → ((k : ℤ)
        → has (sorted_creation_tokens list) k ≡ true
        → (bundle_at k list.bundles).uri ≡ base ++ relative k)
    → list_file list request
      ≡ (list_header list ++ entry_texts relative (sorted_creation_tokens list), false)
unfolding list_file
list_file-entry_texts list request base relative e ne h =
    ap (λ (es : Text × Bool). (list_header list ++ es.0, es.1))
      (ap (λ b. entries b list.bundles (sorted_creation_tokens list)) e
        ∙ entries-entry_texts base list.bundles relative (sorted_creation_tokens list) ne h)

-- A route of an owner and a repository.
module _ (o r : Text) (o_elem : is_elem o ≡ true) (r_elem : is_elem r ≡ true) where
  abbrev pub route_of : Text
  route_of = o ++ slash ∷ r

  elems : Elems (o ∷ r ∷ [])
  elems = (o_elem, (r_elem, tt))

  fields-route_of : fields slash route_of ≡ o ∷ r ∷ []
  unfolding join_with
  fields-route_of = fields-join_with o (r ∷ []) elems

  route_of-ne_empty : is_empty route_of ≡ false
  route_of-ne_empty = ground (arith, is_elem-ne_empty o o_elem)

  pub join-route_of : join (codes "/" ∷ route_of ∷ []) ≡ absolute (o ∷ r ∷ [])
  unfolding join drop_empty join_with split
  join-route_of = rw route_of-ne_empty (
      clean-fields (slash ∷ slash ∷ route_of) (o ∷ r ∷ []) refl
        (fields-append (slash ∷ []) route_of ∙ fields-route_of) elems)

  pub join-route_of-name :
      (name : Text)
      → is_elem name ≡ true
      → join (codes "/" ∷ route_of ∷ name ∷ []) ≡ absolute (o ∷ r ∷ []) ++ slash ∷ name
  unfolding join drop_empty join_with split
  join-route_of-name name h =
      rw (route_of-ne_empty, is_elem-ne_empty name h)
        (clean-fields (slash ∷ slash ∷ (route_of ++ slash ∷ name)) (o ∷ r ∷ name ∷ []) refl
            (fields-append (slash ∷ []) (route_of ++ slash ∷ name)
              ∙ fields-append route_of name
              ∙ ap (λ l. l ++ fields slash name) fields-route_of
              ∙ ap (λ l. o ∷ r ∷ l) (fields-join_with name [] (h, tt)))
            (o_elem, (r_elem, (h, tt)))
          ∙ sym (absolute-concat o (r ∷ []) name))

  base_with_slash :
      uri_base (join (codes "/" ∷ route_of ∷ []) ++ codes "/") ≡ absolute (o ∷ r ∷ []) ++ slash ∷ []
  base_with_slash =
      rw join-route_of (ap (λ t. t ++ codes "/") (dir-absolute o (r ∷ []) [] elems refl))

  base_without_slash : uri_base (join (codes "/" ∷ route_of ∷ [])) ≡ absolute (o ∷ []) ++ slash ∷ []
  unfolding join_with
  base_without_slash =
      rw join-route_of
        (ap (λ t. t ++ codes "/") (dir-absolute o [] r (o_elem, tt) (is_elem-no_slash r r_elem)))

  -- For a repository whose route is an owner and a repository, each one proper element of a path,
  -- and a list whose bundles have the URIs that `NewBundle` gives them: neither list file panics.
  -- In the one for requests with a trailing slash a bundle's URI is its file's name, in the other
  -- it is the repository's name, a slash and that. Both name the tokens in ascending order.
  pub list_file_uris :
      (repo : Repository) (list : BundleList)
      → repo.route ≡ route_of
      → ((k : ℤ)
          → has (keys list.bundles) k ≡ true
          → (bundle_at k list.bundles).uri ≡ (new_bundle repo k).uri)
      → (list_file list (join (codes "/" ∷ route_of ∷ []) ++ codes "/")
          ≡ (list_header list ++ entry_texts bundle_name (sorted_creation_tokens list), false))
        × (list_file list (join (codes "/" ∷ route_of ∷ [])) ≡ (
          list_header list
              ++ entry_texts (λ k. r ++ slash ∷ bundle_name k) (sorted_creation_tokens list),
          false,
        ))
  unfolding new_bundle sorted_creation_tokens join_with
  list_file_uris repo list at_route own =
      let uri_is : (k : ℤ)
          → has (sort (keys list.bundles)) k ≡ true
          → (bundle_at k list.bundles).uri ≡ absolute (o ∷ r ∷ []) ++ slash ∷ bundle_name k =
        λ k h.
          own k (sym (has-sort (keys list.bundles) k) ∙ h)
          ∙ rw at_route (join-route_of-name (bundle_name k) (bundle_name-is_elem k)) in
      (
        list_file-entry_texts list _ (absolute (o ∷ r ∷ []) ++ slash ∷ []) bundle_name
            base_with_slash (λ e. cc)
            (λ k h.
              uri_is k h ∙ sym (append_assoc (absolute (o ∷ r ∷ [])) (slash ∷ []) (bundle_name k))),
        list_file-entry_texts list _ (absolute (o ∷ []) ++ slash ∷ [])
            (λ k. r ++ slash ∷ bundle_name k) base_without_slash (λ e. cc)
            (λ k h. uri_is k h ∙ simp append_assoc),
      )
