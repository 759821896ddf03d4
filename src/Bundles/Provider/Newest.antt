-- ===== src/Bundles/Provider/Newest.antt =====
-- `CollapseList`: the four newest bundles stay, and one bundle stands for all the others.
use git_bundle_server.Base.{
  ◌-◌, ◌+◌, ◌<◌, true, false, ◌||◌, List, [], ◌∷◌, ◌++◌, none, some, if◌then◌else◌, length, drop,
  ◌≡◌, refl, ◌∙◌, sym, ap, arith, All, ℤ, pos, lt_ℤ, eq_ℤ, eq_ℤ_iff, ◌≤ℤ◌, int_Eq, ok, return,
  >>=-eq-ok, take-append-drop, length-take, ◌>>=◌, le_ℤ_refl, subst,
}
use git_bundle_server.Base.Assoc.{
  keys, has, Distinct, insert, delete, lookup, lookup-insert, has-append, lookup-has, length-insert,
  length-keys, insert-Distinct, delete-Distinct,
}
use git_bundle_server.Bundles.BundleList.{
  Bundles, BundleList, new_bundle, sort, sorted_creation_tokens,
}
use git_bundle_server.Bundles.BundleList.Sorted.{Ascending, has-sort, length-sort, sort-Ascending}
use git_bundle_server.Bundles.ListFile.{bundle_at}
use git_bundle_server.Bundles.Provider.{
  Collapsing, low_keys, before_loop, replace_collapsed, collapse_keys, collapse_list,
}
use git_bundle_server.Bundles.Provider.Collapse.{
  IsWellFormed, delete_all, max_all, Own, lookup-delete_all, collapse_keys_lem, max_all-greatest,
  Ascending-append, length-delete_all, Distinct-of-Ascending,
}
use git_bundle_server.Core.Repo.{Repository}
use git_bundle_server.Git.{create_bundle_from_refs}
use git_bundle_server.Machine.{Machine}

-- The collapsed keys `k ∷ ks`, the kept ones `high`, and the largest collapsed one, `top`.
module _ (bundles : Bundles) (wf : IsWellFormed bundles) (k : ℤ) (ks high : List ℤ)
    (splits : (k ∷ ks) ++ high ≡ sort (keys bundles)) where
  abbrev top : ℤ
  top = max_all (k ∷ ks) (pos 0)

  has-splits : (j : ℤ) → (has (k ∷ ks) j || has high j) ≡ has (keys bundles) j
  has-splits j =
      sym (has-append (k ∷ ks) high j) ∙ ap (λ l. has l j) splits ∙ has-sort (keys bundles) j

  low-Ascending :
      Ascending (k ∷ ks) × ((i j : ℤ) → has (k ∷ ks) i ≡ true → has high j ≡ true → lt_ℤ i j ≡ true)
  low-Ascending =
      Ascending-append (k ∷ ks) high
        (subst Ascending (sym splits) (sort-Ascending (keys bundles) wf.distinct))

  pub top_facts : (has (k ∷ ks) top ≡ true) × ((j : ℤ) → has (k ∷ ks) j ≡ true → j ≤ℤ top)
  top_facts =
      max_all-greatest k ks (pos 0) low-Ascending.0
        (wf.nonnegative k (ground (arith, has-splits k, eq_ℤ_iff k k)))

  pub lookup_kept :
      (j : ℤ)
      → lookup j (delete_all (k ∷ ks) bundles) ≡ (if lt_ℤ top j then lookup j bundles else none)
  lookup_kept j =
      lookup-delete_all (k ∷ ks) j bundles
      ∙ ground (
        arith,
        top_facts.1 j,
        low-Ascending.1 top j top_facts.0,
        has-splits j,
        lookup-has j bundles,
      )

  Own-low :
      (js : List ℤ)
      → ((j : ℤ) → has js j ≡ true → has (keys bundles) j ≡ true)
      → All (Own bundles) js
  Own-low [] h = tt
  Own-low (j ∷ js) h = (
    ground (arith, lookup-has j bundles, h j, eq_ℤ_iff j j, wf.own_token j (bundle_at j bundles)),
    Own-low js (λ i m. h i (ground arith)),
  )

  pub low-Own : All (Own bundles) (k ∷ ks)
  low-Own = Own-low (k ∷ ks) (λ j h. ground (arith, has-splits j))

  pub length_kept : length bundles ≡ length (k ∷ ks) + length (delete_all (k ∷ ks) bundles)
  length_kept =
      length-delete_all (k ∷ ks) bundles (Distinct-of-Ascending (k ∷ ks) low-Ascending.0)
        wf.distinct (λ j h. ground (arith, has-splits j))

  pub fresh_top : has (keys (delete_all (k ∷ ks) bundles)) top ≡ false
  fresh_top =
      (lookup-has top (delete_all (k ∷ ks) bundles)).0 (lookup_kept top ∙ rw (le_ℤ_refl top))

delete_all-Distinct :
    (ks : List ℤ) (bundles : Bundles)
    → Distinct (keys bundles)
    → Distinct (keys (delete_all ks bundles))
delete_all-Distinct [] bundles d = d
delete_all-Distinct (k ∷ ks) bundles d =
    delete_all-Distinct ks (delete k bundles) (delete-Distinct k bundles d)

-- What a successful collapse of more than five bundles went through.
collapse_list-eq-ok :
    (m : Machine) (repo : Repository) (list list' : BundleList) (w : m.World)
    → 5 < length list.bundles
    → (collapse_list m repo list w).0 ≡ ok list'
    → (c : Collapsing) × ((collapse_keys m (low_keys list) (before_loop list) w).0 ≡ ok c)
      × (list' ≡ record list {
        bundles = insert c.max_timestamp (new_bundle repo c.max_timestamp) c.bundles;
      })
unfolding collapse_list
collapse_list-eq-ok m repo list list' w h e =
    let e₁ : ((collapse_keys m (low_keys list) (before_loop list) >>= replace_collapsed m repo list)
          w).0
        ≡ ok list' =
      ground (arith, e) in
    let (c, looped, e₂) =
      >>=-eq-ok (collapse_keys m (low_keys list) (before_loop list)) (replace_collapsed m repo list)
        w e₁ in
    let (_, _, e₃) =
      >>=-eq-ok
        (create_bundle_from_refs m repo.repo_dir (new_bundle repo c.max_timestamp).filename c.refs)
        (λ _. return (record list {
          bundles = insert c.max_timestamp (new_bundle repo c.max_timestamp) c.bundles;
        }))
        (collapse_keys m (low_keys list) (before_loop list) w).1 e₂ in
    (c, looped, ground arith)

-- The result of a collapse: at the token `t` stands a new bundle, above it what stood there, and
-- below it nothing.
pub record IsCollapseOf (repo : Repository) (list list' : BundleList) (t : ℤ) : Type 0 where
  pub collapsed : has (keys list.bundles) t ≡ true
  pub found :
      (j : ℤ)
      → lookup j list'.bundles ≡ (
          if eq_ℤ t j
          then some (new_bundle repo t)
          else if lt_ℤ t j
          then lookup j list.bundles
          else none)
  pub size : length list'.bundles ≡ 5
  pub distinct : Distinct (keys list'.bundles)
  pub same_version : list'.version ≡ list.version
  pub same_mode : list'.mode ≡ list.mode
  pub same_heuristic : list'.heuristic ≡ list.heuristic

collapsed_low :
    (m : Machine) (repo : Repository) (list list' : BundleList) (w : m.World) (k : ℤ)
    (ks high : List ℤ)
    → (wf : IsWellFormed list.bundles) → (splits : (k ∷ ks) ++ high ≡ sort (keys list.bundles))
    → length (k ∷ ks) ≡ length list.bundles - 5 + 1
    → 5 < length list.bundles
    → (c : Collapsing) → (collapse_keys m (k ∷ ks) (before_loop list) w).0 ≡ ok c
    → list'
      ≡ record list { bundles = insert c.max_timestamp (new_bundle repo c.max_timestamp) c.bundles }
    → IsCollapseOf repo list list' (top list.bundles wf k ks high splits)
collapsed_low m repo list list' w k ks high wf splits size many c looped is_list =
    let t = top list.bundles wf k ks high splits in
    let rest = delete_all (k ∷ ks) list.bundles in
    let distinct =
      Distinct-of-Ascending (k ∷ ks) (low-Ascending list.bundles wf k ks high splits).0 in
    let (same, largest) =
      collapse_keys_lem m (k ∷ ks) (before_loop list) c w distinct
        (low-Own list.bundles wf k ks high splits) looped in
    let kept = lookup_kept list.bundles wf k ks high splits in
    let e : list' ≡ record list { bundles = insert t (new_bundle repo t) rest } = cc in
    rw e (record {
      collapsed = ground (
        arith,
        has-splits list.bundles wf k ks high splits t,
        (top_facts list.bundles wf k ks high splits).0,
      );
      found = λ j. rw (lookup-insert t j (new_bundle repo t) rest, kept j);
      size = omega (
        arith,
        length-insert t (new_bundle repo t) rest (fresh_top list.bundles wf k ks high splits),
        length_kept list.bundles wf k ks high splits,
      );
      distinct =
          insert-Distinct t (new_bundle repo t) rest
            (delete_all-Distinct (k ∷ ks) list.bundles wf.distinct);
      same_version = refl;
      same_mode = refl;
      same_heuristic = refl;
    })

IsCollapseOf-IsWellFormed :
    (repo : Repository) (list list' : BundleList) (t : ℤ)
    → IsWellFormed list.bundles
    → IsCollapseOf repo list list' t
    → IsWellFormed list'.bundles
unfolding new_bundle
IsCollapseOf-IsWellFormed repo list list' t wf c = record {
  own_token = λ k b e. ground (arith, c.found k, eq_ℤ_iff t k, wf.own_token k b);
  nonnegative = λ k h. ground (
    arith,
    c.found k,
    eq_ℤ_iff t k,
    lookup-has k list'.bundles,
    lookup-has k list.bundles,
    wf.nonnegative k,
    c.collapsed,
  );
  distinct = c.distinct;
}

-- A collapse of a well-formed list of more than five bundles that ends with no error leaves five:
-- at some token `t` of the old list a new bundle, the old bundles above `t`, and none below it. The
-- list stays well formed.
pub collapse_list-IsCollapseOf :
    (m : Machine) (repo : Repository) (list list' : BundleList) (w : m.World)
    → IsWellFormed list.bundles
    → 5 < length list.bundles
    → (collapse_list m repo list w).0 ≡ ok list'
    → (t : ℤ) × IsCollapseOf repo list list' t × IsWellFormed list'.bundles
unfolding sorted_creation_tokens
collapse_list-IsCollapseOf m repo list list' w wf many e = by_keys (low_keys list) refl
  where
    tokens : List ℤ
    tokens = sort (keys list.bundles)

    counted : length tokens ≡ length list.bundles
    counted = length-sort (keys list.bundles) ∙ length-keys list.bundles

    by_keys :
        (low : List ℤ)
        → low_keys list ≡ low
        → (t : ℤ) × IsCollapseOf repo list list' t × IsWellFormed list'.bundles
    by_keys [] is_low =
        absurd
          (omega (arith, length-take (length tokens - 5 + 1) tokens, counted, ap length is_low))
    by_keys (k ∷ ks) is_low =
        let n = length tokens - 5 + 1 in
        let splits = ap (λ l. l ++ drop n tokens) (sym is_low) ∙ take-append-drop n tokens in
        let (c, looped, is_list) = collapse_list-eq-ok m repo list list' w many e in
        let size : length (k ∷ ks) ≡ length list.bundles - 5 + 1 =
          omega (arith, length-take n tokens, counted, ap length is_low) in
        let result =
          collapsed_low m repo list list' w k ks (drop n tokens) wf splits size many c
            (rw is_low at looped) is_list in
        (
          top list.bundles wf k ks (drop n tokens) splits,
          result,
          IsCollapseOf-IsWellFormed repo list list' _ wf result,
        )
