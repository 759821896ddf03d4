-- ===== src/Bundles/Provider.antt =====
-- internal/bundles/bundles.go: incremental bundles and the collapse of a list.
pub mod Collapse
pub mod Newest
pub mod Bounds
use git_bundle_server.Base.{
  ℕ, ◌-◌, ◌+◌, Text, codes, Bool, true, false, List, [], ◌∷◌, ◌++◌, Option, none, some,
  if◌then◌else◌, leb, length, take, map, ℤ, ℤ.pos, lt_ℤ, int_Eq, text_Eq, Error, wrap, Outcome, ok,
  err, halt, M, return, bind_from, ◌>>=◌, ◌>>◌, wrapped, wrapping,
}
use git_bundle_server.Base.Assoc.{insert, delete, lookup}
use git_bundle_server.Bundles.BundleList.{
  Bundle, Bundles, BundleList, new_bundle, sorted_creation_tokens, create_distinct_bundle,
}
use git_bundle_server.Bundles.Header.{BundleHeader, get_bundle_header}
use git_bundle_server.Bundles.ListFile.{bundle_at}
use git_bundle_server.Core.Repo.{Repository}
use git_bundle_server.Git.{create_incremental_bundle, create_bundle_from_refs, update_bare_repo}
use git_bundle_server.Machine.{Machine}

abbrev pub parse_failed : Bundle → Text
parse_failed b = codes "failed to parse bundle file " ++ b.filename ++ codes ": "

-- `"^"+oid` for each OID of the header's refs
unfoldable pub negated : List (Text × Text) → List Text
negated [] = []
negated ((ref, oid) ∷ refs) = (b'^' ∷ oid) ∷ negated refs

-- `refs["refs/base/"+oid] = oid` for each OID of the header's refs
unfoldable pub add_base_refs : List (Text × Text) → List (Text × Text) → List (Text × Text)
add_base_refs refs [] = refs
add_base_refs refs ((ref, oid) ∷ more) =
    add_base_refs (insert (codes "refs/base/" ++ oid) oid refs) more

abbrev pub max_bundles : ℕ
max_bundles = 5

unfoldable pub max_token : ℤ → ℤ → ℤ
max_token token max_timestamp = if lt_ℤ max_timestamp token then token else max_timestamp

-- The variables of the loop of `CollapseList`.
pub record Collapsing : Type 0 where
  pub bundles : Bundles
  pub refs : List (Text × Text)
  pub max_timestamp : ℤ

-- The body of the loop of `CollapseList`, after the header of the bundle under `k` was read.
abbrev pub collapse_key : ℤ → Collapsing → BundleHeader → Collapsing
collapse_key k c header = record {
  bundles = delete k c.bundles;
  refs = add_base_refs c.refs header.refs;
  max_timestamp = max_token (bundle_at k c.bundles).creation_token c.max_timestamp;
}

-- The keys that the loop goes over, and its variables before it.
abbrev pub low_keys : BundleList → List ℤ
low_keys list =
    let tokens = sorted_creation_tokens list in take (length tokens - max_bundles + 1) tokens

abbrev pub before_loop : BundleList → Collapsing
before_loop list = record { bundles = list.bundles; refs = []; max_timestamp = pos 0 }

module _ (m : Machine) where
  open m use {World}

  unfoldable pub get_all_prereqs : Bundles → M World (List Text)
  get_all_prereqs [] = return []
  get_all_prereqs ((k, bundle) ∷ bundles) = do
    header ← wrapping (parse_failed bundle) (get_bundle_header m bundle.filename)
    prereqs ← get_all_prereqs bundles
    return (negated header.refs ++ prereqs)

  -- `CreateIncrementalBundle` of the bundle provider; `none` is a nil bundle.
  unfoldable pub create_incremental : Repository → BundleList → M World (Option Bundle)
  create_incremental repo list = do
    wrapping (codes "failed to fetch updates to repo: ") (update_bare_repo m repo.repo_dir)
    bundle ← create_distinct_bundle m repo list
    lines ← get_all_prereqs list.bundles
    written ←
        wrapping (codes "failed to create incremental bundle: ")
          (create_incremental_bundle m repo.repo_dir bundle.filename lines)
    return (if written then some bundle else none)

  -- The loop over `keys[0 : len(keys)-maxBundles+1]`.
  unfoldable pub collapse_keys : List ℤ → Collapsing → M World Collapsing
  collapse_keys [] c = return c
  collapse_keys (k ∷ ks) c = do
    let bundle = bundle_at k c.bundles
    header ← wrapping (parse_failed bundle) (get_bundle_header m bundle.filename)
    collapse_keys ks (collapse_key k c header)

  -- What follows the loop.
  abbrev pub replace_collapsed : Repository → BundleList → Collapsing → M World BundleList
  replace_collapsed repo list c = do
    let bundle = new_bundle repo c.max_timestamp
    create_bundle_from_refs m repo.repo_dir bundle.filename c.refs
    return (record list { bundles = insert c.max_timestamp bundle c.bundles })

  -- The list is given back; on an error its only caller drops it.
  unfoldable pub collapse_list : Repository → BundleList → M World BundleList
  collapse_list repo list =
      if leb (length list.bundles) max_bundles
      then return list
      else (do c ← collapse_keys (low_keys list) (before_loop list); replace_collapsed repo list c)
