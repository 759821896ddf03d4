-- ===== src/Bundles/BundleList.antt =====
-- internal/bundles/bundles.go: `Bundle`, `BundleList` and the choice of creation tokens.
pub mod Sorted
pub mod Distinct
use git_bundle_server.Base.{
  ℕ, Text, codes, Bool, true, false, List, [], ◌∷◌, ◌++◌, Option, none, some, if◌then◌else◌, ℤ,
  ℤ.pos, lt_ℤ, inc, int_Eq, Outcome, ok, err, halt, Halt.panic, M, return, stop,
}
use git_bundle_server.Base.Assoc.{keys, insert}
use git_bundle_server.Core.Repo.{Repository}
use git_bundle_server.Go.Decimal.{show_int}
use git_bundle_server.Go.Path.{join, slash}
use git_bundle_server.Machine.{Machine}

pub record Bundle : Type 0 where
  pub uri : Text
  pub filename : Text
  pub creation_token : ℤ

abbrev pub Bundles : Type 0
Bundles = List (ℤ × Bundle)

pub record BundleList : Type 0 where
  pub version : ℤ
  pub mode : Text
  pub heuristic : Text
  pub bundles : Bundles

unfoldable pub bundle_name : ℤ → Text
bundle_name timestamp = codes "bundle-" ++ (show_int timestamp ++ codes ".bundle")

unfoldable pub new_bundle : Repository → ℤ → Bundle
new_bundle repo timestamp = record {
  uri = join (codes "/" ∷ repo.route ∷ bundle_name timestamp ∷ []);
  filename = join (repo.web_dir ∷ bundle_name timestamp ∷ []);
  creation_token = timestamp;
}

abbrev pub new_bundle_list : BundleList
new_bundle_list = record {
  version = pos 1;
  mode = codes "any";
  heuristic = codes "creationToken";
  bundles = [];
}

unfoldable pub add_bundle : BundleList → Bundle → BundleList
add_bundle list bundle = record list { bundles = insert bundle.creation_token bundle list.bundles }

-- `sort.Slice` by `<`: keys are distinct, so every sort gives this result.
unfoldable pub insert_sorted : ℤ → List ℤ → List ℤ
insert_sorted k [] = k ∷ []
insert_sorted k (j ∷ js) = if lt_ℤ j k then j ∷ insert_sorted k js else k ∷ j ∷ js

unfoldable pub sort : List ℤ → List ℤ
sort [] = []
sort (k ∷ ks) = insert_sorted k (sort ks)

unfoldable pub sorted_creation_tokens : BundleList → List ℤ
sorted_creation_tokens list = sort (keys list.bundles)

-- `keys[len(keys)-1]`, which is out of range where there is no key.
unfoldable pub last : List ℤ → Outcome ℤ
last [] = halt (panic (codes "index out of range [-1]"))
last (k ∷ []) = ok k
last (k ∷ j ∷ js) = last (j ∷ js)

-- The clock's time, or one more than the largest token.
unfoldable pub distinct_token : ℤ → ℤ → ℤ
distinct_token timestamp max_timestamp =
    if lt_ℤ max_timestamp timestamp then timestamp else inc max_timestamp

abbrev pub distinct_bundle : Repository → ℤ → Outcome ℤ → Outcome Bundle
distinct_bundle repo timestamp (ok max_timestamp) =
    ok (new_bundle repo (distinct_token timestamp max_timestamp))
distinct_bundle repo timestamp (err e) = err e
distinct_bundle repo timestamp (halt h) = halt h

unfoldable pub create_singleton_list : Bundle → BundleList
create_singleton_list bundle = add_bundle new_bundle_list bundle

module _ (m : Machine) where
  open m use {World}

  unfoldable pub create_initial_bundle : Repository → M World Bundle
  create_initial_bundle repo w = (ok (new_bundle repo (m.now w).0), (m.now w).1)

  unfoldable pub create_distinct_bundle : Repository → BundleList → M World Bundle
  create_distinct_bundle repo list w =
      (distinct_bundle repo (m.now w).0 (last (sorted_creation_tokens list)), (m.now w).1)
