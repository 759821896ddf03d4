-- ===== src/Bundles/Provider/Bounds.antt =====
-- How many bundles a list has behind `CollapseList`.
use git_bundle_server.Base.{◌≤◌, true, ◌≡◌, arith, leb, length, Bool-cases, inl, inr, ok}
use git_bundle_server.Bundles.BundleList.{BundleList}
use git_bundle_server.Bundles.Provider.{collapse_list}
use git_bundle_server.Bundles.Provider.Collapse.{IsWellFormed}
use git_bundle_server.Bundles.Provider.Newest.{collapse_list-IsCollapseOf}
use git_bundle_server.Core.Repo.{Repository}
use git_bundle_server.Machine.{Machine}

short_kept :
    (m : Machine) (repo : Repository) (list list' : BundleList) (w : m.World)
    → leb (length list.bundles) 5 ≡ true
    → (collapse_list m repo list w).0 ≡ ok list'
    → length list'.bundles ≤ 5
unfolding collapse_list
short_kept m repo list list' w h e = ground arith

-- A collapse of a well-formed list, short or long, that ends with no error gives a list of at most
-- five bundles.
pub collapse_list-length :
    (m : Machine) (repo : Repository) (list list' : BundleList) (w : m.World)
    → IsWellFormed list.bundles
    → (collapse_list m repo list w).0 ≡ ok list'
    → length list'.bundles ≤ 5
collapse_list-length m repo list list' w wf e = elim (Bool-cases (leb (length list.bundles) 5)) [
  | inl short ↦ short_kept m repo list list' w short e
  | inr long ↦
      let (t, collapse, kept) =
        collapse_list-IsCollapseOf m repo list list' w wf (ground arith) e in
      omega (arith, collapse.size)
]
