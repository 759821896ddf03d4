-- ===== src/Bundles/BundleList/Distinct.antt =====
-- `createDistinctBundle`: a token above every token of the list.
use git_bundle_server.Base.{
  true, List, [], ◌∷◌, ◌≡◌, ◌≢◌, refl, arith, ◌∙◌, sym, ℤ, pos, int_Eq, lt_ℤ, eq_ℤ, eq_ℤ_iff, ap,
  Bool-cases, List-cases, inl, inr, ◌≤ℤ◌, inc, lt_ℤ-inc, lt_le_ℤ_trans, lt_ℤ-le, le_ℤ_refl,
  le_ℤ_trans, max_int64, ok,
}
use git_bundle_server.Base.Assoc.{keys, has, Distinct}
use git_bundle_server.Bundles.BundleList.{
  BundleList, new_bundle, sort, sorted_creation_tokens, last, distinct_token,
  create_distinct_bundle,
}
use git_bundle_server.Bundles.BundleList.Sorted.{Ascending, has-sort, sort-Ascending}
use git_bundle_server.Core.Repo.{Repository}
use git_bundle_server.Machine.{Machine}

-- The last of ascending tokens is one of them, and no other is above it.
last-greatest :
    (k : ℤ) (ks : List ℤ)
    → Ascending (k ∷ ks)
    → (t : ℤ) × (last (k ∷ ks) ≡ ok t)
      × (has (k ∷ ks) t ≡ true)
      × ((j : ℤ) → has (k ∷ ks) j ≡ true → j ≤ℤ t)
unfolding last
last-greatest k [] a =
    (k, refl, ground (arith, eq_ℤ_iff k k), λ j h. ground (arith, eq_ℤ_iff k j, le_ℤ_refl k))
last-greatest k (i ∷ ks) (least, a) =
    let (t, e, mem, top) = last-greatest i ks a in
    (
      t,
      e,
      ground arith,
      λ j h. elim (Bool-cases (eq_ℤ k j)) [
        | inl same ↦ ground (
          arith,
          eq_ℤ_iff k j,
          le_ℤ_trans k i t (lt_ℤ-le k i least.0) (top i (ground (arith, eq_ℤ_iff i i))),
        )
        | inr other ↦ top j (ground arith)
      ],
    )

distinct_token-lt :
    (now top j : ℤ)
    → lt_ℤ top (pos max_int64) ≡ true
    → j ≤ℤ top
    → lt_ℤ j (distinct_token now top) ≡ true
unfolding distinct_token
distinct_token-lt now top j h k =
    ground (arith, lt_le_ℤ_trans j top now, lt_le_ℤ_trans j top (inc top) (lt_ℤ-inc top h) k)

sort-ne-nil : (ks : List ℤ) → ks ≢ [] → sort ks ≢ []
sort-ne-nil [] h e = h refl
sort-ne-nil (k ∷ ks) h e = ground (arith, has-sort (k ∷ ks) k, eq_ℤ_iff k k, ap (λ l. has l k) e)

-- The largest of some keys.
pub last-sort :
    (ks : List ℤ)
    → Distinct ks
    → ks ≢ []
    → (t : ℤ) × (last (sort ks) ≡ ok t) × (has ks t ≡ true) × ((j : ℤ) → has ks j ≡ true → j ≤ℤ t)
last-sort ks d h = elim (List-cases (sort ks)) [
  | inl no_key ↦ absurd (sort-ne-nil ks h no_key)
  | inr (i, is, e) ↦
      let (t, is_last, mem, top) = last-greatest i is (rw e at (sort-Ascending ks d)) in
      (t, rw e is_last, sym (has-sort ks t) ∙ rw e mem, λ j m. top j (rw e at (has-sort ks j ∙ m)))
]

-- If no key stands twice, there is one, and none is the largest `int64`, then the new bundle has a
-- token above every token of the list.
pub create_distinct_bundle_fresh :
    (m : Machine) (repo : Repository) (list : BundleList) (w : m.World)
    → Distinct (keys list.bundles)
    → keys list.bundles ≢ []
    → ((j : ℤ) → has (keys list.bundles) j ≡ true → lt_ℤ j (pos max_int64) ≡ true)
    → (t : ℤ) × ((create_distinct_bundle m repo list w).0 ≡ ok (new_bundle repo t))
      × ((j : ℤ) → has (keys list.bundles) j ≡ true → lt_ℤ j t ≡ true)
unfolding create_distinct_bundle sorted_creation_tokens
create_distinct_bundle_fresh m repo list w d some_key small =
    let (top, is_last, mem, greatest) = last-sort (keys list.bundles) d some_key in
    (
      distinct_token (m.now w).0 top,
      rw is_last,
      λ j h. distinct_token-lt (m.now w).0 top j (small top mem) (greatest j h),
    )
