-- ===== src/Commands/Updated.antt =====
-- The command `update`, from the list that it reads to the list that it leaves.
use git_bundle_server.Base.{
  Text, codes, Bool, true, false, [], Option, some, none, List-cases, if◌then◌else◌, ◌⊎◌, inl, inr,
  ℤ, pos, lt_ℤ, int_Eq, text_Eq, ◌≤ℤ◌, max_int64, M, ok, ◌>>=◌, wrapped, wrapping, >>=-eq-ok,
  >>=-ok, ◌≡◌, ◌≢◌, sym, ap, ◌∙◌, subst, arith, lt_ℤ-le, le_ℤ_trans, eq_ℤ_iff,
}
use git_bundle_server.Base.Assoc.{has, keys, Distinct}
use git_bundle_server.Bundles.BundleList.{Bundle, BundleList, new_bundle, create_distinct_bundle}
use git_bundle_server.Bundles.BundleList.Distinct.{create_distinct_bundle_fresh}
use git_bundle_server.Bundles.ListFile.{
  Json, IsJson, IsText, IsTextBundle, Agree, get_bundle_list, list_path, repo_list_path, json_path,
}
use git_bundle_server.Bundles.ListFile.Contents.{WritesSucceed}
use git_bundle_server.Bundles.ListFile.Commit.{six}
use git_bundle_server.Bundles.Provider.{create_incremental, get_all_prereqs}
use git_bundle_server.Bundles.Provider.Collapse.{IsWellFormed}
use git_bundle_server.Commands.{publish, update_run}
use git_bundle_server.Commands.Update.{Renewable, IsKept, publish-IsKept}
use git_bundle_server.Core.Repo.{Repository, create_repository}
use git_bundle_server.Git.{create_incremental_bundle, update_bare_repo}
use git_bundle_server.Machine.{Machine, IsLawful, done}

-- A token for a list: above all its tokens, and not negative.
pub record IsFresh (list : BundleList) (t : ℤ) : Type 0 where
  pub above : (k : ℤ) → has (keys list.bundles) k ≡ true → lt_ℤ k t ≡ true
  pub positive : pos 0 ≤ℤ t

fresh_positive :
    (list : BundleList) (t : ℤ)
    → IsWellFormed list.bundles
    → keys list.bundles ≢ []
    → ((k : ℤ) → has (keys list.bundles) k ≡ true → lt_ℤ k t ≡ true)
    → pos 0 ≤ℤ t
fresh_positive list t wf some_key above = elim (List-cases (keys list.bundles)) [
  | inl empty ↦ absurd (some_key empty)
  | inr (k, ks, e) ↦
      let there : has (keys list.bundles) k ≡ true =
        ap (λ l. has l k) e ∙ ground (arith, eq_ℤ_iff k k) in
      le_ℤ_trans (pos 0) k t (wf.nonnegative k there) (lt_ℤ-le k t (above k there))
]

some_inv : {A : Type 0} (b : Bool) (x y : A) → ok (if b then some x else none) ≡ ok (some y) → x ≡ y
some_inv true x y h = ground (arith, h)
some_inv false x y h = cc

module _ (m : Machine) where
  create_incremental-IsFresh :
      (repo : Repository) (list : BundleList) (b : Bundle) (w : m.World)
      → IsWellFormed list.bundles
      → keys list.bundles ≢ []
      → ((k : ℤ) → has (keys list.bundles) k ≡ true → lt_ℤ k (pos max_int64) ≡ true)
      → (create_incremental m repo list w).0 ≡ ok (some b)
      → (t : ℤ) × (b ≡ new_bundle repo t) × IsFresh list t
  unfolding create_incremental
  create_incremental-IsFresh repo list b w wf some_key small h =
      let (_, _, h1) =
        >>=-eq-ok
          (wrapping (codes "failed to fetch updates to repo: ") (update_bare_repo m repo.repo_dir))
          _ w h in
      let (b1, e1, h2) = >>=-eq-ok (create_distinct_bundle m repo list) _ _ h1 in
      let (lines, _, h3) = >>=-eq-ok (get_all_prereqs m list.bundles) _ _ h2 in
      let (written, _, h4) =
        >>=-eq-ok
          (wrapping (codes "failed to create incremental bundle: ")
            (create_incremental_bundle m repo.repo_dir b1.filename lines))
          _ _ h3 in
      let (t, e, above) =
        create_distinct_bundle_fresh m repo list (update_bare_repo m repo.repo_dir w).1 wf.distinct
          some_key small in
      (
        t,
        ground (arith, some_inv written b1 b h4, e, e1),
        record { above = above; positive = fresh_positive list t wf some_key above },
      )

  abbrev updating : Json → Repository → BundleList → M m.World (Unit {0})
  updating j repo list = create_incremental m repo list >>= publish m j repo list

  abbrev loading : Json → Repository → M m.World (Unit {0})
  loading j repo =
      wrapping (codes "failed to load bundle list: ") (get_bundle_list m j repo) >>= updating j repo

  -- `update` behind the two steps that read
  update_run-updating :
      (j : Json) (route : Text) (repo : Repository) (list : BundleList) (w : m.World)
      → (create_repository m route w).0 ≡ ok repo
      → (get_bundle_list m j repo (create_repository m route w).1).0 ≡ ok list
      → update_run m j route w
        ≡ updating j repo list (get_bundle_list m j repo (create_repository m route w).1).1
  unfolding update_run
  update_run-updating j route repo list w e f =
      >>=-ok (create_repository m route) (loading j) w e
      ∙ >>=-ok (wrapping (codes "failed to load bundle list: ") (get_bundle_list m j repo))
          (updating j repo) (create_repository m route w).1
          (ap (wrapped (codes "failed to load bundle list: ")) f)

  -- The bundle that the search for new commits makes, if it makes one, has valid texts.
  abbrev pub Made : Repository → BundleList → m.World → Type 0
  Made repo list w =
      (b : Bundle) → (create_incremental m repo list w).0 ≡ ok (some b) → IsTextBundle b

  -- The update has left the world as the search for new commits did, having found none.
  abbrev pub Unchanged : Repository → BundleList → m.World → m.World → Type 0
  Unchanged repo list w after =
      ((create_incremental m repo list w).0 ≡ ok none)
      × (after ≡ (create_incremental m repo list w).1)

  -- The list that can be read now has a new bundle, on top of all before it.
  abbrev pub Updated : Json → Repository → BundleList → m.World → Type 0
  Updated j repo list after =
      (t : ℤ) × IsFresh list t
      × (kept : BundleList) × IsKept repo t kept
      × (back : BundleList) × ((get_bundle_list m j repo after).0 ≡ ok back)
      × Agree back kept

  module _ (lawful : IsLawful m) where
    updating-Updated :
        WritesSucceed m
        → (j : Json) → IsJson j
        → ((l : BundleList) → (text : Text) × (j.marshal l ≡ done text))
        → (list : BundleList) (repo : Repository) (c : Text) (w : m.World)
        → Distinct (six (list_path repo) (repo_list_path repo) (json_path repo))
        → IsWellFormed list.bundles
        → IsText list
        → Renewable repo list
        → Made repo list w
        → keys list.bundles ≢ []
        → ((k : ℤ) → has (keys list.bundles) k ≡ true → lt_ℤ k (pos max_int64) ≡ true)
        → (updating j repo list w).0 ≡ ok tt
        → (m.open_read (json_path repo) (updating j repo list w).1).0 ≡ done c
        → Unchanged repo list w (updating j repo list w).1
          ⊎ Updated j repo list (updating j repo list w).1
    updating-Updated reliable j is_json encodes list repo c w apart wf texts renewable made some_key
          small e opened =
        let (found, searched, published) =
          >>=-eq-ok (create_incremental m repo list) (publish m j repo list) w e in
        split found searched published
      where
        split :
            (found : Option Bundle)
            → (create_incremental m repo list w).0 ≡ ok found
            → (publish m j repo list found (create_incremental m repo list w).1).0 ≡ ok tt
            → Unchanged repo list w (updating j repo list w).1
              ⊎ Updated j repo list (updating j repo list w).1
        split none s p =
            inl (
              s,
              ap (λ r. r.1) (>>=-ok (create_incremental m repo list) (publish m j repo list) w s),
            )
        split (some b) s p =
            let (t, is_new, fresh) = create_incremental-IsFresh repo list b w wf some_key small s in
            let w2 = (create_incremental m repo list w).1 in
            let after : (updating j repo list w).1
                ≡ (publish m j repo list (some (new_bundle repo t)) w2).1 =
              ap (λ r. r.1) (>>=-ok (create_incremental m repo list) (publish m j repo list) w s)
              ∙ ap (λ x. (publish m j repo list (some x) w2).1) is_new in
            let (kept, is_kept, back, read, agree) =
              publish-IsKept m lawful reliable j is_json encodes list repo t c w2 apart wf texts
                renewable (subst IsTextBundle is_new (made b s)) fresh.positive fresh.above
                (sym (ap (λ x. (publish m j repo list (some x) w2).0) is_new) ∙ p)
                (sym (ap (λ v. (m.open_read (json_path repo) v).0) after) ∙ opened) in
            inr (
              t,
              fresh,
              kept,
              is_kept,
              back,
              ap (λ v. (get_bundle_list m j repo v).0) after ∙ read,
              agree,
            )

    -- On a lawful machine where no write fails, for six paths that differ and an encoding that can
    -- encode every list and reads back those of valid UTF-8: let `update` find the repository of a
    -- route and read a well-formed list that is not empty and whose tokens are all below the
    -- largest int64; where the texts of the list, of the bundle that is made, and of the bundles
    -- that the repository would give the tokens of the list are valid UTF-8. If it succeeds and the
    -- file can then be opened, either no new bundle was made, and nothing was done behind the
    -- search for one; or one was, with a token above all those of the list, and the list that
    -- GetBundleList then reads agrees with one that is well formed, has at most five bundles, and
    -- has the new one among them.
    pub update_run-Updated :
        WritesSucceed m
        → (j : Json) → IsJson j
        → ((l : BundleList) → (text : Text) × (j.marshal l ≡ done text))
        → (route : Text) (list : BundleList) (repo : Repository) (c : Text) (w : m.World)
        → Distinct (six (list_path repo) (repo_list_path repo) (json_path repo))
        → IsWellFormed list.bundles
        → IsText list
        → Renewable repo list
        → Made repo list (get_bundle_list m j repo (create_repository m route w).1).1
        → keys list.bundles ≢ []
        → ((k : ℤ) → has (keys list.bundles) k ≡ true → lt_ℤ k (pos max_int64) ≡ true)
        → (create_repository m route w).0 ≡ ok repo
        → (get_bundle_list m j repo (create_repository m route w).1).0 ≡ ok list
        → (update_run m j route w).0 ≡ ok tt
        → (m.open_read (json_path repo) (update_run m j route w).1).0 ≡ done c
        → Unchanged repo list
            (get_bundle_list m j repo (create_repository m route w).1).1
            (update_run m j route w).1
          ⊎ Updated j repo list (update_run m j route w).1
    update_run-Updated reliable j is_json encodes route list repo c w apart wf texts renewable made
          some_key small e f run opened =
        let same = update_run-updating j route repo list w e f in
        subst
          (λ r.
            Unchanged repo list (get_bundle_list m j repo (create_repository m route w).1).1 r.1
            ⊎ Updated j repo list r.1)
          (sym same)
          (updating-Updated reliable j is_json encodes list repo c _ apart wf texts renewable made
            some_key small (sym (ap (λ r. r.0) same) ∙ run)
            (sym (ap (λ r. (m.open_read (json_path repo) r.1).0) same) ∙ opened))
