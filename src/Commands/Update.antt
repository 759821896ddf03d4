-- ===== src/Commands/Update.antt =====
-- What an update of a repository's bundles leaves behind.
use git_bundle_server.Base.{
  Text, true, Bool-cases, inl, inr, length, leb, ℤ, pos, lt_ℤ, eq_ℤ, eq_ℤ_iff, int_Eq, text_Eq,
  ◌≤ℤ◌, some, M, codes, ok, wrapping, wrapped-eq-ok, >>=-eq-ok, >>=-ok, ◌≤◌, ◌≡◌, sym, ap, ◌∙◌,
  subst, arith,
}
use git_bundle_server.Base.Assoc.{
  has, keys, lookup, insert, Distinct, lookup-insert, has-keys-insert, insert-Distinct,
}
use git_bundle_server.Bundles.BundleList.{BundleList, new_bundle}
use git_bundle_server.Bundles.ListFile.{
  Json, IsJson, IsText, IsTextBundle, Agree, write_bundle_list, get_bundle_list, list_path,
  repo_list_path, json_path,
}
use git_bundle_server.Bundles.ListFile.Contents.{WritesSucceed, get_bundle_list-write_bundle_list}
use git_bundle_server.Bundles.ListFile.Commit.{six}
use git_bundle_server.Bundles.Provider.{collapse_list}
use git_bundle_server.Bundles.Provider.Bounds.{collapse_list-length}
use git_bundle_server.Bundles.Provider.Collapse.{IsWellFormed}
use git_bundle_server.Bundles.Provider.Newest.{collapse_list-IsCollapseOf}
use git_bundle_server.Commands.{publish}
use git_bundle_server.Core.Repo.{Repository}
use git_bundle_server.Go.Utf8.{valid_utf8}
use git_bundle_server.Machine.{Machine, IsLawful, done}

-- A list with a new bundle on top of it
abbrev pub with_bundle : BundleList → Repository → ℤ → BundleList
with_bundle list repo t = record list { bundles = insert t (new_bundle repo t) list.bundles }

with_bundle-IsWellFormed :
    (list : BundleList) (repo : Repository) (t : ℤ)
    → IsWellFormed list.bundles
    → pos 0 ≤ℤ t
    → IsWellFormed (with_bundle list repo t).bundles
unfolding new_bundle
with_bundle-IsWellFormed list repo t wf h = record {
  own_token = λ k b e. ground (
    arith,
    e,
    lookup-insert t k (new_bundle repo t) list.bundles,
    eq_ℤ_iff t k,
    wf.own_token k b,
  );
  nonnegative = λ k e. ground (
    arith,
    e,
    h,
    has-keys-insert t k (new_bundle repo t) list.bundles,
    eq_ℤ_iff t k,
    wf.nonnegative k,
  );
  distinct = insert-Distinct t (new_bundle repo t) list.bundles wf.distinct;
}

-- The bundle that an update may make under a token of the list has valid texts.
abbrev pub Renewable : Repository → BundleList → Type 0
Renewable repo list = (k : ℤ) → has (keys list.bundles) k ≡ true → IsTextBundle (new_bundle repo k)

-- A list that may be published: well formed, of at most five bundles, with the new one among them.
pub record IsKept (repo : Repository) (t : ℤ) (list : BundleList) : Type 0 where
  pub well_formed : IsWellFormed list.bundles
  pub bounded : length list.bundles ≤ 5
  pub newest : lookup t list.bundles ≡ some (new_bundle repo t)

collapse_list-newest :
    (m : Machine) (repo : Repository) (list kept : BundleList) (t : ℤ) (w : m.World)
    → IsWellFormed (with_bundle list repo t).bundles
    → ((j : ℤ) → has (keys list.bundles) j ≡ true → lt_ℤ j t ≡ true)
    → (collapse_list m repo (with_bundle list repo t) w).0 ≡ ok kept
    → IsKept repo t kept
unfolding collapse_list
collapse_list-newest m repo list kept t w wf above e =
    elim (Bool-cases (leb (length (with_bundle list repo t).bundles) 5)) [
      | inl short ↦
          let same : with_bundle list repo t ≡ kept = ground (arith, short, e) in
          record {
            well_formed = subst (λ l. IsWellFormed l.bundles) same wf;
            bounded = collapse_list-length m repo (with_bundle list repo t) kept w wf e;
            newest =
                ap (λ l. lookup t l.bundles) (sym same)
                ∙ lookup-insert t t (new_bundle repo t) list.bundles
                ∙ ground (arith, eq_ℤ_iff t t);
          }
      | inr long ↦
          let (s, collapse, well_formed) =
            collapse_list-IsCollapseOf m repo (with_bundle list repo t) kept w wf
              (ground (arith, long)) e in
          record {
            well_formed = well_formed;
            bounded = omega (arith, collapse.size);
            newest = ground (
              arith,
              collapse.found t,
              collapse.collapsed,
              has-keys-insert t s (new_bundle repo t) list.bundles,
              above s,
              lookup-insert t t (new_bundle repo t) list.bundles,
              eq_ℤ_iff t t,
              eq_ℤ_iff t s,
              eq_ℤ_iff s t,
              ap (new_bundle repo),
            );
          }
    ]

with_bundle-IsText :
    (list : BundleList) (repo : Repository) (t : ℤ)
    → IsText list
    → IsTextBundle (new_bundle repo t)
    → IsText (with_bundle list repo t)
with_bundle-IsText list repo t texts new = record {
  mode = texts.mode;
  heuristic = texts.heuristic;
  listed = λ k b e. elim (Bool-cases (eq_ℤ t k)) [
    | inl same ↦
        subst IsTextBundle
          (ground (arith, e, same, lookup-insert t k (new_bundle repo t) list.bundles)) new
    | inr other ↦
        texts.listed k b
          (ground (arith, e, other, lookup-insert t k (new_bundle repo t) list.bundles))
  ];
}

with_bundle-Renewable :
    (list : BundleList) (repo : Repository) (t : ℤ)
    → Renewable repo list
    → IsTextBundle (new_bundle repo t)
    → Renewable repo (with_bundle list repo t)
with_bundle-Renewable list repo t renewable new k h = elim (Bool-cases (eq_ℤ t k)) [
  | inl same ↦ subst (λ j. IsTextBundle (new_bundle repo j)) ((eq_ℤ_iff t k).0 same) new
  | inr other ↦
      renewable k (ground (arith, h, other, has-keys-insert t k (new_bundle repo t) list.bundles))
]

-- A collapse keeps the texts valid.
collapse_list-IsText :
    (m : Machine) (repo : Repository) (list kept : BundleList) (w : m.World)
    → IsWellFormed list.bundles
    → IsText list
    → Renewable repo list
    → (collapse_list m repo list w).0 ≡ ok kept
    → IsText kept
unfolding collapse_list
collapse_list-IsText m repo list kept w wf texts renewable e =
    elim (Bool-cases (leb (length list.bundles) 5)) [
      | inl short ↦ subst IsText (ground (arith, short, e)) texts
      | inr long ↦
          let (s, collapse, _) =
            collapse_list-IsCollapseOf m repo list kept w wf (ground (arith, long)) e in
          record {
            mode = ap valid_utf8 collapse.same_mode ∙ texts.mode;
            heuristic = ap valid_utf8 collapse.same_heuristic ∙ texts.heuristic;
            listed = λ k b h. elim (Bool-cases (eq_ℤ s k)) [
              | inl same ↦
                  subst IsTextBundle (ground (arith, h, same, collapse.found k))
                    (renewable s collapse.collapsed)
              | inr other ↦ texts.listed k b (ground (arith, h, other, collapse.found k))
            ];
          }
    ]

module _ (m : Machine) (lawful : IsLawful m) where
  abbrev write_kept : Json → Repository → BundleList → M m.World (Unit {0})
  write_kept j repo kept =
      wrapping (codes "failed to write bundle list: ") (write_bundle_list m j kept repo)

  -- On a lawful machine where no write fails, for six paths that differ and an encoding that can
  -- encode every list and reads back those of valid UTF-8; where the texts of the list, of the new
  -- bundle, and of the bundles that the repository would give the tokens of the list are valid: if
  -- an update of a well-formed list with a bundle of a token above all those of the list, and not
  -- negative, succeeds, and the file can then be opened, the list that GetBundleList reads agrees
  -- with one that is well formed, has at most five bundles, and has the new bundle among them.
  pub publish-IsKept :
      WritesSucceed m
      → (j : Json) → IsJson j
      → ((l : BundleList) → (text : Text) × (j.marshal l ≡ done text))
      → (list : BundleList) (repo : Repository) (t : ℤ) (c : Text) (w : m.World)
      → Distinct (six (list_path repo) (repo_list_path repo) (json_path repo))
      → IsWellFormed list.bundles
      → IsText list
      → Renewable repo list
      → IsTextBundle (new_bundle repo t)
      → pos 0 ≤ℤ t
      → ((k : ℤ) → has (keys list.bundles) k ≡ true → lt_ℤ k t ≡ true)
      → (publish m j repo list (some (new_bundle repo t)) w).0 ≡ ok tt
      → (m.open_read (json_path repo) (publish m j repo list (some (new_bundle repo t)) w).1).0
        ≡ done c
      → (kept : BundleList) × IsKept repo t kept
        × (back : BundleList) × ((get_bundle_list m j repo
              (publish m j repo list (some (new_bundle repo t)) w).1).0
            ≡ ok back)
        × Agree back kept
  unfolding new_bundle
  publish-IsKept reliable j is_json encodes list repo t c w apart wf texts renewable new positive
        above e opened =
      let (kept, collapsed, put) =
        >>=-eq-ok (collapse_list m repo (with_bundle list repo t)) (write_kept j repo) w e in
      let w1 = (collapse_list m repo (with_bundle list repo t) w).1 in
      let after : (publish m j repo list (some (new_bundle repo t)) w).1
          ≡ (write_bundle_list m j kept repo w1).1 =
        ap (λ r. r.1)
          (>>=-ok (collapse_list m repo (with_bundle list repo t)) (write_kept j repo) w
            collapsed) in
      let well_formed = with_bundle-IsWellFormed list repo t wf positive in
      let kept_texts =
        collapse_list-IsText m repo (with_bundle list repo t) kept w well_formed
          (with_bundle-IsText list repo t texts new)
          (with_bundle-Renewable list repo t renewable new) collapsed in
      let (text, encoded) = encodes kept in
      let (back, read, agree) =
        get_bundle_list-write_bundle_list m lawful reliable j is_json kept repo text c w1 apart
          kept_texts encoded (wrapped-eq-ok _ _ put)
          (sym (ap (λ v. (m.open_read (json_path repo) v).0) after) ∙ opened) in
      (
        kept,
        collapse_list-newest m repo list kept t w well_formed above collapsed,
        back,
        ap (λ v. (get_bundle_list m j repo v).0) after ∙ read,
        agree,
      )
