-- ===== src/Bundles/Provider/Collapse.antt =====
-- `CollapseList`: what is left of a list of more than five bundles.
use git_bundle_server.Base.{
  ◌+◌, true, false, List, [], ◌∷◌, ◌++◌, none, some, if◌then◌else◌, length, ◌≡◌, refl, ◌∙◌, ap,
  arith, Bool-cases, inl, inr, All, All-of-append, wrapping, ℤ, pos, lt_ℤ, eq_ℤ, eq_ℤ_iff, ◌≤ℤ◌,
  int_Eq, >>=-eq-ok, lt_ℤ_trichotomy, lt_ℤ-le, le_ℤ_trans, le_ℤ_refl, lt_ℤ_irrefl, ok,
}
use git_bundle_server.Base.Assoc.{
  keys, has, Distinct, delete-Distinct, length-delete, delete, lookup, lookup-delete,
  has-keys-delete,
}
use git_bundle_server.Bundles.BundleList.{Bundle, Bundles}
use git_bundle_server.Bundles.BundleList.Sorted.{Ascending}
use git_bundle_server.Bundles.Header.{get_bundle_header}
use git_bundle_server.Bundles.ListFile.{bundle_at}
use git_bundle_server.Bundles.Provider.{
  Collapsing, parse_failed, collapse_key, max_token, collapse_keys,
}
use git_bundle_server.Machine.{Machine}

-- Every bundle stands under its own creation token, which is no negative number, and no token
-- stands twice.
pub record IsWellFormed (bundles : Bundles) : Type 0 where
  pub own_token : (k : ℤ) (b : Bundle) → lookup k bundles ≡ some b → b.creation_token ≡ k
  pub nonnegative : (k : ℤ) → has (keys bundles) k ≡ true → pos 0 ≤ℤ k
  pub distinct : Distinct (keys bundles)

-- The map without the keys.
abbrev pub delete_all : List ℤ → Bundles → Bundles
delete_all [] bundles = bundles
delete_all (k ∷ ks) bundles = delete_all ks (delete k bundles)

pub lookup-delete_all :
    (ks : List ℤ) (j : ℤ) (bundles : Bundles)
    → lookup j (delete_all ks bundles) ≡ (if has ks j then none else lookup j bundles)
lookup-delete_all [] j bundles = refl
lookup-delete_all (k ∷ ks) j bundles =
    ground (arith, lookup-delete_all ks j (delete k bundles), lookup-delete k j bundles)

abbrev pub max_all : List ℤ → ℤ → ℤ
max_all [] t = t
max_all (k ∷ ks) t = max_all ks (max_token k t)

-- The bundles under these keys have these keys for their tokens.
abbrev pub Own : Bundles → ℤ → Type 0
Own bundles k = (bundle_at k bundles).creation_token ≡ k

Own-delete :
    (k : ℤ) (ks : List ℤ) (bundles : Bundles)
    → has ks k ≡ false
    → All (Own bundles) ks
    → All (Own (delete k bundles)) ks
Own-delete k [] bundles h own = tt
Own-delete k (j ∷ ks) bundles h own = (
  ground (arith, lookup-delete k j bundles, own.0, eq_ℤ_iff k j, eq_ℤ_iff j k),
  Own-delete k ks bundles (ground arith) own.1,
)

-- What the loop leaves, if it ends with no error.
pub collapse_keys_lem :
    (m : Machine) (ks : List ℤ) (c c' : Collapsing) (w : m.World)
    → Distinct ks
    → All (Own c.bundles) ks
    → (collapse_keys m ks c w).0 ≡ ok c'
    → (c'.bundles ≡ delete_all ks c.bundles) × (c'.max_timestamp ≡ max_all ks c.max_timestamp)
unfolding collapse_keys
collapse_keys_lem m [] c c' w d own e = ground arith
collapse_keys_lem m (k ∷ ks) c c' w d own e =
    let bundle = bundle_at k c.bundles in
    let read = wrapping (parse_failed bundle) (get_bundle_header m bundle.filename) in
    let (header, _, e') =
      >>=-eq-ok read (λ header. collapse_keys m ks (collapse_key k c header)) w e in
    let (same, largest) =
      collapse_keys_lem m ks (collapse_key k c header) c' (read w).1 d.1
        (Own-delete k ks c.bundles d.0 own.1) e' in
    (same, largest ∙ ap (λ t. max_all ks (max_token t c.max_timestamp)) own.0)

max_token-eq : (k z : ℤ) → z ≤ℤ k → max_token k z ≡ k
unfolding max_token
max_token-eq k z h = ground (arith, lt_ℤ_trichotomy z k, eq_ℤ_iff z k)

pub max_all-greatest :
    (k : ℤ) (ks : List ℤ) (z : ℤ)
    → Ascending (k ∷ ks)
    → z ≤ℤ k
    → (has (k ∷ ks) (max_all (k ∷ ks) z) ≡ true)
      × ((j : ℤ) → has (k ∷ ks) j ≡ true → j ≤ℤ max_all (k ∷ ks) z)
max_all-greatest k [] z a h =
    rw (max_token-eq k z h)
      (ground (arith, eq_ℤ_iff k k), λ j m. ground (arith, eq_ℤ_iff k j, le_ℤ_refl k))
max_all-greatest k (i ∷ ks) z (least, a) h = rw (max_token-eq k z h) (
    let (mem, top) = max_all-greatest i ks k a (lt_ℤ-le k i least.0) in
    (
      ground arith,
      λ j m. elim (Bool-cases (eq_ℤ k j)) [
        | inl same ↦ ground (
          arith,
          eq_ℤ_iff k j,
          le_ℤ_trans k i (max_all (i ∷ ks) k) (lt_ℤ-le k i least.0)
              (top i (ground (arith, eq_ℤ_iff i i))),
        )
        | inr other ↦ top j (ground arith)
      ],
    ))

pub All-has : (P : ℤ → Type 0) (ks : List ℤ) (j : ℤ) → All P ks → has ks j ≡ true → P j
All-has P [] j a h = cc
All-has P (k ∷ ks) j a h = elim (Bool-cases (eq_ℤ k j)) [
  | inl same ↦ rw (← (eq_ℤ_iff k j).0 same) a.0
  | inr other ↦ All-has P ks j a.1 (ground arith)
]

pub Ascending-append :
    (ks js : List ℤ)
    → Ascending (ks ++ js)
    → Ascending ks × ((i j : ℤ) → has ks i ≡ true → has js j ≡ true → lt_ℤ i j ≡ true)
Ascending-append [] js a = (tt, λ i j h. cc)
Ascending-append (k ∷ ks) js (least, a) =
    let (below, above) = All-of-append (λ j. lt_ℤ k j ≡ true) ks js least in
    let (front, apart) = Ascending-append ks js a in
    (
      (below, front),
      λ i j h h'. elim (Bool-cases (eq_ℤ k i)) [
        | inl same ↦ rw (← (eq_ℤ_iff k i).0 same) (All-has (λ j. lt_ℤ k j ≡ true) js j above h')
        | inr other ↦ apart i j (ground arith) h'
      ],
    )

pub length-delete_all :
    (ks : List ℤ) (bundles : Bundles)
    → Distinct ks
    → Distinct (keys bundles)
    → ((j : ℤ) → has ks j ≡ true → has (keys bundles) j ≡ true)
    → length bundles ≡ length ks + length (delete_all ks bundles)
length-delete_all [] bundles d d' sub = omega arith
length-delete_all (k ∷ ks) bundles (fresh, d) d' sub =
    let ih =
      length-delete_all ks (delete k bundles) d (delete-Distinct k bundles d')
        (λ j h. ground (arith, has-keys-delete k j bundles, sub j, eq_ℤ_iff k j)) in
    omega (arith, ih, length-delete k bundles d' (sub k (ground (arith, eq_ℤ_iff k k))))

pub Distinct-of-Ascending : (ks : List ℤ) → Ascending ks → Distinct ks
Distinct-of-Ascending [] a = tt
Distinct-of-Ascending (k ∷ ks) (least, a) = (fresh ks least, Distinct-of-Ascending ks a)
  where
    fresh : (js : List ℤ) → All (λ j. lt_ℤ k j ≡ true) js → has js k ≡ false
    fresh [] h = refl
    fresh (j ∷ js) h = ground (arith, fresh js h.1, eq_ℤ_iff j k, lt_ℤ_irrefl k j h.0, eq_ℤ_iff k j)
