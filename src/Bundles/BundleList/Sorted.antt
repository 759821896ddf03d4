-- ===== src/Bundles/BundleList/Sorted.antt =====
-- `sortedCreationTokens`: the keys of the list, each once, in ascending order.
use mathlib.Core.List.{Perm}
use mathlib.Core.List.Perm
use git_bundle_server.Base.{
  true, false, ◌||◌, List, [], ◌∷◌, ◌≡◌, refl, arith, ℤ, int_Eq, lt_ℤ, eq_ℤ, All, Bool-cases, inl,
  inr, lt_ℤ_trichotomy, lt_ℤ_trans, length, ap, ◌∙◌, suc,
}
use git_bundle_server.Base.Assoc.{keys, has, Distinct}
use git_bundle_server.Bundles.BundleList.{BundleList, insert_sorted, sort, sorted_creation_tokens}

-- Each token is below all that follow it.
abbrev pub Ascending : List ℤ → Type 0
Ascending [] = Unit
Ascending (k ∷ ks) = All (λ j. lt_ℤ k j ≡ true) ks × Ascending ks

pub has-insert_sorted :
    (k j : ℤ) (js : List ℤ) → has (insert_sorted k js) j ≡ (eq_ℤ k j || has js j)
unfolding insert_sorted
has-insert_sorted k j [] = refl
has-insert_sorted k j (i ∷ js) = ground (arith, has-insert_sorted k j js)

pub has-sort : (ks : List ℤ) (j : ℤ) → has (sort ks) j ≡ has ks j
unfolding sort
has-sort [] j = refl
has-sort (k ∷ ks) j = ground (arith, has-insert_sorted k j (sort ks), has-sort ks j)

All-insert_sorted :
    (i k : ℤ) (js : List ℤ)
    → lt_ℤ i k ≡ true
    → All (λ j. lt_ℤ i j ≡ true) js
    → All (λ j. lt_ℤ i j ≡ true) (insert_sorted k js)
unfolding insert_sorted
All-insert_sorted i k [] h a = (h, tt)
All-insert_sorted i k (j ∷ js) h a = elim (Bool-cases (lt_ℤ j k)) [
  | inl before ↦ rw before (a.0, All-insert_sorted i k js h a.1)
  | inr after ↦ rw after (h, a)
]

All-lt_ℤ_trans :
    (k j : ℤ) (js : List ℤ)
    → lt_ℤ k j ≡ true
    → All (λ i. lt_ℤ j i ≡ true) js
    → All (λ i. lt_ℤ k i ≡ true) js
All-lt_ℤ_trans k j [] h a = tt
All-lt_ℤ_trans k j (i ∷ js) h a = (lt_ℤ_trans k j i h a.0, All-lt_ℤ_trans k j js h a.1)

insert_sorted-Ascending :
    (k : ℤ) (js : List ℤ) → Ascending js → has js k ≡ false → Ascending (insert_sorted k js)
unfolding insert_sorted
insert_sorted-Ascending k [] a h = (tt, tt)
insert_sorted-Ascending k (j ∷ js) (least, a) h = elim (Bool-cases (lt_ℤ j k)) [
  | inl before ↦
      rw before
        (All-insert_sorted j k js before least, insert_sorted-Ascending k js a (ground arith))
  | inr after ↦
      let first = lt_ℤ_trichotomy j k after (ground arith) in
      rw after ((first, All-lt_ℤ_trans k j js first least), (least, a))
]

pub sort-Ascending : (ks : List ℤ) → Distinct ks → Ascending (sort ks)
unfolding sort
sort-Ascending [] d = tt
sort-Ascending (k ∷ ks) (fresh, d) =
    insert_sorted-Ascending k (sort ks) (sort-Ascending ks d) (has-sort ks k ∙ fresh)

insert_sorted-perm : (k : ℤ) (js : List ℤ) → Perm (insert_sorted k js) (k ∷ js)
unfolding insert_sorted
insert_sorted-perm k [] = Perm.refl (k ∷ [])
insert_sorted-perm k (j ∷ js) = elim (Bool-cases (lt_ℤ j k)) [
  | inl before ↦ rw before (Perm.trans (Perm.cons j (insert_sorted-perm k js)) (Perm.swap k j js))
  | inr after ↦ rw after (Perm.refl (k ∷ j ∷ js))
]

sort-perm : (ks : List ℤ) → Perm (sort ks) ks
unfolding sort
sort-perm [] = Perm.refl []
sort-perm (k ∷ ks) = Perm.trans (insert_sorted-perm k (sort ks)) (Perm.cons k (sort-perm ks))

length-insert_sorted : (k : ℤ) (js : List ℤ) → length (insert_sorted k js) ≡ suc (length js)
unfolding insert_sorted
length-insert_sorted k [] = refl
length-insert_sorted k (j ∷ js) = ground (arith, length-insert_sorted k js)

pub length-sort : (ks : List ℤ) → length (sort ks) ≡ length ks
unfolding sort
length-sort [] = refl
length-sort (k ∷ ks) = length-insert_sorted k (sort ks) ∙ ap suc (length-sort ks)

-- The tokens of a list come out in strictly ascending order, and are a permutation of its keys,
-- provided that no key stands twice, as in any map.
pub sorted_creation_tokens-Ascending :
    (list : BundleList)
    → Distinct (keys list.bundles)
    → Ascending (sorted_creation_tokens list)
      × Perm (sorted_creation_tokens list) (keys list.bundles)
unfolding sorted_creation_tokens
sorted_creation_tokens-Ascending list d =
    (sort-Ascending (keys list.bundles) d, sort-perm (keys list.bundles))
