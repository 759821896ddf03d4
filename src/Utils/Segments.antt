-- ===== src/Utils/Segments.antt =====
-- What the three results of `SegmentKeys` hold.
use git_bundle_server.Base.{
  true, false, not, ◌&&◌, List, [], ◌∷◌, ◌≡◌, refl, ap, arith, Bool-cases, inl, inr, Eq, ◌==◌,
}
use git_bundle_server.Base.Assoc.{has, keys}
use git_bundle_server.Utils.{segment_keys, select}

module _ {ℓ} {K : Type ℓ} ⦃e : Eq K⦄ where
  has_same : (ks : List K) (x k : K) → (x == k) ≡ true → has ks x ≡ has ks k
  has_same ks x k h = ap (has ks) ((e.equal_iff x k).0 h)

  has-select-true : (ks m : List K) (k : K) → has (select true ks m) k ≡ (has m k && has ks k)
  unfolding select
  has-select-true ks [] k = refl
  has-select-true ks (x ∷ m) k = elim (Bool-cases (x == k)) [
    | inl same ↦ ground (arith, has-select-true ks m k, has_same ks x k same, same)
    | inr differ ↦ ground (arith, has-select-true ks m k, differ)
  ]

  has-select-false :
      (ks m : List K) (k : K) → has (select false ks m) k ≡ (has m k && not (has ks k))
  unfolding select
  has-select-false ks [] k = refl
  has-select-false ks (x ∷ m) k = elim (Bool-cases (x == k)) [
    | inl same ↦ ground (arith, has-select-false ks m k, has_same ks x k same, same)
    | inr differ ↦ ground (arith, has-select-false ks m k, differ)
  ]

  -- A key is in the first result if both maps have it, in the second if only the first map has it,
  -- and in the third if only the second map has it; and in no other case.
  pub segment_keys_lem :
      {S R : Type ℓ} (a : List (K × S)) (b : List (K × R)) (k : K)
      → (has (segment_keys a b).0 k ≡ (has (keys a) k && has (keys b) k))
        × (has (segment_keys a b).1 k ≡ (has (keys a) k && not (has (keys b) k)))
        × (has (segment_keys a b).2 k ≡ (has (keys b) k && not (has (keys a) k)))
  unfolding segment_keys
  segment_keys_lem a b k = (
    has-select-true (keys b) (keys a) k,
    has-select-false (keys b) (keys a) k,
    has-select-false (keys a) (keys b) k,
  )
