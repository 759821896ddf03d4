-- ===== src/Utils.antt =====
-- internal/utils: maps.go and slices.go. A map is an association list.
pub mod Segments
use git_bundle_server.Base.{Bool, true, false, List, [], ◌∷◌, if◌then◌else◌, Eq}
use git_bundle_server.Base.Assoc.{has, keys}

-- The keys of `m` that the list `ks` has (or, for `false`, that it has not).
unfoldable pub select {ℓ} : {K : Type ℓ} ⦃e : Eq K⦄ → Bool → List K → List K → List K
select wanted ks [] = []
select wanted ks (k ∷ m) =
    let rest = select wanted ks m in
    if has ks k then (if wanted then k ∷ rest else rest) else (if wanted then rest else k ∷ rest)

-- `SegmentKeys`: the keys of both maps, those of the first alone and those of the second alone.
unfoldable pub segment_keys {ℓ} :
    {K S R : Type ℓ} ⦃e : Eq K⦄ → List (K × S) → List (K × R) → List K × List K × List K
segment_keys a b =
    (select true (keys b) (keys a), select false (keys b) (keys a), select false (keys a) (keys b))

-- `Reduce`
unfoldable pub reduce {ℓ} : {T S : Type ℓ} → List T → S → (T → S → S) → S
reduce [] acc fn = acc
reduce (t ∷ ts) acc fn = reduce ts (fn t acc) fn
