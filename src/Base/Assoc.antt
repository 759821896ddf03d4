-- ===== src/Base/Assoc.antt =====
-- Go maps as association lists. The order of the list is the order in which `range` visits the
-- keys, which Go leaves open: a theorem about every list is one about every order.
use mathlib.Core.Path.{◌≡◌, refl}
use mathlib.Core.Logic.{◌↔◌}
use mathlib.Core.Bool.{Bool, true, false, ◌||◌}
use mathlib.Core.Option.{Option, none, some}
use mathlib.Core.List.{List, [], ◌∷◌, ◌++◌}
use native.Mathlib.Omega.{arith}
use mathlib.Core.Path.{ap}
use Prim.Native.Nat.{suc}
use mathlib.Core.Bool.{false≢true}
use git_bundle_server.Base.Lists.{length}
use git_bundle_server.Base.Tests.{Eq, ◌==◌, if◌then◌else◌}

module _ {ℓ κ} {K : Type ℓ} {V : Type κ} where
  abbrev pub keys : List (K × V) → List K
  keys [] = []
  keys ((k, v) ∷ m) = k ∷ keys m

module _ {ℓ} {K : Type ℓ} ⦃e : Eq K⦄ where
  abbrev pub has : List K → K → Bool
  has [] k = false
  has (j ∷ js) k = j == k || has js k

  -- No key twice.
  abbrev pub Distinct : List K → Type 0
  Distinct [] = Unit
  Distinct (k ∷ ks) = (has ks k ≡ false) × Distinct ks

  pub equal_refl : (k : K) → (k == k) ≡ true
  equal_refl k = (e.equal_iff k k).1 refl

  pub has-append : (ks ls : List K) (k : K) → has (ks ++ ls) k ≡ (has ks k || has ls k)
  has-append [] ls k = refl
  has-append (j ∷ ks) ls k = ground (arith, has-append ks ls k)

module _ {ℓ κ} {K : Type ℓ} {V : Type κ} ⦃e : Eq K⦄ where
  -- `v, ok := m[k]`
  unfoldable pub lookup : K → List (K × V) → Option V
  lookup k [] = none
  lookup k ((bound, v) ∷ m) = if bound == k then some v else lookup k m

  -- `m[k] = v`
  unfoldable pub insert : K → V → List (K × V) → List (K × V)
  insert k v [] = (k, v) ∷ []
  insert k v ((bound, old) ∷ m) = if bound == k then (k, v) ∷ m else (bound, old) ∷ insert k v m

  -- `delete(m, k)`
  unfoldable pub delete : K → List (K × V) → List (K × V)
  delete k [] = []
  delete k ((j, w) ∷ m) = let rest = delete k m in if j == k then rest else (j, w) ∷ rest

  pub lookup-insert :
      (k j : K) (v : V) (m : List (K × V))
      → lookup j (insert k v m) ≡ (if k == j then some v else lookup j m)
  unfolding lookup insert
  lookup-insert k j v [] = refl
  lookup-insert k j v ((bound, old) ∷ m) =
      ground
        (arith, lookup-insert k j v m, e.equal_iff bound k, e.equal_iff bound j, e.equal_iff k j)

  pub lookup-delete :
      (k j : K) (m : List (K × V)) → lookup j (delete k m) ≡ (if k == j then none else lookup j m)
  unfolding lookup delete
  lookup-delete k j [] = ground arith
  lookup-delete k j ((i, w) ∷ m) =
      ground (arith, e.equal_iff k j, e.equal_iff i k, e.equal_iff i j, lookup-delete k j m)

  pub has-keys-insert :
      (k j : K) (v : V) (m : List (K × V))
      → has (keys (insert k v m)) j ≡ (k == j || has (keys m) j)
  unfolding insert
  has-keys-insert k j v [] = refl
  has-keys-insert k j v ((i, w) ∷ m) =
      ground (arith, e.equal_iff k j, e.equal_iff i k, e.equal_iff i j, has-keys-insert k j v m)

  pub has-keys-delete :
      (k j : K) (m : List (K × V))
      → has (keys (delete k m)) j ≡ (if k == j then false else has (keys m) j)
  unfolding delete
  has-keys-delete k j [] = ground arith
  has-keys-delete k j ((i, w) ∷ m) =
      ground (arith, e.equal_iff k j, e.equal_iff i k, e.equal_iff i j, has-keys-delete k j m)

  pub insert-Distinct :
      (k : K) (v : V) (m : List (K × V)) → Distinct (keys m) → Distinct (keys (insert k v m))
  unfolding insert
  insert-Distinct k v [] h = (refl, tt)
  insert-Distinct k v ((i, w) ∷ m) h =
      ground (
        arith,
        has-keys-insert k i v m,
        e.equal_iff k i,
        e.equal_iff i k,
        insert-Distinct k v m h.1,
      )

  -- A key is bound exactly if it is among the keys.
  pub lookup-has : (k : K) (m : List (K × V)) → (lookup k m ≡ none) ↔ (has (keys m) k ≡ false)
  unfolding lookup
  lookup-has k [] = ground arith
  lookup-has k ((j, v) ∷ m) = ground (arith, lookup-has k m)

  pub delete-Distinct :
      (k : K) (m : List (K × V)) → Distinct (keys m) → Distinct (keys (delete k m))
  unfolding delete
  delete-Distinct k [] h = tt
  delete-Distinct k ((i, w) ∷ m) h = ground (arith, has-keys-delete k i m, delete-Distinct k m h.1)

  delete_absent : (k : K) (m : List (K × V)) → has (keys m) k ≡ false → delete k m ≡ m
  unfolding delete
  delete_absent k [] h = refl
  delete_absent k ((i, w) ∷ m) h = ground (arith, delete_absent k m)

  pub length-delete :
      (k : K) (m : List (K × V))
      → Distinct (keys m)
      → has (keys m) k ≡ true
      → length m ≡ suc (length (delete k m))
  unfolding delete
  length-delete k [] d h = absurd (false≢true h)
  length-delete k ((i, w) ∷ m) d h =
      ground (arith, e.equal_iff i k, delete_absent k m, length-delete k m d.1)

  pub length-insert :
      (k : K) (v : V) (m : List (K × V))
      → has (keys m) k ≡ false
      → length (insert k v m) ≡ suc (length m)
  unfolding insert
  length-insert k v [] h = refl
  length-insert k v ((i, w) ∷ m) h = ground (arith, length-insert k v m)

  pub length-keys : (m : List (K × V)) → length (keys m) ≡ length m
  length-keys [] = refl
  length-keys ((k, v) ∷ m) = ap suc (length-keys m)
