-- ===== src/Commands/Repair.antt =====
-- What a repair makes of the registry.
use git_bundle_server.Base.{
  Text, List, [], ◌∷◌, Bool, true, false, not, ◌&&◌, Option, none, some, ◌≡◌, ◌≢◌, text_eq_refl,
  refl, ap, arith, if◌then◌else◌, text_Eq, text_eq, text_eq_iff, Bool-cases, inl, inr,
}
use git_bundle_server.Base.Assoc.{
  has, keys, lookup, insert, delete, lookup-insert, lookup-delete, lookup-has,
}
use git_bundle_server.Commands.{or_zero, register_all, delete_all, repaired}
use git_bundle_server.Common.FileSystem.{no_more}
use git_bundle_server.Core.Repo.{Repos, Repository}
use git_bundle_server.Utils.{segment_keys}
use git_bundle_server.Utils.Segments.{segment_keys_lem}

lookup-delete_all :
    (routes : List Text) (repos : Repos) (k : Text)
    → lookup k (delete_all routes repos) ≡ (if has routes k then none else lookup k repos)
unfolding delete_all
lookup-delete_all [] repos k = refl
lookup-delete_all (r ∷ rs) repos k =
    ground (arith, lookup-delete_all rs (delete r repos) k, lookup-delete r k repos)

some-or_zero : (o : Option Repository) → o ≢ none → some (or_zero o) ≡ o
some-or_zero (some r) h = refl
some-or_zero none h = absurd (h refl)

stored-found :
    (stored : Repos) (r : Text)
    → has (keys stored) r ≡ true
    → some (or_zero (lookup r stored)) ≡ lookup r stored
stored-found stored r h =
    some-or_zero (lookup r stored) (λ e. ground (arith, (lookup-has r stored).0 e, h))

-- Each route registered is one that is stored.
lookup-register_all :
    (stored : Repos) (routes : List Text) (repos : Repos) (k : Text)
    → ((r : Text) → has routes r ≡ true → has (keys stored) r ≡ true)
    → lookup k (register_all stored routes repos)
      ≡ (if has routes k then lookup k stored else lookup k repos)
unfolding register_all
lookup-register_all stored [] repos k h = refl
lookup-register_all stored (r ∷ rs) repos k h =
    let rest =
      lookup-register_all stored rs (insert r (or_zero (lookup r stored)) repos) k
        (λ s e. h s (ground (arith, e))) in
    let there : some (or_zero (lookup r stored)) ≡ lookup r stored =
      stored-found stored r (h r (ground (arith, text_eq_refl r))) in
    elim (Bool-cases (text_eq r k)) [
      | inl same ↦ ground (
        arith,
        rest,
        there,
        same,
        lookup-insert r k (or_zero (lookup r stored)) repos,
        ap (λ x. lookup x stored) ((text_eq_iff r k).0 same),
      )
      | inr differ ↦
          ground (arith, rest, differ, lookup-insert r k (or_zero (lookup r stored)) repos)
    ]

no_more-has : (l : List Text) (k : Text) → no_more l ≡ true → has l k ≡ false
no_more-has [] k h = refl
no_more-has (x ∷ l) k h = cc

-- After a repair the map has a route exactly if it is in storage and was either registered before
-- or may be enabled; a route that was registered keeps its entry, and one that is enabled gets the
-- stored one.
pub lookup-repaired :
    (enable : Bool) (repos stored : Repos) (k : Text)
    → lookup k (repaired enable repos stored) ≡ (
        if has (keys stored) k
        then (if has (keys repos) k
            then lookup k repos
            else if enable
            then lookup k stored
            else none)
        else none)
unfolding repaired
lookup-repaired enable repos stored k =
    let (_, missing, unregistered) = segment_keys_lem repos stored k in
    let kept =
      if enable && not (no_more (segment_keys repos stored).2)
      then register_all stored (segment_keys repos stored).2 repos
      else repos in
    ground (
      arith,
      lookup-delete_all (segment_keys repos stored).1 kept k,
      lookup-register_all stored (segment_keys repos stored).2 repos k
          (λ r e. ground (arith, (segment_keys_lem repos stored r).2, e)),
      missing,
      unregistered,
      no_more-has (segment_keys repos stored).2 k,
      (lookup-has k repos).1,
    )
