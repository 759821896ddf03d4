-- ===== src/Bundles/ListFile/Commit.antt =====
-- The commit of the three lock files of `WriteBundleList`.
use git_bundle_server.Base.{
  Text, codes, List, [], ◌∷◌, none, ◌≡◌, ◌∙◌, ap, arith, text_Eq, text_eq_sym, M, Outcome, ok, ◌>>◌,
  >>=-eq-ok, >>=-ok, wrapping,
}
use git_bundle_server.Base.Assoc.{Distinct}
use git_bundle_server.Bundles.ListFile.{commit_all}
use git_bundle_server.Common.FileSystem.{commit}
use git_bundle_server.Common.FileSystem.Lock.{lock_of, lock_file}
use git_bundle_server.Machine.Frame.{wrapped-outcome-eq-ok}
use git_bundle_server.Machine.{Machine, IsLawful, done}

-- Three files and their lock files.
abbrev pub six : Text → Text → Text → List Text
six p q r = p ∷ q ∷ r ∷ lock_of p ∷ lock_of q ∷ lock_of r ∷ []

module _ (m : Machine) (lawful : IsLawful m) (p q r : Text) (apart : Distinct (six p q r))
    (w : m.World) where
  abbrev commit_third : M m.World (Unit {0})
  commit_third = wrapping (codes "failed to rename JSON file: ") (commit m (lock_file r))

  abbrev commit_first : M m.World (Unit {0})
  commit_first = wrapping (codes "failed to rename bundle list file: ") (commit m (lock_file p))

  abbrev commit_second : M m.World (Unit {0})
  commit_second =
      wrapping (codes "failed to rename repo-level bundle list file: ") (commit m (lock_file q))

  abbrev w₁ : m.World
  w₁ = (m.rename (lock_of r) r w).1

  abbrev w₂ : m.World
  w₂ = (m.rename (lock_of p) p w₁).1

  abbrev w₃ : m.World
  w₃ = (m.rename (lock_of q) q w₂).1

  -- A commit that succeeds has made the three renames.
  renamed :
      (commit_all m (lock_file p, lock_file q, lock_file r) w).0 ≡ ok tt
      → ((m.rename (lock_of r) r w).0 ≡ done tt)
        × ((m.rename (lock_of p) p w₁).0 ≡ done tt)
        × ((m.rename (lock_of q) q w₂).0 ≡ done tt)
        × ((commit_all m (lock_file p, lock_file q, lock_file r) w).1 ≡ w₃)
  unfolding commit_all commit
  renamed e =
      let (_, a, e₁) = >>=-eq-ok commit_third (λ _. commit_first >> commit_second) w e in
      let (_, b, c) = >>=-eq-ok commit_first (λ _. commit_second) w₁ e₁ in
      let run =
        >>=-ok commit_third (λ _. commit_first >> commit_second) w a
        ∙ >>=-ok commit_first (λ _. commit_second) w₁ b in
      (
        wrapped-outcome-eq-ok _ (m.rename (lock_of r) r w).0 a,
        wrapped-outcome-eq-ok _ (m.rename (lock_of p) p w₁).0 b,
        wrapped-outcome-eq-ok _ (m.rename (lock_of q) q w₂).0 c,
        ap (λ (s : Outcome (Unit {0}) × m.World). s.1) run,
      )

  -- On a lawful machine, for three files whose paths and lock files' paths all differ: if the three
  -- commits succeed, each file holds what its lock file held, and no lock file is left.
  pub commit_all-eq-ok :
      (commit_all m (lock_file p, lock_file q, lock_file r) w).0 ≡ ok tt
      → let w' = (commit_all m (lock_file p, lock_file q, lock_file r) w).1 in
        (m.file w' p ≡ m.file w (lock_of p))
        × (m.file w' q ≡ m.file w (lock_of q))
        × (m.file w' r ≡ m.file w (lock_of r))
        × (m.file w' (lock_of p) ≡ none)
        × (m.file w' (lock_of q) ≡ none)
        × (m.file w' (lock_of r) ≡ none)
  commit_all-eq-ok e =
      let (a, b, c, last) = renamed e in
      rw last (
        ground (
          arith,
          lawful.rename_done (lock_of p) p w₁ b,
          lawful.rename_only (lock_of r) r w (lock_of p),
          lawful.rename_only (lock_of q) q w₂ p,
          text_eq_sym (lock_of p) (lock_of r),
          text_eq_sym r (lock_of p),
          text_eq_sym q p,
          text_eq_sym (lock_of q) p,
        ),
        ground (
          arith,
          lawful.rename_done (lock_of q) q w₂ c,
          lawful.rename_only (lock_of r) r w (lock_of q),
          lawful.rename_only (lock_of p) p w₁ (lock_of q),
          text_eq_sym (lock_of q) (lock_of r),
          text_eq_sym (lock_of q) (lock_of p),
          text_eq_sym r (lock_of q),
          text_eq_sym p (lock_of q),
        ),
        ground (
          arith,
          lawful.rename_done (lock_of r) r w a,
          lawful.rename_only (lock_of p) p w₁ r,
          lawful.rename_only (lock_of q) q w₂ r,
          text_eq_sym p r,
          text_eq_sym q r,
          text_eq_sym (lock_of p) r,
          text_eq_sym (lock_of q) r,
        ),
        ground (
          arith,
          lawful.rename_gone (lock_of p) p w₁,
          lawful.rename_only (lock_of q) q w₂ (lock_of p),
          text_eq_sym p (lock_of p),
          text_eq_sym q (lock_of p),
          text_eq_sym (lock_of q) (lock_of p),
          b,
        ),
        ground (arith, lawful.rename_gone (lock_of q) q w₂, text_eq_sym q (lock_of q), c),
        ground (
          arith,
          lawful.rename_gone (lock_of r) r w,
          lawful.rename_only (lock_of p) p w₁ (lock_of r),
          lawful.rename_only (lock_of q) q w₂ (lock_of r),
          text_eq_sym r (lock_of r),
          text_eq_sym p (lock_of r),
          text_eq_sym q (lock_of r),
          text_eq_sym (lock_of p) (lock_of r),
          text_eq_sym (lock_of q) (lock_of r),
          a,
        ),
      )
