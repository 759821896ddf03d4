-- ===== src/Bundles/ListFile/Atomic.antt =====
-- A commit that ends anywhere leaves whole files.
use git_bundle_server.Base.{
  Text, codes, false, ◌≡◌, ◌⊎◌, inl, inr, refl, ◌∙◌, arith, text_eq, text_Eq, text_eq_sym, Error,
  wrapping, wrapped, ◌>>◌, bind_from,
}
use git_bundle_server.Base.Assoc.{Distinct}
use git_bundle_server.Bundles.ListFile.{commit_all}
use git_bundle_server.Bundles.ListFile.Commit.{six}
use git_bundle_server.Common.FileSystem.{commit}
use git_bundle_server.Common.FileSystem.Lock.{lock_of, lock_file}
use git_bundle_server.Machine.{Machine, IsLawful, Reply, done, failed, outcome}

-- The file at `p` holds what it or its lock file held.
abbrev pub Whole : (m : Machine) → m.World → m.World → Text → Type 0
Whole m w w' p = (m.file w' p ≡ m.file w p) ⊎ (m.file w' p ≡ m.file w (lock_of p))

module _ (m : Machine) (lawful : IsLawful m) (p q r : Text) (apart : Distinct (six p q r))
    (w : m.World) where
  reply-cases : (o : Reply (Unit {0})) → (o ≡ done tt) ⊎ ((e : Error) × (o ≡ failed e))
  reply-cases (done tt) = inl refl
  reply-cases (failed e) = inr (e, refl)

  abbrev w₁ : m.World
  w₁ = (m.rename (lock_of r) r w).1

  abbrev w₂ : m.World
  w₂ = (m.rename (lock_of p) p w₁).1

  abbrev w₃ : m.World
  w₃ = (m.rename (lock_of q) q w₂).1

  -- A rename of a lock file, done or failed, leaves its file whole.
  rename-Whole : (a : Text) (v : m.World) → Whole m v (m.rename (lock_of a) a v).1 a
  rename-Whole a v = elim (reply-cases (m.rename (lock_of a) a v).0) [
    | inl d ↦ inr (lawful.rename_done (lock_of a) a v d)
    | inr (e, f) ↦ lawful.rename_failed (lock_of a) a v e f
  ]

  -- Another file stays as it was.
  other-Whole :
      (a x : Text) (v : m.World)
      → text_eq (lock_of a) x ≡ false
      → text_eq a x ≡ false
      → Whole m w v x
      → Whole m w (m.rename (lock_of a) a v).1 x
  other-Whole a x v h k (inl same) = inl (lawful.rename_only (lock_of a) a v x h k ∙ same)
  other-Whole a x v h k (inr moved) = inr (lawful.rename_only (lock_of a) a v x h k ∙ moved)

  -- The file itself, where it and its lock file are as they were at first.
  own-Whole :
      (a : Text) (v : m.World)
      → m.file v a ≡ m.file w a
      → m.file v (lock_of a) ≡ m.file w (lock_of a)
      → Whole m w (m.rename (lock_of a) a v).1 a
  own-Whole a v h k = elim (rename-Whole a v) [
    | inl same ↦ inl (same ∙ h)
    | inr moved ↦ inr (moved ∙ k)
  ]

  untouched₁ :
      (x : Text) → text_eq (lock_of r) x ≡ false → text_eq r x ≡ false → m.file w₁ x ≡ m.file w x
  untouched₁ x h k = lawful.rename_only (lock_of r) r w x h k

  untouched₂ :
      (x : Text)
      → text_eq (lock_of r) x ≡ false
      → text_eq r x ≡ false
      → text_eq (lock_of p) x ≡ false
      → text_eq p x ≡ false
      → m.file w₂ x ≡ m.file w x
  untouched₂ x h k i j = lawful.rename_only (lock_of p) p w₁ x i j ∙ untouched₁ x h k

  abbrev AllWhole : m.World → Type 0
  AllWhole v = Whole m w v p × Whole m w v q × Whole m w v r

  all₁ : AllWhole w₁
  all₁ = (
    inl (
        untouched₁ p (ground (arith, text_eq_sym (lock_of r) p)) (ground (arith, text_eq_sym r p))),
    inl (
        untouched₁ q (ground (arith, text_eq_sym (lock_of r) q)) (ground (arith, text_eq_sym r q))),
    rename-Whole r w,
  )

  all₂ : AllWhole w₂
  all₂ = (
    own-Whole p w₁
        (untouched₁ p (ground (arith, text_eq_sym (lock_of r) p)) (ground (arith, text_eq_sym r p)))
        (untouched₁ (lock_of p) (ground (arith, text_eq_sym (lock_of r) (lock_of p)))
          (ground (arith, text_eq_sym r (lock_of p)))),
    other-Whole p q w₁ (ground (arith, text_eq_sym (lock_of p) q)) (ground (arith, text_eq_sym p q))
        all₁.1,
    other-Whole p r w₁ (ground (arith, text_eq_sym (lock_of p) r)) (ground (arith, text_eq_sym p r))
        all₁.2,
  )

  all₃ : AllWhole w₃
  all₃ = (
    other-Whole q p w₂ (ground (arith, text_eq_sym (lock_of q) p)) (ground (arith, text_eq_sym q p))
        all₂.0,
    own-Whole q w₂
        (untouched₂ q (ground (arith, text_eq_sym (lock_of r) q)) (ground (arith, text_eq_sym r q))
          (ground (arith, text_eq_sym (lock_of p) q)) (ground (arith, text_eq_sym p q)))
        (untouched₂ (lock_of q) (ground (arith, text_eq_sym (lock_of r) (lock_of q)))
          (ground (arith, text_eq_sym r (lock_of q)))
          (ground (arith, text_eq_sym (lock_of p) (lock_of q)))
          (ground (arith, text_eq_sym p (lock_of q)))),
    other-Whole q r w₂ (ground (arith, text_eq_sym (lock_of q) r)) (ground (arith, text_eq_sym q r))
        all₂.2,
  )

  -- On a lawful machine, for three files whose paths and lock files' paths all differ: wherever the
  -- commits end, in success or with the error of any of the three, each file holds all that it held
  -- before or all that its lock file held.
  pub commit_all-Whole :
      let w' = (commit_all m (lock_file p, lock_file q, lock_file r) w).1 in
      Whole m w w' p × Whole m w w' q × Whole m w w' r
  unfolding commit_all commit
  commit_all-Whole = by_first (m.rename (lock_of r) r w).0
    where
      by_second :
          (o : Reply (Unit {0}))
          → AllWhole
              (bind_from
                (wrapped (codes "failed to rename bundle list file: ") (outcome o))
                w₂
                (λ _.
                  wrapping
                    (codes "failed to rename repo-level bundle list file: ")
                    (commit m (lock_file q)))).1
      by_second (done x) = all₃
      by_second (failed e) = all₂

      by_first :
          (o : Reply (Unit {0}))
          → AllWhole
              (bind_from (wrapped (codes "failed to rename JSON file: ") (outcome o)) w₁ (λ _.
                wrapping (codes "failed to rename bundle list file: ") (commit m (lock_file p))
                >> wrapping
                    (codes "failed to rename repo-level bundle list file: ")
                    (commit m (lock_file q)))).1
      by_first (done x) = by_second (m.rename (lock_of p) p w₁).0
      by_first (failed e) = all₁
