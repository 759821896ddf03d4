-- ===== src/Bundles/ListFile/Publish.antt =====
-- `WriteBundleList`: which files it touches, and what they hold when it succeeds.
use git_bundle_server.Base.{
  true, false, Text, List, [], ◌∷◌, some, ◌≡◌, refl, ◌∙◌, ap, arith, text_Eq, text_eq, text_eq_refl,
  text_eq_iff, All, M, Outcome, ok, err, halt, ◌>>=◌, return,
}
use git_bundle_server.Base.Assoc.{has}
use git_bundle_server.Bundles.BundleList.{BundleList}
use git_bundle_server.Bundles.ListFile.{
  Json, list_path, repo_list_path, json_path, request, request_with_slash, list_file,
  write_list_file, write_json, marshalled, put_json, rollback_all, after, or_rollback, lock_list,
  lock_repo_list, lock_json, lock_all,
}
use git_bundle_server.Common.FileSystem.{LockFile, rollback, write_lock_file_func}
use git_bundle_server.Common.FileSystem.Lock.{
  lock_of, lock_file, Writes, write_lock_file_func-Keeps, write_lock_file_func-lock_file,
  write_lock_file_func-eq-ok,
}
use git_bundle_server.Core.Repo.{Repository}
use git_bundle_server.Machine.{Machine, IsLawful, overlay, or_empty}
use git_bundle_server.Machine.Frame.{Keeps, >>=-Keeps, >>=-Keeps_of}

-- The lock files of the three files.
abbrev pub lock_paths : Repository → List Text
lock_paths repo =
    lock_of (list_path repo) ∷ lock_of (repo_list_path repo) ∷ lock_of (json_path repo) ∷ []

abbrev Within : List Text → LockFile → Type 0
Within ps l = has ps l.lock_filename ≡ true

has-apart : (ps : List Text) (p q : Text) → has ps p ≡ true → has ps q ≡ false → text_eq p q ≡ false
has-apart [] p q h k = cc
has-apart (x ∷ ps) p q h k =
    ground (arith, has-apart ps p q, text_eq_iff x p, text_eq_iff x q, text_eq_iff p q)

module _ (m : Machine) (lawful : IsLawful m) where
  rollback_all-file :
      (ps : List Text) (ls : List LockFile) (w : m.World) (q : Text)
      → All (Within ps) ls
      → has ps q ≡ false
      → m.file (rollback_all m ls w) q ≡ m.file w q
  unfolding rollback_all rollback
  rollback_all-file ps [] w q a h = refl
  rollback_all-file ps (l ∷ ls) w q a h =
      rollback_all-file ps ls (m.remove l.lock_filename w).1 q a.1 h
      ∙ lawful.remove_only l.lock_filename w q (has-apart ps l.lock_filename q a.0 h)

  or_rollback-Keeps :
      {A : Type 0} (ps : List Text) (ls : List LockFile) (a : M m.World A)
      → All (Within ps) ls
      → Keeps m ps a
      → Keeps m ps (or_rollback m ls a)
  or_rollback-Keeps {A} ps ls a within keeps w q h = by_outcome (a w).0 ∙ keeps w q h
    where
      by_outcome : (o : Outcome A) → m.file (after m ls o (a w).1).1 q ≡ m.file (a w).1 q
      by_outcome (ok x) = refl
      by_outcome (err e) = rollback_all-file ps ls (a w).1 q within h
      by_outcome (halt s) = refl

  pub or_rollback-eq-ok :
      {A : Type 0} (ls : List LockFile) (a : M m.World A) (w : m.World) {x : A}
      → (or_rollback m ls a w).0 ≡ ok x
      → ((a w).0 ≡ ok x) × (or_rollback m ls a w ≡ a w)
  or_rollback-eq-ok {A} ls a w {x} h = by_outcome (a w).0 refl
    where
      by_outcome : (o : Outcome A) → (a w).0 ≡ o → ((a w).0 ≡ ok x) × (or_rollback m ls a w ≡ a w)
      by_outcome (ok y) e = ground (arith, h, e)
      by_outcome (err y) e = cc
      by_outcome (halt y) e = cc

  Keeps-within :
      {A : Type 0} (ps : List Text) (p : Text) (a : M m.World A)
      → has ps p ≡ true
      → Keeps m (p ∷ []) a
      → Keeps m ps a
  Keeps-within ps p a within keeps w q h = keeps w q (ground (arith, has-apart ps p q within h))

  pub write_list_file-Keeps :
      (list : BundleList) (uri lock : Text) → Keeps m (lock ∷ []) (write_list_file m list uri lock)
  unfolding write_list_file
  write_list_file-Keeps list uri lock w q h =
      ground (arith, lawful.write_only lock (list_file list uri).0 w q)

  pub write_json-Keeps :
      (j : Json) (list : BundleList) (lock : Text) → Keeps m (lock ∷ []) (write_json m j list lock)
  unfolding write_json
  write_json-Keeps j list lock =
      >>=-Keeps m (lock ∷ []) (marshalled m j list) (λ text. put_json m lock text) (λ w q h. refl)
        (λ text w q h. lawful.write_only lock text w q (ground arith))

  abbrev pub step : Text → (Text → M m.World (Unit {0})) → List LockFile → M m.World LockFile
  step filename write_func ls = or_rollback m ls (write_lock_file_func m filename write_func)

  step-Keeps :
      (ps : List Text) (filename : Text) (write_func : Text → M m.World (Unit {0}))
      (ls : List LockFile)
      → has ps (lock_of filename) ≡ true
      → All (Within ps) ls
      → ((lock : Text) → Keeps m (lock ∷ []) (write_func lock))
      → Keeps m ps (step filename write_func ls)
  step-Keeps ps filename write_func ls own within keeps =
      let a = write_lock_file_func m filename write_func in
      or_rollback-Keeps ps ls a within (
        Keeps-within ps (lock_of filename) a own
          (write_lock_file_func-Keeps m lawful filename write_func (keeps (lock_of filename))))

  pub step-lock_file :
      (filename : Text) (write_func : Text → M m.World (Unit {0})) (ls : List LockFile)
      (w : m.World) (l : LockFile)
      → (step filename write_func ls w).0 ≡ ok l
      → l ≡ lock_file filename
  step-lock_file filename write_func ls w l e =
      let a = write_lock_file_func m filename write_func in
      write_lock_file_func-lock_file m lawful filename write_func w l (or_rollback-eq-ok ls a w e).0

  pub step-eq-ok :
      (filename text : Text) (write_func : Text → M m.World (Unit {0})) (ls : List LockFile)
      (w : m.World) (l : LockFile)
      → Writes m text write_func
      → (step filename write_func ls w).0 ≡ ok l
      → m.file (step filename write_func ls w).1 (lock_of filename)
        ≡ some (overlay text (or_empty (m.file w (lock_of filename))))
  step-eq-ok filename text write_func ls w l writes e =
      let a = write_lock_file_func m filename write_func in
      let (succeeded, same) = or_rollback-eq-ok ls a w e in
      ap (λ (s : Outcome LockFile × m.World). m.file s.1 (lock_of filename)) same
      ∙ (write_lock_file_func-eq-ok m lawful filename text write_func w l writes succeeded).1

  -- The two steps behind the first one.
  abbrev pub after_list :
      Json → BundleList → Repository → LockFile → M m.World (LockFile × LockFile × LockFile)
  after_list j list repo list_lock = do
    repo_lock ← lock_repo_list m list repo list_lock
    json_lock ← lock_json m j list repo list_lock repo_lock
    return (list_lock, repo_lock, json_lock)

  abbrev pub after_repo_list :
      Json
      → BundleList
      → Repository
      → LockFile
      → LockFile
      → M m.World (LockFile × LockFile × LockFile)
  after_repo_list j list repo list_lock repo_lock = do
    json_lock ← lock_json m j list repo list_lock repo_lock
    return (list_lock, repo_lock, json_lock)

  -- On a lawful machine, up to the commit only the lock files are touched, whatever comes out: an
  -- error, the panic over a URI, or three lock files.
  pub lock_all-Keeps :
      (j : Json) (list : BundleList) (repo : Repository)
      → Keeps m (lock_paths repo) (lock_all m j list repo)
  unfolding lock_all
  lock_all-Keeps j list repo =
      let ps = lock_paths repo in
      let p = list_path repo in
      let q = repo_list_path repo in
      let r = json_path repo in
      let has_p : has ps (lock_of p) ≡ true = ground (arith, text_eq_refl (lock_of p)) in
      let has_q : has ps (lock_of q) ≡ true = ground (arith, text_eq_refl (lock_of q)) in
      let has_r : has ps (lock_of r) ≡ true = ground (arith, text_eq_refl (lock_of r)) in
      let write₁ = write_list_file m list (request_with_slash repo) in
      let write₂ = write_list_file m list (request repo) in
      >>=-Keeps_of m ps (λ l. l ≡ lock_file p) (lock_list m list repo) (after_list j list repo)
        (step-Keeps ps p write₁ [] has_p tt (write_list_file-Keeps list (request_with_slash repo)))
        (λ w l. step-lock_file p write₁ [] w l)
        (λ l₁ e₁.
          >>=-Keeps_of m ps (λ l. l ≡ lock_file q) (lock_repo_list m list repo l₁)
            (after_repo_list j list repo l₁)
            (step-Keeps ps q write₂ (l₁ ∷ []) has_q (rw e₁ (has_p, tt))
              (write_list_file-Keeps list (request repo)))
            (λ w l. step-lock_file q write₂ (l₁ ∷ []) w l)
            (λ l₂ e₂.
              >>=-Keeps m ps (lock_json m j list repo l₁ l₂) (λ l₃. return (l₁, l₂, l₃))
                (step-Keeps ps r (write_json m j list) (l₁ ∷ l₂ ∷ []) has_r
                  (rw (e₁, e₂) (has_p, (has_q, tt))) (write_json-Keeps j list))
                (λ l₃ w x h. refl)))
