-- ===== src/Common/FileSystem/Lock.antt =====
-- Lock files: what writing one touches, and what it then holds.
use git_bundle_server.Base.{
  Text, codes, [], ◌∷◌, ◌++◌, some, ◌≡◌, refl, ◌∙◌, ap, sym, >>=-ok, arith, text_Eq, M, Outcome, ok,
  err, halt, ◌>>◌, >>=-eq-ok,
}
use git_bundle_server.Common.FileSystem.{
  LockFile, create_leading_dirs, close_lock, open_lock, fill_lock, write_lock_file_func,
}
use git_bundle_server.Go.Path.{dir}
use git_bundle_server.Machine.{Machine, IsLawful, overlay, or_empty}
use git_bundle_server.Machine.Frame.{wrapped-outcome-eq-ok, Keeps, >>=-Keeps}

abbrev pub lock_of : Text → Text
lock_of filename = filename ++ codes ".lock"

abbrev pub lock_file : Text → LockFile
lock_file filename = record { filename = filename; lock_filename = lock_of filename }

module _ (m : Machine) (lawful : IsLawful m) where
  close_lock-Keeps :
      (l : LockFile) (o : Outcome (Unit {0})) → Keeps m (l.lock_filename ∷ []) (close_lock m l o)
  close_lock-Keeps l (ok _) w q h = ground (
    arith,
    lawful.close_reads l.lock_filename w q,
    lawful.remove_only l.lock_filename (m.close l.lock_filename w).1 q,
  )
  close_lock-Keeps l (err e) w q h =
      lawful.remove_only l.lock_filename (m.close l.lock_filename w).1 q (ground arith)
      ∙ lawful.close_reads l.lock_filename w q
  close_lock-Keeps l (halt p) w q h = refl

  -- On a lawful machine `WriteLockFileFunc` touches the lock file alone, if its function does.
  pub write_lock_file_func-Keeps :
      (filename : Text) (write_func : Text → M m.World (Unit {0}))
      → Keeps m (lock_of filename ∷ []) (write_func (lock_of filename))
      → Keeps m (lock_of filename ∷ []) (write_lock_file_func m filename write_func)
  unfolding write_lock_file_func create_leading_dirs
  write_lock_file_func-Keeps filename write_func keeps =
      let l = lock_file filename in
      let ps = l.lock_filename ∷ [] in
      let filled : Keeps m ps (fill_lock m write_func l) = λ w q h.
        close_lock-Keeps l (write_func l.lock_filename w).0 (write_func l.lock_filename w).1 q h
        ∙ keeps w q h in
      let opened : Keeps m ps (open_lock m l) =
        λ w q h. lawful.open_create_only l.lock_filename w q (ground arith) in
      >>=-Keeps m ps (create_leading_dirs m filename)
        (λ _. open_lock m l >> fill_lock m write_func l)
        (λ w q h. lawful.mkdir_all_reads (dir filename) w q)
        (λ _. >>=-Keeps m ps (open_lock m l) (λ _. fill_lock m write_func l) opened (λ _. filled))

-- The function writes this text over what the file holds.
abbrev pub Writes : (m : Machine) → Text → (Text → M m.World (Unit {0})) → Type 0
Writes m text write_func =
    (lock : Text) (w : m.World)
    → (write_func lock w).0 ≡ ok tt
    → m.file (write_func lock w).1 lock ≡ some (overlay text (or_empty (m.file w lock)))

module _ (m : Machine) (lawful : IsLawful m) where
  close_lock-eq-ok :
      (l l' : LockFile) (o : Outcome (Unit {0})) (w : m.World)
      → (close_lock m l o w).0 ≡ ok l'
      → (o ≡ ok tt)
        × (l ≡ l')
        × (m.file (close_lock m l o w).1 l.lock_filename ≡ m.file w l.lock_filename)
  close_lock-eq-ok l l' (ok _) w h =
      ground (arith, lawful.close_reads l.lock_filename w l.lock_filename)
  close_lock-eq-ok l l' (err e) w h = cc
  close_lock-eq-ok l l' (halt p) w h = cc

  -- The lock file that is returned is that of the file.
  pub write_lock_file_func-lock_file :
      (filename : Text) (write_func : Text → M m.World (Unit {0})) (w : m.World) (l : LockFile)
      → (write_lock_file_func m filename write_func w).0 ≡ ok l
      → l ≡ lock_file filename
  unfolding write_lock_file_func create_leading_dirs
  write_lock_file_func-lock_file filename write_func w l e =
      let l₀ = lock_file filename in
      let (_, _, e₁) =
        >>=-eq-ok (create_leading_dirs m filename)
          (λ _. open_lock m l₀ >> fill_lock m write_func l₀) w e in
      let w₁ = (create_leading_dirs m filename w).1 in
      let (_, _, e₂) = >>=-eq-ok (open_lock m l₀) (λ _. fill_lock m write_func l₀) w₁ e₁ in
      let w₂ = (open_lock m l₀ w₁).1 in
      sym
        (close_lock-eq-ok l₀ l (write_func (lock_of filename) w₂).0
          (write_func (lock_of filename) w₂).1 e₂).1

  -- On a lawful machine, if `WriteLockFileFunc` succeeds with a function that writes a text, the
  -- lock file holds the text, over what a lock file that stood there before held.
  pub write_lock_file_func-eq-ok :
      (filename text : Text) (write_func : Text → M m.World (Unit {0})) (w : m.World) (l : LockFile)
      → Writes m text write_func
      → (write_lock_file_func m filename write_func w).0 ≡ ok l
      → (l ≡ lock_file filename)
        × (m.file (write_lock_file_func m filename write_func w).1 (lock_of filename)
            ≡ some (overlay text (or_empty (m.file w (lock_of filename)))))
  unfolding write_lock_file_func create_leading_dirs
  write_lock_file_func-eq-ok filename text write_func w l writes e =
      let l₀ = lock_file filename in
      let (_, made, e₁) =
        >>=-eq-ok (create_leading_dirs m filename)
          (λ _. open_lock m l₀ >> fill_lock m write_func l₀) w e in
      let w₁ = (create_leading_dirs m filename w).1 in
      let (_, opened, e₂) = >>=-eq-ok (open_lock m l₀) (λ _. fill_lock m write_func l₀) w₁ e₁ in
      let w₂ = (open_lock m l₀ w₁).1 in
      let (wrote, same, closed) =
        close_lock-eq-ok l₀ l (write_func (lock_of filename) w₂).0
          (write_func (lock_of filename) w₂).1 e₂ in
      let run =
        >>=-ok (create_leading_dirs m filename) (λ _. open_lock m l₀ >> fill_lock m write_func l₀) w
          made
        ∙ >>=-ok (open_lock m l₀) (λ _. fill_lock m write_func l₀) w₁ opened in
      let start : or_empty (m.file w₂ (lock_of filename)) ≡ or_empty (m.file w (lock_of filename)) =
        ap or_empty (
          lawful.open_create_done (lock_of filename) w₁ (
            wrapped-outcome-eq-ok (codes "failed to open file: ")
              (m.open_create (lock_of filename) w₁).0 opened))
        ∙ ap or_empty (lawful.mkdir_all_reads (dir filename) w (lock_of filename)) in
      (
        sym same,
        ap (λ (r : Outcome LockFile × m.World). m.file r.1 (lock_of filename)) run
            ∙ closed
            ∙ writes (lock_of filename) w₂ wrote
            ∙ ap (λ o. some (overlay text o)) start,
      )
