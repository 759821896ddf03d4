-- ===== src/Common/FileSystem.antt =====
-- internal/common/filesystem.go: `fileSystem` and its lock files, over a machine.
pub mod Lock
pub mod Lines
use git_bundle_server.Base.{
  ℕ, zero, suc, map, nat_eq, Text, codes, Bool, true, false, not, ◌&&◌, List, [], ◌∷◌, ◌++◌, Option,
  none, some, ◌≡◌, refl, if◌then◌else◌, ltb, length, Error, errno, not_exist, message, wrap,
  Errno.other, Outcome, ok, err, halt, M, return, throw, bind_from, ◌>>=◌, ◌>>◌, wrapped, wrapping,
}
use git_bundle_server.Go.Path.{dir, join}
use git_bundle_server.Go.Strings.{split, is_empty}
use git_bundle_server.Machine.{Machine, Reply, done, failed, DirEntry, outcome, call}

-- `errors.Is(err, os.ErrNotExist)`
unfoldable pub is_not_exist : Error → Bool
is_not_exist (errno not_exist) = true
is_not_exist (errno (other t)) = false
is_not_exist (message t) = false
is_not_exist (wrap p e) = is_not_exist e

-- `pathErr, ok := err.(*os.PathError); ok && pathErr.Err == syscall.ENOENT`
unfoldable pub is_enoent : Error → Bool
is_enoent (errno not_exist) = true
is_enoent (errno (other t)) = false
is_enoent (message t) = false
is_enoent (wrap p e) = false

-- `lockFile`
pub record LockFile : Type 0 where
  pub filename : Text
  pub lock_filename : Text

-- `bufio.Scanner` gives up, with an error that no caller reads, at a line of 64 KiB or more.
abbrev pub max_line : ℕ
max_line = 65_536

abbrev pub drop_cr : Text → Text
drop_cr [] = []
drop_cr (c ∷ []) = if nat_eq c b'\r' then [] else c ∷ []
drop_cr (c ∷ d ∷ s) = c ∷ drop_cr (d ∷ s)

abbrev pub no_more {ℓ} : {A : Type ℓ} → List A → Bool
no_more [] = true
no_more (w ∷ ws) = false

-- The pieces between newlines as the lines that the scanner gives: an empty last piece is none.
unfoldable pub lines_of : List Text → List Text
lines_of [] = []
lines_of (w ∷ ws) =
    let rest = lines_of ws in
    if is_empty w && no_more ws
    then []
    else if ltb (length w) max_line
    then drop_cr w ∷ rest
    else []

-- `scanner := bufio.NewScanner(...); for scanner.Scan() { ... scanner.Text() ... }`
unfoldable pub scan_lines : Text → List Text
scan_lines s = lines_of (split b'\n' s)

-- Both results of `os.Stat`.
abbrev stat_result : Outcome (Unit {0}) → Outcome Bool
stat_result (ok _) = ok true
stat_result (err e) =
    if is_not_exist e
    then ok false
    else err (wrap (codes "error checking for file existence with 'stat': ") e)
stat_result (halt h) = halt h

abbrev found : Text → Text → Outcome Bool → Outcome Text
found name path (ok true) = ok path
found name path (ok false) = err (message (codes "could not find path to '" ++ name ++ codes "'"))
found name path (err e) =
    err (wrap (codes "could not determine whether path to '" ++ name ++ codes "' exists: ") e)
found name path (halt h) = halt h

abbrev remove_result : Outcome (Unit {0}) → Outcome Bool
remove_result (ok _) = ok true
remove_result (err e) = if is_enoent e then ok false else err e
remove_result (halt h) = halt h

abbrev lines_result : Outcome Text → Outcome (List Text)
lines_result (ok content) = ok (scan_lines content)
lines_result (err e) = if is_enoent e then ok [] else err e
lines_result (halt h) = halt h

-- `ReadDirEntry`
pub record ReadDirEntry : Type 0 where
  pub path : Text
  pub is_dir : Bool

-- `mapDirEntry` with `fsEntry.Path`
unfoldable pub map_dir_entry : Text → DirEntry → ReadDirEntry
map_dir_entry root e = record { path = join (root ∷ e.name ∷ []); is_dir = e.is_dir }

module _ (m : Machine) where
  open m use {World}

  -- `lockFile.Commit`
  unfoldable pub commit : LockFile → M World (Unit {0})
  commit l = call (m.rename l.lock_filename l.filename)

  -- `lockFile.Rollback`
  unfoldable pub rollback : LockFile → M World (Unit {0})
  rollback l = call (m.remove l.lock_filename)

  unfoldable pub create_leading_dirs : Text → M World (Unit {0})
  create_leading_dirs filename =
      wrapping (codes "error creating parent directories: ") (call (m.mkdir_all (dir filename)))

  unfoldable pub file_exists : Text → M World Bool
  file_exists filename w = (stat_result (outcome (m.stat filename w).0), (m.stat filename w).1)

  -- The second test of `err` in the source tests the same value again.
  unfoldable pub get_local_executable : Text → M World Text
  get_local_executable name = do
    exe ←
        wrapping (codes "failed to get path to current executable: ")
          (λ w. (outcome m.executable, w))
    λ w.
        let program = join (dir exe ∷ name ∷ []) in
        (found name program (file_exists program w).0, (file_exists program w).1)

  unfoldable pub write_file : Text → Text → M World (Unit {0})
  write_file filename content = do
    create_leading_dirs filename
    wrapping (codes "could not write file: ") (call (m.write_file filename content))

  -- What `WriteLockFileFunc` does with the result of `writeFunc`.
  abbrev pub close_lock : LockFile → Outcome (Unit {0}) → M World LockFile
  close_lock l (ok _) w =
      let (closed, w₁) = m.close l.lock_filename w in
      elim closed [
        | done _ ↦ (ok l, w₁)
        | failed e ↦
            (err (wrap (codes "failed to close lock file: ") e), (m.remove l.lock_filename w₁).1)
      ]
  close_lock l (err e) w = (err e, (m.remove l.lock_filename (m.close l.lock_filename w).1).1)
  close_lock l (halt h) w = (halt h, w)

  -- The lock file is opened with neither O_EXCL nor O_TRUNC.
  abbrev pub open_lock : LockFile → M World (Unit {0})
  open_lock l = wrapping (codes "failed to open file: ") (call (m.open_create l.lock_filename))

  -- `writeFunc(lock)`, and what follows it.
  abbrev pub fill_lock : (Text → M World (Unit {0})) → LockFile → M World LockFile
  fill_lock write_func l w =
      close_lock l (write_func l.lock_filename w).0 (write_func l.lock_filename w).1

  unfoldable pub write_lock_file_func : Text → (Text → M World (Unit {0})) → M World LockFile
  write_lock_file_func filename write_func = do
    create_leading_dirs filename
    let l : LockFile = record { filename = filename; lock_filename = filename ++ codes ".lock" }
    open_lock l
    fill_lock write_func l

  unfoldable pub delete_file : Text → M World Bool
  delete_file filename w =
      (remove_result (outcome (m.remove filename w).0), (m.remove filename w).1)

  unfoldable pub read_file_lines : Text → M World (List Text)
  read_file_lines filename w =
      (lines_result (outcome (m.open_read filename w).0), (m.open_read filename w).1)

  -- The loop of `ReadDirRecursive`; `read` is the call one level down.
  unfoldable pub read_entries :
      (Text → M World (List ReadDirEntry)) → Bool → List ReadDirEntry → M World (List ReadDirEntry)
  read_entries read strict [] = return []
  read_entries read strict (e ∷ es) =
      let rest = read_entries read strict es in
      if not e.is_dir then (do out ← rest; return (if strict then out else e ∷ out)) else (do
        sub ← read e.path
        out ← rest
        return (if not strict && no_more sub then e ∷ out else sub ++ out))

  unfoldable pub read_dir_recursive : ℕ → Text → Bool → M World (List ReadDirEntry)
  read_dir_recursive zero path strict = return []
  read_dir_recursive (suc depth) path strict = do
    found ← call (m.read_dir path)
    let entries = map (map_dir_entry path) found
    elim depth [
      | zero ↦ return entries
      | suc _ ↦ read_entries (λ p. read_dir_recursive depth p strict) strict entries
    ]
