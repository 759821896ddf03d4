-- ===== src/Bundles/ListFile.antt =====
-- internal/bundles/bundles.go: `WriteBundleList` and `GetBundleList`. The JSON form of a list is
-- that of package encoding/json, a parameter.
pub mod Uris
pub mod Commit
pub mod Atomic
pub mod Publish
pub mod Contents
use git_bundle_server.Base.{
  ℕ, Text, codes, Bool, true, false, List, [], ◌∷◌, ◌++◌, Option, none, some, if◌then◌else◌, ℤ,
  ℤ.pos, int_Eq, text_Eq, ◌==◌, ◌≡◌, Error, message, wrap, Outcome, ok, err, halt, Halt.panic, M,
  return, throw, stop, bind_from, ◌>>=◌, ◌>>◌, wrapped, wrapping,
}
use git_bundle_server.Base.Assoc.{lookup}
use git_bundle_server.Bundles.BundleList.{Bundle, Bundles, BundleList, sorted_creation_tokens}
use git_bundle_server.Common.FileSystem.{LockFile, commit, rollback, write_lock_file_func}
use git_bundle_server.Core.Repo.{Repository}
use git_bundle_server.Go.Decimal.{show_int}
use git_bundle_server.Go.Path.{join, dir}
use git_bundle_server.Go.Strings.{trim_prefix}
use git_bundle_server.Go.Utf8.{valid_utf8}
use git_bundle_server.Machine.{Machine, Reply, done, failed, outcome, call}

abbrev pub bundle_list_json_filename : Text
bundle_list_json_filename = codes "bundle-list.json"

abbrev pub bundle_list_filename : Text
bundle_list_filename = codes "bundle-list"

abbrev pub repo_bundle_list_filename : Text
repo_bundle_list_filename = codes "repo-bundle-list"

-- A decoder reads one value and leaves what stands behind it. A map has no order.
abbrev pub Agree : BundleList → BundleList → Type 0
Agree a b =
    (a.version ≡ b.version)
    × (a.mode ≡ b.mode)
    × (a.heuristic ≡ b.heuristic)
    × ((k : ℤ) → lookup k a.bundles ≡ lookup k b.bundles)

-- The texts of a bundle, and of a list, are valid UTF-8.
pub record IsTextBundle (b : Bundle) : Type 0 where
  pub uri : valid_utf8 b.uri ≡ true
  pub filename : valid_utf8 b.filename ≡ true

pub record IsText (list : BundleList) : Type 0 where
  pub mode : valid_utf8 list.mode ≡ true
  pub heuristic : valid_utf8 list.heuristic ≡ true
  pub listed : (k : ℤ) (b : Bundle) → lookup k list.bundles ≡ some b → IsTextBundle b

-- `json.Marshal`, and `json.NewDecoder(...).Decode`.
pub record Json : Type 0 where
  pub marshal : BundleList → Reply Text
  pub decode : Text → Reply BundleList

-- Encoding replaces what is no valid UTF-8, so only lists of valid texts are read back.
pub record IsJson (j : Json) : Type 0 where
  pub decode-marshal :
      (list : BundleList) (text rest : Text)
      → IsText list
      → j.marshal list ≡ done text
      → (back : BundleList) × (j.decode (text ++ rest) ≡ done back) × Agree back list

-- `list.Bundles[token]` where there is no such key
abbrev zero_bundle : Bundle
zero_bundle = record { uri = []; filename = []; creation_token = pos 0 }

abbrev or_zero : Option Bundle → Bundle
or_zero none = zero_bundle
or_zero (some b) = b

abbrev pub bundle_at : ℤ → Bundles → Bundle
bundle_at token bundles = or_zero (lookup token bundles)

abbrev pub list_header : BundleList → Text
list_header list =
    codes "[bundle]\n\tversion = "
    ++ (show_int list.version
        ++ (codes "\n\tmode = "
            ++ (list.mode ++ (codes "\n\theuristic = " ++ (list.heuristic ++ codes "\n\n")))))

unfoldable pub entry : ℤ → Text → Text
entry token uri =
    codes "[bundle \""
    ++ (show_int token
        ++ (codes "\"]\n\turi = "
            ++ (uri ++ (codes "\n\tcreationToken = " ++ (show_int token ++ codes "\n\n")))))

-- The loop over the tokens: the text written, and whether it ended in the panic.
unfoldable pub entries : Text → Bundles → List ℤ → Text × Bool
entries uri_base bundles [] = ([], false)
entries uri_base bundles (token ∷ tokens) =
    let bundle = bundle_at token bundles in
    let uri = trim_prefix bundle.uri uri_base in
    let rest = entries uri_base bundles tokens in
    if uri == bundle.uri then ([], true) else (entry token uri ++ rest.0, rest.1)

abbrev pub uri_base : Text → Text
uri_base request_uri = dir request_uri ++ codes "/"

-- All that `writeListFile` hands to its buffered writer.
unfoldable pub list_file : BundleList → Text → Text × Bool
list_file list request_uri =
    let es = entries (uri_base request_uri) list.bundles (sorted_creation_tokens list) in
    (list_header list ++ es.0, es.1)

abbrev pub list_path : Repository → Text
list_path repo = join (repo.web_dir ∷ bundle_list_filename ∷ [])

abbrev pub repo_list_path : Repository → Text
repo_list_path repo = join (repo.web_dir ∷ repo_bundle_list_filename ∷ [])

abbrev pub json_path : Repository → Text
json_path repo = join (repo.repo_dir ∷ bundle_list_json_filename ∷ [])

-- The requests that the two list files answer.
abbrev pub request : Repository → Text
request repo = join (codes "/" ∷ repo.route ∷ [])

abbrev pub request_with_slash : Repository → Text
request_with_slash repo = request repo ++ codes "/"

module _ (m : Machine) where
  open m use {World}

  -- `writeListFile`. The deferred `Flush` writes what the loop produced, also under a panic, and
  -- nothing reads its error.
  unfoldable pub write_list_file : BundleList → Text → Text → M World (Unit {0})
  write_list_file list request_uri lock w =
      let text = list_file list request_uri in
      let w' = (m.write lock text.0 w).1 in
      if text.1 then (halt (panic (codes "error resolving bundle URI paths")), w') else (ok tt, w')

  -- The error of a failed write is not the one that is wrapped: `err` is nil there.
  abbrev written_json : Outcome (Unit {0}) → Outcome (Unit {0})
  written_json (ok x) = ok x
  written_json (err e) = err (message (codes "failed to write JSON: %!w(<nil>)"))
  written_json (halt h) = halt h

  abbrev pub marshalled : Json → BundleList → M World Text
  marshalled j list =
      wrapping (codes "failed to convert list to JSON: ") (λ w. (outcome (j.marshal list), w))

  abbrev pub put_json : Text → Text → M World (Unit {0})
  put_json lock text w = (written_json (outcome (m.write lock text w).0), (m.write lock text w).1)

  unfoldable pub write_json : Json → BundleList → Text → M World (Unit {0})
  write_json j list lock = do text ← marshalled j list; put_json lock text

  -- `rollbackAll`, for the lock files that are not nil
  unfoldable pub rollback_all : List LockFile → World → World
  rollback_all [] w = w
  rollback_all (l ∷ ls) w = rollback_all ls (rollback m l w).1

  abbrev pub after : {A : Type 0} → List LockFile → Outcome A → World → Outcome A × World
  after ls (ok x) w = (ok x, w)
  after ls (err e) w = (err e, rollback_all ls w)
  after ls (halt h) w = (halt h, w)

  abbrev pub or_rollback : {A : Type 0} → List LockFile → M World A → M World A
  or_rollback ls a w = after ls (a w).0 (a w).1

  -- The three lock files, written one after another.
  abbrev pub lock_list : BundleList → Repository → M World LockFile
  lock_list list repo =
      or_rollback []
        (write_lock_file_func m (list_path repo) (write_list_file list (request_with_slash repo)))

  abbrev pub lock_repo_list : BundleList → Repository → LockFile → M World LockFile
  lock_repo_list list repo list_lock =
      or_rollback (list_lock ∷ [])
        (write_lock_file_func m (repo_list_path repo) (write_list_file list (request repo)))

  abbrev pub lock_json : Json → BundleList → Repository → LockFile → LockFile → M World LockFile
  lock_json j list repo list_lock repo_lock =
      or_rollback (list_lock ∷ repo_lock ∷ [])
        (write_lock_file_func m (json_path repo) (write_json j list))

  unfoldable pub lock_all :
      Json → BundleList → Repository → M World (LockFile × LockFile × LockFile)
  lock_all j list repo = do
    list_lock ← lock_list list repo
    repo_lock ← lock_repo_list list repo list_lock
    json_lock ← lock_json j list repo list_lock repo_lock
    return (list_lock, repo_lock, json_lock)

  unfoldable pub commit_all : LockFile × LockFile × LockFile → M World (Unit {0})
  commit_all (list_lock, repo_lock, json_lock) = do
    wrapping (codes "failed to rename JSON file: ") (commit m json_lock)
    wrapping (codes "failed to rename bundle list file: ") (commit m list_lock)
    wrapping (codes "failed to rename repo-level bundle list file: ") (commit m repo_lock)

  unfoldable pub write_bundle_list : Json → BundleList → Repository → M World (Unit {0})
  write_bundle_list j list repo = do locks ← lock_all j list repo; commit_all locks

  unfoldable pub get_bundle_list : Json → Repository → M World BundleList
  get_bundle_list j repo = do
    text ← wrapping (codes "failed to open file: ") (call (m.open_read (json_path repo)))
    wrapping (codes "failed to parse JSON from file: ") (λ w. (outcome (j.decode text), w))
