-- ===== src/Git.antt =====
-- internal/git/git.go: `gitHelper`, over a machine that runs `git`. The standard output and error
-- of `gitCommand` go to those of the process, so only the exit code comes back.
pub mod Laws
use git_bundle_server.Base.{
  ℕ, Text, codes, Bool, true, false, List, [], ◌∷◌, ◌++◌, if◌then◌else◌, ◌==◌, int_Eq, ℤ, ℤ.pos,
  Error, errno, Errno.not_exist, Errno.other, message, wrap, Outcome, ok, err, halt, M, return,
  throw, bind_from, ◌>>=◌, ◌>>◌, wrapped, wrapping,
}
use git_bundle_server.Base.Assoc.{keys}
use git_bundle_server.Go.Decimal.{show_int}
use git_bundle_server.Go.Strings.{contains, trim_space}
use git_bundle_server.Cmd.{run, stdin, stdout, stderr, env}
use git_bundle_server.Machine.{Machine, Run, inherited, buffered}

-- `err.Error()`
unfoldable pub error_text : Error → Text
error_text (errno not_exist) = codes "no such file or directory"
error_text (errno (other t)) = t
error_text (message t) = t
error_text (wrap p e) = p ++ error_text e

-- Each line with the newline that is written behind it.
unfoldable pub unlines : List Text → Text
unlines [] = []
unlines (l ∷ ls) = l ++ b'\n' ∷ unlines ls

abbrev pub git : Text
git = codes "git"

abbrev pub c_locale : List Text
c_locale = codes "LC_CTYPE=C" ∷ []

abbrev pub exited : ℤ → Text
exited code = codes "'git' exited with status " ++ show_int code

abbrev pub empty_bundle : Text
empty_bundle = codes "Refusing to create empty bundle"

-- The end of `CreateBundle` and of `CreateIncrementalBundle`.
unfoldable pub written : Outcome (Unit {0}) → Outcome Bool
written (ok _) = ok true
written (err e) = if contains (error_text e) empty_bundle then ok false else err e
written (halt h) = halt h

module _ (m : Machine) where
  open m use {World}

  unfoldable pub git_command : List Text → M World (Unit {0})
  git_command args = do
    r ← run m git args (stdout inherited ∷ stderr inherited ∷ env c_locale ∷ [])
    if r.code == pos 0 then return tt else throw (message (exited r.code))

  -- Only the standard output, which is all that the one caller reads.
  unfoldable pub git_command_quiet : List Text → M World Text
  git_command_quiet args = do
    r ← run m git args (stdout buffered ∷ stderr buffered ∷ env c_locale ∷ [])
    if r.code == pos 0 then return r.stdout else throw (message (exited r.code ++ b'\n' ∷ r.stderr))

  unfoldable pub git_command_with_stdin : List Text → List Text → M World (Unit {0})
  git_command_with_stdin lines args = do
    r ←
        run m git args
          (stdin (unlines lines) ∷ stdout inherited ∷ stderr buffered ∷ env c_locale ∷ [])
    if r.code == pos 0 then return tt else throw (message (exited r.code ++ b'\n' ∷ r.stderr))

  unfoldable pub create_bundle : Text → Text → M World Bool
  create_bundle repo_dir filename w =
      let r =
        git_command
          (codes "-C"
            ∷ repo_dir
            ∷ codes "bundle"
            ∷ codes "create"
            ∷ filename
            ∷ codes "--branches"
            ∷ [])
          w in
      (written r.0, r.1)

  -- The loop over `refs`.
  unfoldable pub create_branches : Text → List (Text × Text) → M World (Unit {0})
  create_branches repo_dir [] = return tt
  create_branches repo_dir ((ref, oid) ∷ refs) = do
    wrapping (codes "failed to create ref " ++ ref ++ codes ": ")
        (git_command (codes "-C" ∷ repo_dir ∷ codes "branch" ∷ codes "-f" ∷ ref ∷ oid ∷ []))
    create_branches repo_dir refs

  unfoldable pub create_bundle_from_refs : Text → Text → List (Text × Text) → M World (Unit {0})
  create_bundle_from_refs repo_dir filename refs = do
    create_branches repo_dir refs
    git_command_with_stdin (keys refs)
        (codes "-C" ∷ repo_dir ∷ codes "bundle" ∷ codes "create" ∷ filename ∷ codes "--stdin" ∷ [])

  unfoldable pub create_incremental_bundle : Text → Text → List Text → M World Bool
  create_incremental_bundle repo_dir filename prereqs w =
      let r =
        git_command_with_stdin prereqs
          (codes "-C"
            ∷ repo_dir
            ∷ codes "bundle"
            ∷ codes "create"
            ∷ filename
            ∷ codes "--stdin"
            ∷ codes "--branches"
            ∷ [])
          w in
      (written r.0, r.1)

  unfoldable pub clone_bare_repo : Text → Text → M World (Unit {0})
  clone_bare_repo url destination = do
    wrapping (codes "failed to clone repository: ")
        (git_command (codes "clone" ∷ codes "--bare" ∷ url ∷ destination ∷ []))
    wrapping (codes "failed to configure refspec: ") (
        git_command (
          codes "-C"
          ∷ destination
          ∷ codes "config"
          ∷ codes "remote.origin.fetch"
          ∷ codes "+refs/heads/*:refs/heads/*"
          ∷ []))
    wrapping (codes "failed to fetch latest refs: ")
        (git_command (codes "-C" ∷ destination ∷ codes "fetch" ∷ codes "origin" ∷ []))

  unfoldable pub update_bare_repo : Text → M World (Unit {0})
  update_bare_repo repo_dir =
      wrapping (codes "failed to fetch latest refs: ")
        (git_command (codes "-C" ∷ repo_dir ∷ codes "fetch" ∷ codes "origin" ∷ []))

  unfoldable pub get_remote_url : Text → M World Text
  get_remote_url repo_dir = do
    out ← wrapping (codes "failed to get remote URL: ") (
        git_command_quiet
          (codes "-C" ∷ repo_dir ∷ codes "remote" ∷ codes "get-url" ∷ codes "origin" ∷ []))
    return (trim_space out)
