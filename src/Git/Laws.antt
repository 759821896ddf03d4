-- ===== src/Git/Laws.antt =====
-- What the exit of `git bundle create` becomes.
use git_bundle_server.Base.{
  ℕ, zero, suc, ◌+◌, ◌/◌, ◌%◌, Text, codes, true, false, [], ◌∷◌, if◌then◌else◌, ◌==◌, nat_Eq,
  int_Eq, ℤ, pos, negsuc, ◌≡◌, refl, arith, ok, err, message,
}
use git_bundle_server.Base.Assoc.{has, has-append}
use git_bundle_server.Git.{
  create_bundle, git_command, written, error_text, empty_bundle, exited, git, c_locale,
}
use git_bundle_server.Go.Decimal.{digits_onto, show_nat, show_int}
use git_bundle_server.Go.Strings.{contains, has_prefix}
use git_bundle_server.Machine.{Machine, Command, Run, done, ended, inherited}
use git_bundle_server.Cmd.{run, build_cmd, run_cmd, apply_options, apply_option, command}

has-digits_R :
    (f n : ℕ) (rest : Text) → has rest b'R' ≡ false → has (digits_onto f n rest) b'R' ≡ false
unfolding digits_onto
has-digits_R zero n rest h = h
has-digits_R (suc f) n rest h = ground (arith, has-digits_R f (n / 10) ((b'0' + n % 10) ∷ rest))

has-show_int_R : (z : ℤ) → has (show_int z) b'R' ≡ false
unfolding show_int show_nat
has-show_int_R (pos n) = has-digits_R (suc n) n [] refl
has-show_int_R (negsuc n) = ground (arith, has-digits_R (suc (n + 1)) (n + 1) [] refl)

-- A text without the first character of another does not contain that.
contains-no_first : (s t : Text) (c : ℕ) → has s c ≡ false → contains s (c ∷ t) ≡ false
unfolding contains has_prefix
contains-no_first [] t c h = ground arith
contains-no_first (d ∷ s) t c h = ground (arith, contains-no_first s t c)

exited-contains : (code : ℤ) → contains (exited code) empty_bundle ≡ false
exited-contains code =
    contains-no_first (exited code) (codes "efusing to create empty bundle") b'R' (
      ground (
        arith,
        has-append (codes "'git' exited with status ") (show_int code) b'R',
        has-show_int_R code,
      ))

abbrev pub bundle_command : Text → Text → Text → Command
bundle_command exe repo_dir filename =
    record (command exe (
      codes "-C"
      ∷ repo_dir
      ∷ codes "bundle"
      ∷ codes "create"
      ∷ filename
      ∷ codes "--branches"
      ∷ [])) { stdout = inherited; stderr = inherited; env = c_locale }

-- If git is found and runs to its end, CreateBundle gives true for the exit status 0, and for any
-- other an error that names the status, whatever git wrote to its standard error: it does not give
-- false.
pub create_bundle-run :
    (m : Machine) (exe repo_dir filename : Text) (w : m.World) (r : Run)
    → m.look_path git w ≡ done exe
    → (m.exec (bundle_command exe repo_dir filename) w).0 ≡ ended r
    → (create_bundle m repo_dir filename w).0
      ≡ (if r.code == pos 0 then ok true else err (message (exited r.code)))
unfolding create_bundle git_command written error_text run build_cmd run_cmd apply_options
    apply_option
create_bundle-run m exe repo_dir filename w r found h =
    ground (arith, found, h, exited-contains r.code)
