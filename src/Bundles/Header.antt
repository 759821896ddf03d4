-- ===== src/Bundles/Header.antt =====
-- internal/bundles/bundles.go: `getBundleHeader`. The lines are those that `bufio.Scanner` gives.
pub mod Refs
use git_bundle_server.Base.{
  ℕ, ◌-◌, suc, Text, codes, Bool, true, false, not, ◌&&◌, List, [], ◌∷◌, ◌++◌, Option, none, some,
  if◌then◌else◌, ltb, nat_eq, length, take, drop, ℤ, ℤ.pos, eq_ℤ, text_Eq, Error, message, wrap,
  Outcome, ok, err, halt, Halt.panic, M, return, throw, bind_from, ◌>>=◌, wrapped, wrapping,
}
use git_bundle_server.Base.Assoc.{insert}
use git_bundle_server.Common.FileSystem.{scan_lines}
use git_bundle_server.Go.Decimal.{parse_int}
use git_bundle_server.Go.Strings.{has_prefix, has_suffix, index}
use git_bundle_server.Machine.{Machine, call}

pub record BundleHeader : Type 0 where
  pub version : ℤ
  pub refs : List (Text × Text)
  pub prereq_commits : List (Text × Text)

-- `s[lo:hi]`
unfoldable pub slice : Text → ℕ → ℕ → Outcome Text
slice s lo hi =
    if ltb hi lo
    then halt (panic (codes "slice bounds out of range"))
    else ok (take (hi - lo) (drop lo s))

abbrev pub space : ℕ
space = b' '

abbrev pub signature_end : Text
signature_end = codes " git bundle"

abbrev pub is_signature : Text → Bool
is_signature line = has_prefix line (codes "# v") && has_suffix line signature_end

-- The version in a line that `is_signature` accepts.
unfoldable pub parse_version : Text → Option ℤ
parse_version line = parse_int (take (length line - length signature_end - 3) (drop 3 line))

abbrev versioned : BundleHeader → Option ℤ → Outcome BundleHeader
versioned h none = err (message (codes "failed to parse bundle version"))
versioned h (some v) = ok (record h { version = v })

abbrev with_prereq : BundleHeader → Text → Outcome Text → Outcome BundleHeader
with_prereq h oid (ok msg) = ok (record h { prereq_commits = insert oid msg h.prereq_commits })
with_prereq h oid (err e) = err e
with_prereq h oid (halt p) = halt p

abbrev with_ref : BundleHeader → Text → Outcome Text → Outcome BundleHeader
with_ref h oid (ok ref) = ok (record h { refs = insert ref oid h.refs })
with_ref h oid (err e) = err e
with_ref h oid (halt p) = halt p

-- A line that begins with '-', and any other line, at its first space.
unfoldable pub parse_prereq : BundleHeader → Text → Outcome BundleHeader
parse_prereq h line = elim (index space line) [
  | none ↦ err (message (codes "failed to parse rerequisite '" ++ line ++ codes "'"))
  | some i ↦ with_prereq h (take i line) (slice line (suc i) (length line - 1))
]

unfoldable pub parse_tip : BundleHeader → Text → Outcome BundleHeader
parse_tip h line = elim (index space line) [
  | none ↦ err (message (codes "failed to parse tip '" ++ line ++ codes "'"))
  | some i ↦ with_ref h (take i line) (slice line (suc i) (length line - 1))
]

-- The body of the loop, for a line whose first byte is `c`.
unfoldable pub parse_line : BundleHeader → ℕ → Text → Outcome BundleHeader
parse_line h c line =
    if nat_eq c b'#' && is_signature line
    then versioned h (parse_version line)
    else if eq_ℤ h.version (pos 0)
    then err (message (codes "failed to parse bundle header: no version"))
    else if nat_eq c b'@'
    then ok h
    else if nat_eq c b'-'
    then parse_prereq h line
    else parse_tip h line

-- The loop ends at an empty line, or at one that begins with a newline.
unfoldable pub parse_lines : BundleHeader → List Text → Outcome BundleHeader
parse_lines h [] = ok h
parse_lines h ([] ∷ lines) = ok h
parse_lines h ((c ∷ line) ∷ lines) =
    if nat_eq c b'\n' then ok h else elim (parse_line h c (c ∷ line)) [
      | ok h' ↦ parse_lines h' lines
      | err e ↦ err e
      | halt p ↦ halt p
    ]

abbrev pub empty_header : BundleHeader
empty_header = record { version = pos 0; refs = []; prereq_commits = [] }

unfoldable pub parse_header : Text → Outcome BundleHeader
parse_header content = parse_lines empty_header (scan_lines content)

module _ (m : Machine) where
  open m use {World}

  -- The file is given by its name, `bundle.Filename`.
  unfoldable pub get_bundle_header : Text → M World BundleHeader
  get_bundle_header filename = do
    content ← wrapping (codes "failed to open bundle file: ") (call (m.open_read filename))
    λ w. (parse_header content, w)
