-- ===== src/Bundles/Header/Refs.antt =====
-- The refs that `getBundleHeader` reads from the tips of a bundle.
use git_bundle_server.Base.{
  ℕ, suc, ◌+◌, ◌-◌, false, Text, codes, List, [], ◌∷◌, ◌++◌, some, ◌≡◌, refl, arith, length, drop,
  nat_eq, nat_Eq, text_Eq, text_eq, take-length-append, length-append, All, pos, eq_ℤ, ok,
}
use git_bundle_server.Base.Assoc.{has, insert}
use git_bundle_server.Bundles.Header.{
  BundleHeader, parse_version, space, slice, parse_tip, parse_line, parse_lines, parse_header,
  empty_header,
}
use git_bundle_server.Common.FileSystem.Lines.{IsLine, scan_lines-cons}
use git_bundle_server.Common.FileSystem.{scan_lines}
use git_bundle_server.Go.Strings.{index, has_prefix, has_suffix}
use git_bundle_server.Go.Decimal.{parse_int, read_digits}

-- A tip: an object, and a ref's name as its last byte and what stands before it.
pub record Tip : Type 0 where
  pub first : ℕ
  pub more : Text
  pub stem : Text
  pub last : ℕ

abbrev pub oid : Tip → Text
oid t = t.first ∷ t.more

abbrev pub ref : Tip → Text
ref t = t.stem ++ t.last ∷ []

abbrev pub tip_line : Tip → Text
tip_line t = oid t ++ space ∷ ref t

-- The object's name begins with no mark of another kind of line and holds no space.
pub record IsTip (t : Tip) : Type 0 where
  pub plain :
      (nat_eq t.first b'#' ≡ false) × (nat_eq t.first b'@' ≡ false) × (nat_eq t.first b'-' ≡ false)
  pub one_word : has (oid t) space ≡ false
  pub is_line : IsLine (tip_line t)

index-append : (c : ℕ) (w s : Text) → has w c ≡ false → index c (w ++ c ∷ s) ≡ some (length w)
unfolding index
index-append c [] s h = ground arith
index-append c (x ∷ w) s h = ground (arith, index-append c w s)

drop_past : (w s : Text) (c : ℕ) → drop (suc (length w)) (w ++ c ∷ s) ≡ s
drop_past [] s c = refl
drop_past (x ∷ w) s c = drop_past w s c

slice_ref :
    (w stem : Text) (c d : ℕ)
    → slice (w ++ c ∷ (stem ++ d ∷ [])) (suc (length w)) (length (w ++ c ∷ (stem ++ d ∷ [])) - 1)
      ≡ ok stem
unfolding slice
slice_ref w stem c d =
    let size : length (w ++ c ∷ (stem ++ d ∷ [])) - 1 ≡ suc (length w) + length stem =
      omega (arith, length-append w (c ∷ (stem ++ d ∷ [])), length-append stem (d ∷ [])) in
    let inside : suc (length w) + length stem - suc (length w) ≡ length stem = omega arith in
    rw (size, drop_past w (stem ++ d ∷ []) c, inside, take-length-append stem (d ∷ []))
      (ground arith)

-- The name that is stored lacks the last byte of the ref.
parse_tip-tip_line :
    (h : BundleHeader) (t : Tip)
    → has (oid t) space ≡ false
    → parse_tip h (tip_line t) ≡ ok (record h { refs = insert t.stem (oid t) h.refs })
unfolding parse_tip
parse_tip-tip_line h t k =
    rw (index-append space (oid t) (ref t) k, parse_tip)
      (rw (slice_ref (oid t) t.stem space t.last, take-length-append (oid t) (space ∷ ref t)))

parse_line-tip_line :
    (h : BundleHeader) (t : Tip)
    → IsTip t
    → eq_ℤ h.version (pos 0) ≡ false
    → parse_line h t.first (tip_line t) ≡ ok (record h { refs = insert t.stem (oid t) h.refs })
unfolding parse_line
parse_line-tip_line h t k v = ground (arith, parse_tip-tip_line h t k.one_word)

-- What is stored for the tips, in their order, on top of `refs`.
abbrev pub stored : List Tip → List (Text × Text) → List (Text × Text)
stored [] refs = refs
stored (t ∷ tips) refs = stored tips (insert t.stem (oid t) refs)

-- The tips, each on a line, the empty line and the pack.
abbrev pub tip_lines : List Tip → Text → Text
tip_lines [] pack = b'\n' ∷ pack
tip_lines (t ∷ tips) pack = tip_line t ++ b'\n' ∷ tip_lines tips pack

abbrev pub bundle_file : List Tip → Text → Text
bundle_file tips pack = codes "# v2 git bundle\n" ++ tip_lines tips pack

parse_lines-tip_lines :
    (tips : List Tip) (pack : Text) (h : BundleHeader)
    → All IsTip tips
    → eq_ℤ h.version (pos 0) ≡ false
    → parse_lines h (scan_lines (tip_lines tips pack)) ≡ ok (record h { refs = stored tips h.refs })
unfolding parse_lines
parse_lines-tip_lines [] pack h a v =
    rw (scan_lines-cons [] pack (record { no_newline = refl; no_cr = refl; short = omega arith }))
parse_lines-tip_lines (t ∷ tips) pack h a v =
    rw (scan_lines-cons (tip_line t) (tip_lines tips pack) a.0.is_line) (
      ground (
        arith,
        a.0.is_line.no_newline,
        parse_line-tip_line h t a.0 v,
        parse_lines-tip_lines tips pack (record h { refs = insert t.stem (oid t) h.refs }) a.1 v,
      ))

signature_line :
    parse_line empty_header b'#' (codes "# v2 git bundle")
    ≡ ok (record empty_header { version = pos 2 })
unfolding parse_line parse_version parse_int read_digits has_prefix has_suffix text_eq
signature_line = refl

-- Of a bundle file with these tips and no prerequisites, the header's refs are the tips, each under
-- its ref's name without the last byte: the code takes a newline for the end of a line that the
-- scanner has already cut.
pub parse_header-bundle_file :
    (tips : List Tip) (pack : Text)
    → All IsTip tips
    → parse_header (bundle_file tips pack)
      ≡ ok (record { version = pos 2; refs = stored tips []; prereq_commits = [] })
unfolding parse_header parse_lines
parse_header-bundle_file tips pack a =
    let signature = codes "# v2 git bundle" in
    rw
      (scan_lines-cons signature (tip_lines tips pack)
        (record { no_newline = refl; no_cr = refl; short = omega arith }))
      (ground (
        arith,
        signature_line,
        parse_lines-tip_lines tips pack (record empty_header { version = pos 2 }) a refl,
      ))
