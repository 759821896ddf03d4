-- ===== src/Common/FileSystem/Lines.antt =====
-- What the scanner makes of a line and of what follows it.
use git_bundle_server.Base.{
  ℕ, ◌<◌, false, Text, List, [], ◌∷◌, ◌++◌, ◌≡◌, refl, arith, length, nat_Eq,
}
use git_bundle_server.Base.Assoc.{has}
use git_bundle_server.Common.FileSystem.{drop_cr, no_more, lines_of, max_line, scan_lines}
use git_bundle_server.Go.Strings.{push, split, split-append}

-- A line that the scanner gives as it stands: no newline, no carriage return at its end, and no
-- more bytes than the scanner takes.
pub record IsLine (l : Text) : Type 0 where
  pub no_newline : has l b'\n' ≡ false
  pub no_cr : drop_cr l ≡ l
  pub short : length l < max_line

no_more-push : (c : ℕ) (ws : List Text) → no_more (push c ws) ≡ false
no_more-push c [] = refl
no_more-push c (w ∷ ws) = refl

no_more-split : (sep : ℕ) (s : Text) → no_more (split sep s) ≡ false
unfolding split
no_more-split sep [] = refl
no_more-split sep (c ∷ s) = ground (arith, no_more-push c (split sep s))

-- The scanner gives the line, then the lines of the rest.
pub scan_lines-cons :
    (l rest : Text) → IsLine l → scan_lines (l ++ b'\n' ∷ rest) ≡ l ∷ scan_lines rest
unfolding scan_lines lines_of
scan_lines-cons l rest h =
    rw (split-append b'\n' l rest h.no_newline)
      (ground (arith, no_more-split b'\n' rest, h.no_cr, h.short))
