-- ===== src/Go/Utf8.antt =====
-- The texts that package encoding/json keeps: those of valid UTF-8, as `utf8.Valid` of package
-- unicode/utf8 has it. A byte that belongs to no rune is replaced by U+FFFD.
use git_bundle_server.Base.{
  ℕ, zero, suc, Text, Bool, true, false, ◌&&◌, [], ◌∷◌, Option, none, some, if◌then◌else◌, leb,
  ◌==◌, nat_Eq,
}

abbrev within : ℕ → ℕ → ℕ → Bool
within lo hi b = leb lo b && leb b hi

-- How many bytes follow the first one of a rune, and the bounds of the next.
abbrev Lead : Type 0
Lead = ℕ × ℕ × ℕ

-- The first bytes: one of a rune of one byte, of two, of three and of four; E0 and F0 forbid the
-- longer forms of shorter runes, ED the surrogates, F4 what is above U+10FFFF.
unfoldable pub lead : ℕ → Option Lead
lead b =
    if leb b 127
    then some (0, 0, 0)
    else if within 194 223 b
    then some (1, 128, 191)
    else if b == 224
    then some (2, 160, 191)
    else if b == 237
    then some (2, 128, 159)
    else if within 225 239 b
    then some (2, 128, 191)
    else if b == 240
    then some (3, 144, 191)
    else if within 241 243 b
    then some (3, 128, 191)
    else if b == 244
    then some (3, 128, 143)
    else none

abbrev is_some : Option Lead → Bool
is_some none = false
is_some (some l) = true

abbrev some_lead : Option Lead → Lead
some_lead none = (0, 0, 0)
some_lead (some l) = l

-- The text where so many bytes of a rune are still to come, the first of them within the bounds.
unfoldable pub valid_from : Lead → Text → Bool
valid_from (zero, lo, hi) [] = true
valid_from (suc n, lo, hi) [] = false
valid_from (zero, lo, hi) (b ∷ s) = is_some (lead b) && valid_from (some_lead (lead b)) s
valid_from (suc n, lo, hi) (b ∷ s) = within lo hi b && valid_from (n, 128, 191) s

unfoldable pub valid_utf8 : Text → Bool
valid_utf8 s = valid_from (0, 0, 0) s
