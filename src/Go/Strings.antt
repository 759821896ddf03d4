-- ===== src/Go/Strings.antt =====
-- The functions of package strings that the program calls.
use git_bundle_server.Base.{
  ℕ, suc, ◌+◌, ◌-◌, Text, Bool, true, false, ◌&&◌, ◌||◌, List, [], ◌∷◌, ◌++◌, Option, none, some,
  ◌≡◌, refl, ap, ◌∙◌, arith, if◌then◌else◌, ◌==◌, nat_Eq, text_Eq, leb, length, take, drop,
  Bool-cases, inl, inr,
}
use git_bundle_server.Base.Assoc.{has}

-- `strings.HasPrefix(s, p)`
unfoldable pub has_prefix : Text → Text → Bool
has_prefix s [] = true
has_prefix [] (x ∷ p) = false
has_prefix (c ∷ s) (x ∷ p) = c == x && has_prefix s p

-- `strings.TrimPrefix(s, p)`
unfoldable pub trim_prefix : Text → Text → Text
unfolding has_prefix
trim_prefix s p = if has_prefix s p then drop (length p) s else s

-- `strings.HasSuffix(s, p)`
unfoldable pub has_suffix : Text → Text → Bool
has_suffix s p = leb (length p) (length s) && drop (length s - length p) s == p

-- `strings.TrimSuffix(s, p)`
unfoldable pub trim_suffix : Text → Text → Text
unfolding has_suffix
trim_suffix s p = if has_suffix s p then take (length s - length p) s else s

-- `strings.Index(s, " ")` and the like, for a text of one byte; `none` is -1
unfoldable pub index : ℕ → Text → Option ℕ
index c [] = none
index c (x ∷ s) =
    if x == c then some 0 else elim (index c s) [ none ↦ none | some i ↦ some (suc i) ]

-- `strings.Contains(s, t)`
unfoldable pub contains : Text → Text → Bool
unfolding has_prefix
contains [] t = has_prefix [] t
contains (c ∷ s) t = has_prefix (c ∷ s) t || contains s t

-- `strings.ToLower` on ASCII text
unfoldable pub to_lower : Text → Text
to_lower [] = []
to_lower (c ∷ s) = (if leb b'A' c && leb c b'Z' then c + 32 else c) ∷ to_lower s

abbrev pub push : ℕ → List Text → List Text
push c [] = (c ∷ []) ∷ []
push c (w ∷ ws) = (c ∷ w) ∷ ws

-- `strings.Split(s, sep)` for a separator of one byte
unfoldable pub split : ℕ → Text → List Text
split sep [] = [] ∷ []
split sep (c ∷ s) = let rest = split sep s in if c == sep then [] ∷ rest else push c rest

abbrev pub is_empty : Text → Bool
is_empty [] = true
is_empty (c ∷ s) = false

unfoldable pub drop_empty : List Text → List Text
drop_empty [] = []
drop_empty (w ∷ ws) = let rest = drop_empty ws in if is_empty w then rest else w ∷ rest

-- `strings.FieldsFunc(s, ...)` for the test that a byte is the separator
abbrev pub fields : ℕ → Text → List Text
fields sep s = drop_empty (split sep s)

-- `strings.Join(ws, sep)` for a separator of one byte
unfoldable pub join_with : ℕ → List Text → Text
join_with sep [] = []
join_with sep (w ∷ []) = w
join_with sep (w ∷ v ∷ ws) = w ++ sep ∷ join_with sep (v ∷ ws)

pub has_prefix-append : (p s : Text) → has_prefix (p ++ s) p ≡ true
unfolding has_prefix
has_prefix-append [] s = refl
has_prefix-append (x ∷ p) s = ground (arith, has_prefix-append p s)

drop-append : (p s : Text) → drop (length p) (p ++ s) ≡ s
drop-append [] s = refl
drop-append (x ∷ p) s = drop-append p s

pub trim_prefix-append : (p s : Text) → trim_prefix (p ++ s) p ≡ s
unfolding trim_prefix
trim_prefix-append p s = rw (has_prefix-append p s) (drop-append p s)

-- A word with no separator is one piece, also before a separator.
pub split_word : (sep : ℕ) (w : Text) → has w sep ≡ false → split sep w ≡ w ∷ []
unfolding split
split_word sep [] h = refl
split_word sep (c ∷ w) h = ground (arith, split_word sep w)

pub split-append :
    (sep : ℕ) (w s : Text) → has w sep ≡ false → split sep (w ++ sep ∷ s) ≡ w ∷ split sep s
unfolding split
split-append sep [] s h = ground arith
split-append sep (c ∷ w) s h = ground (arith, split-append sep w s)

-- No piece holds the separator.
abbrev pub NoneHas : ℕ → List Text → Type 0
NoneHas sep [] = Unit
NoneHas sep (w ∷ ws) = (has w sep ≡ false) × NoneHas sep ws

push-NoneHas :
    (sep c : ℕ) (ws : List Text) → (c == sep) ≡ false → NoneHas sep ws → NoneHas sep (push c ws)
push-NoneHas sep c [] h k = (ground arith, tt)
push-NoneHas sep c (w ∷ ws) h k = (ground (arith, k.0), k.1)

pub split-NoneHas : (sep : ℕ) (s : Text) → NoneHas sep (split sep s)
unfolding split
split-NoneHas sep [] = (refl, tt)
split-NoneHas sep (c ∷ s) = elim (Bool-cases (c == sep)) [
  | inl same ↦ rw same (refl, split-NoneHas sep s)
  | inr other ↦ rw other (push-NoneHas sep c (split sep s) other (split-NoneHas sep s))
]

pub drop_empty-NoneHas : (sep : ℕ) (ws : List Text) → NoneHas sep ws → NoneHas sep (drop_empty ws)
unfolding drop_empty
drop_empty-NoneHas sep [] h = tt
drop_empty-NoneHas sep ([] ∷ ws) h = drop_empty-NoneHas sep ws h.1
drop_empty-NoneHas sep ((c ∷ w) ∷ ws) h = (h.0, drop_empty-NoneHas sep ws h.1)

-- Joining words that hold no separator, and splitting, gives the words back.
pub split-join_with :
    (sep : ℕ) (w : Text) (ws : List Text)
    → NoneHas sep (w ∷ ws)
    → split sep (join_with sep (w ∷ ws)) ≡ w ∷ ws
unfolding join_with
split-join_with sep w [] h = split_word sep w h.0
split-join_with sep w (v ∷ ws) h =
    split-append sep w (join_with sep (v ∷ ws)) h.0 ∙ ap (◌∷◌ w) (split-join_with sep v ws h.1)

abbrev pub is_space : ℕ → Bool
is_space c = c == b' ' || leb 9 c && leb c 13

unfoldable pub trim_left : Text → Text
trim_left [] = []
trim_left (c ∷ s) = let rest = trim_left s in if is_space c then rest else c ∷ s

unfoldable pub trim_right : Text → Text
trim_right [] = []
trim_right (c ∷ s) = let rest = trim_right s in if is_empty rest && is_space c then [] else c ∷ rest

-- `strings.TrimSpace` on ASCII text
unfoldable pub trim_space : Text → Text
unfolding trim_left trim_right
trim_space s = trim_left (trim_right s)
