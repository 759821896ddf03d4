-- ===== src/Go/Path.antt =====
-- Packages path and path/filepath: `Clean`, `Join`, `Dir`.
pub mod Laws
use git_bundle_server.Base.{
  ℕ, Text, codes, Bool, true, false, not, ◌&&◌, ◌||◌, List, [], ◌∷◌, ◌++◌, if◌then◌else◌, ◌==◌,
  text_Eq, nat_Eq, text_eq,
}
use git_bundle_server.Base.Assoc.{has}
use git_bundle_server.Go.Strings.{split, drop_empty, join_with, is_empty, fields}

abbrev pub slash : ℕ
slash = b'/'

abbrev pub dot : Text
dot = codes "."

abbrev pub dot_dot : Text
dot_dot = codes ".."

-- One element of a path onto the elements kept so far, the last one first.
unfoldable pub keep : Bool → List Text → Text → List Text
keep rooted [] c =
    if c == dot then [] else if c == dot_dot then (if rooted then [] else dot_dot ∷ []) else c ∷ []
keep rooted (t ∷ ts) c =
    if c == dot
    then t ∷ ts
    else if c == dot_dot
    then (if t == dot_dot then dot_dot ∷ t ∷ ts else ts)
    else c ∷ t ∷ ts

unfoldable pub keep_all : Bool → List Text → List Text → List Text
unfolding keep
keep_all rooted kept [] = kept
keep_all rooted kept (c ∷ cs) = keep_all rooted (keep rooted kept c) cs

abbrev pub reverse_onto {ℓ} : {A : Type ℓ} → List A → List A → List A
reverse_onto [] ys = ys
reverse_onto (x ∷ xs) ys = reverse_onto xs (x ∷ ys)

abbrev pub is_rooted : Text → Bool
is_rooted [] = false
is_rooted (c ∷ s) = c == slash

abbrev or_dot : Text → Text
or_dot [] = dot
or_dot (c ∷ s) = c ∷ s

-- `path.Clean(p)`
unfoldable pub clean : Text → Text
unfolding keep_all split drop_empty join_with text_eq
clean p =
    let body = join_with slash (reverse_onto (keep_all (is_rooted p) [] (fields slash p)) []) in
    if is_rooted p then slash ∷ body else or_dot body

-- `path.Join(elems...)`
unfoldable pub join : List Text → Text
unfolding clean
join elems =
    let parts = drop_empty elems in
    elim parts [ [] ↦ [] | w ∷ ws ↦ clean (join_with slash (w ∷ ws)) ]

-- The text up to its last slash, with the slash.
unfoldable pub dir_part : Text → Text
dir_part [] = []
dir_part (c ∷ s) =
    let rest = dir_part s in if is_empty rest then (if c == slash then c ∷ [] else []) else c ∷ rest

-- `path.Dir(p)`
unfoldable pub dir : Text → Text
unfolding clean dir_part
dir p = clean (dir_part p)

-- An element that `clean` keeps: not empty, no slash, neither "." nor "..".
unfoldable pub is_elem : Text → Bool
unfolding text_eq
is_elem c = not (is_empty c) && not (has c slash) && not (c == dot) && not (c == dot_dot)
