-- ===== src/Go/Path/Laws.antt =====
-- Paths of elements that stand for themselves: cleaning and joining change nothing.
use mathlib.Core.List.{append_assoc, append-nil}
use git_bundle_server.Base.{
  ◌≡◌, refl, ap, ◌∙◌, sym, Text, Bool, true, false, List, [], ◌∷◌, ◌++◌, arith, ◌==◌, nat_Eq,
  text_Eq, All, Bool-cases, inl, inr, ℕ,
}
use git_bundle_server.Base.Assoc.{has}
use git_bundle_server.Go.Strings.{
  push, split, drop_empty, join_with, is_empty, fields, NoneHas, split-join_with,
}
use git_bundle_server.Go.Path.{
  slash, keep, keep_all, reverse_onto, is_rooted, clean, join, dir_part, dir, is_elem,
}

-- Every element stands for itself.
abbrev pub Elems : List Text → Type 0
Elems = All (λ c. is_elem c ≡ true)

-- The absolute path of the elements.
abbrev pub absolute : List Text → Text
absolute cs = slash ∷ join_with slash cs

pub is_elem-no_slash : (c : Text) → is_elem c ≡ true → has c slash ≡ false
unfolding is_elem
is_elem-no_slash c h = ground arith

pub is_elem-ne_empty : (c : Text) → is_elem c ≡ true → is_empty c ≡ false
unfolding is_elem
is_elem-ne_empty c h = ground arith

keep_elem : (r : Bool) (kept : List Text) (c : Text) → is_elem c ≡ true → keep r kept c ≡ c ∷ kept
unfolding keep is_elem
keep_elem r [] c h = ground arith
keep_elem r (t ∷ ts) c h = ground arith

keep_all-Elems :
    (r : Bool) (kept cs : List Text) → Elems cs → keep_all r kept cs ≡ reverse_onto cs kept
unfolding keep_all
keep_all-Elems r kept [] h = refl
keep_all-Elems r kept (c ∷ cs) h = rw (keep_elem r kept c h.0) (keep_all-Elems r (c ∷ kept) cs h.1)

reverse_onto-reverse_onto :
    (cs kept ds : List Text) → reverse_onto (reverse_onto cs kept) ds ≡ reverse_onto kept (cs ++ ds)
reverse_onto-reverse_onto [] kept ds = refl
reverse_onto-reverse_onto (c ∷ cs) kept ds = reverse_onto-reverse_onto cs (c ∷ kept) ds

pub clean-fields :
    (p : Text) (cs : List Text)
    → is_rooted p ≡ true
    → fields slash p ≡ cs
    → Elems cs
    → clean p ≡ absolute cs
unfolding clean
clean-fields p cs r f h =
    rw (r, f, keep_all-Elems true [] cs h, reverse_onto-reverse_onto cs [] [], append-nil)

pub drop_empty-Elems : (cs : List Text) → Elems cs → drop_empty cs ≡ cs
unfolding drop_empty
drop_empty-Elems [] h = refl
drop_empty-Elems (c ∷ cs) h = rw (is_elem-ne_empty c h.0) (ap (◌∷◌ c) (drop_empty-Elems cs h.1))

Elems-NoneHas : (cs : List Text) → Elems cs → NoneHas slash cs
Elems-NoneHas [] h = tt
Elems-NoneHas (c ∷ cs) h = (is_elem-no_slash c h.0, Elems-NoneHas cs h.1)

push-push-append :
    (c d : ℕ) (ws vs : List Text) → push c (push d ws ++ vs) ≡ push c (push d ws) ++ vs
push-push-append c d [] vs = refl
push-push-append c d (w ∷ ws) vs = refl

push-split-append :
    (sep c : ℕ) (s : Text) (vs : List Text)
    → push c (split sep s ++ vs) ≡ push c (split sep s) ++ vs
unfolding split
push-split-append sep c [] vs = refl
push-split-append sep c (d ∷ s) vs = elim (Bool-cases (d == sep)) [
  | inl same ↦ rw same
  | inr other ↦ rw other (push-push-append c d (split sep s) vs)
]

split-append_any : (sep : ℕ) (s t : Text) → split sep (s ++ sep ∷ t) ≡ split sep s ++ split sep t
unfolding split
split-append_any sep [] t = ground arith
split-append_any sep (c ∷ s) t = elim (Bool-cases (c == sep)) [
  | inl same ↦ rw same (ap (◌∷◌ []) (split-append_any sep s t))
  | inr other ↦ rw (other, split-append_any sep s t) (push-split-append sep c s (split sep t))
]

drop_empty-append : (ws vs : List Text) → drop_empty (ws ++ vs) ≡ drop_empty ws ++ drop_empty vs
unfolding drop_empty
drop_empty-append [] vs = refl
drop_empty-append ([] ∷ ws) vs = drop_empty-append ws vs
drop_empty-append ((c ∷ w) ∷ ws) vs = ap (◌∷◌ (c ∷ w)) (drop_empty-append ws vs)

-- A slash separates the elements before it from those behind it.
pub fields-append : (s t : Text) → fields slash (s ++ slash ∷ t) ≡ fields slash s ++ fields slash t
fields-append s t = rw split-append_any (drop_empty-append (split slash s) (split slash t))

pub fields-join_with :
    (c : Text) (cs : List Text) → Elems (c ∷ cs) → fields slash (join_with slash (c ∷ cs)) ≡ c ∷ cs
fields-join_with c cs h =
    rw (split-join_with slash c cs (Elems-NoneHas (c ∷ cs) h)) (drop_empty-Elems (c ∷ cs) h)

pub fields-absolute :
    (c : Text) (cs : List Text) → Elems (c ∷ cs) → fields slash (absolute (c ∷ cs)) ≡ c ∷ cs
unfolding drop_empty split
fields-absolute c cs h = fields-append [] (join_with slash (c ∷ cs)) ∙ fields-join_with c cs h

pub absolute-concat :
    (c : Text) (cs : List Text) (w : Text)
    → absolute (c ∷ cs) ++ slash ∷ w ≡ absolute (c ∷ (cs ++ w ∷ []))
unfolding join_with
absolute-concat c [] w = refl
absolute-concat c (d ∷ cs) w =
    ap (λ t. slash ∷ t) (append_assoc c (slash ∷ join_with slash (d ∷ cs)) (slash ∷ w))
    ∙ ap (λ t. slash ∷ (c ++ t)) (absolute-concat d cs w)

pub Elems-concat : (cs : List Text) (w : Text) → Elems cs → is_elem w ≡ true → Elems (cs ++ w ∷ [])
Elems-concat [] w h k = (k, tt)
Elems-concat (c ∷ cs) w h k = (h.0, Elems-concat cs w h.1 k)

-- A name joined to an absolute path stands behind it, with a slash between.
pub join-absolute :
    (c : Text) (cs : List Text) (w : Text)
    → Elems (c ∷ cs)
    → is_elem w ≡ true
    → join (absolute (c ∷ cs) ∷ w ∷ []) ≡ absolute (c ∷ cs) ++ slash ∷ w
unfolding join drop_empty join_with
join-absolute c cs w h k = rw (is_elem-ne_empty w k) (
    clean-fields (absolute (c ∷ cs) ++ slash ∷ w) (c ∷ (cs ++ w ∷ [])) refl
      (ap (fields slash) (absolute-concat c cs w)
        ∙ fields-absolute c (cs ++ w ∷ []) (Elems-concat (c ∷ cs) w h k))
      (Elems-concat (c ∷ cs) w h k)
    ∙ sym (absolute-concat c cs w))

dir_part_word : (w : Text) → has w slash ≡ false → dir_part w ≡ []
unfolding dir_part
dir_part_word [] h = refl
dir_part_word (x ∷ w) h = ground (arith, dir_part_word w)

dir_part-append : (p w : Text) → has w slash ≡ false → dir_part (p ++ slash ∷ w) ≡ p ++ slash ∷ []
unfolding dir_part
dir_part-append [] w h = rw (dir_part_word w h)
dir_part-append (x ∷ []) w h = rw (dir_part-append [] w h)
dir_part-append (x ∷ y ∷ p) w h = rw (dir_part-append (y ∷ p) w h)

-- The directory of a name in an absolute path is that path. The name may be empty.
pub dir-absolute :
    (c : Text) (cs : List Text) (w : Text)
    → Elems (c ∷ cs)
    → has w slash ≡ false
    → dir (absolute (c ∷ cs) ++ slash ∷ w) ≡ absolute (c ∷ cs)
unfolding dir drop_empty split
dir-absolute c cs w h k = rw (dir_part-append (absolute (c ∷ cs)) w k) (
    clean-fields (absolute (c ∷ cs) ++ slash ∷ []) (c ∷ cs) refl
      (fields-append (absolute (c ∷ cs)) []
        ∙ append-nil (fields slash (absolute (c ∷ cs)))
        ∙ fields-absolute c cs h)
      h)
