-- ===== src/Flags/Typed.antt =====
-- The flags of the web server keep the types of their variables while arguments are parsed.
use git_bundle_server.Base.{
  Text, codes, Bool, true, false, not, List, [], ◌∷◌, ◌++◌, Option, none, some, if◌then◌else◌, ◌==◌,
  ◌||◌, message, text_Eq, text_eq, text_eq_iff, ◌≡◌, refl, ap, subst, arith,
}
use git_bundle_server.Base.Assoc.{has, keys, lookup, insert, lookup-insert}
use git_bundle_server.Flags.{
  FlagSet, FlagValue, boolean, string, tls_version, tls_set, set_value, set_flag, flag_value,
  is_bool_flag, store, Parsing, reading, waiting, stopped, refused, after_set, read_arg, read_flag,
  token, Token, operand, terminator, bad, flag, parse_from,
}
use git_bundle_server.Flags.WebServer.{web_server_values}
use git_bundle_server.Machine.{Reply, done, failed}

abbrev pub is_web_name : Text → Bool
is_web_name n = has (keys web_server_values) n

abbrev pub tls_flag : Text
tls_flag = codes "tls-version"

-- The type that the variable of a flag of the web server has
abbrev pub right_kind : Text → FlagValue → Bool
right_kind n (string s) = not (n == tls_flag)
right_kind n (tls_version v) = n == tls_flag
right_kind n (boolean b) = false

pub record IsTyped (fs : FlagSet) : Type 0 where
  pub bound : (n : Text) → is_web_name n ≡ true → lookup n fs.formal ≡ some n
  pub typed :
      (n : Text)
      → is_web_name n ≡ true
      → (v : FlagValue) × (lookup n fs.cells ≡ some v) × (right_kind n v ≡ true)

tls_set-right_kind :
    (n s : Text) (u : FlagValue)
    → tls_set s ≡ done u
    → (n == tls_flag) ≡ true
    → right_kind n u ≡ true
unfolding tls_set
tls_set-right_kind n s u h e = ground (arith, h, e)

set_value-right_kind :
    (n : Text) (v : FlagValue) (s : Text) (u : FlagValue)
    → right_kind n v ≡ true
    → set_value v s ≡ done u
    → right_kind n u ≡ true
unfolding set_value
set_value-right_kind n (string t) s u k h = ground (arith, k, h)
set_value-right_kind n (tls_version v) s u k h = tls_set-right_kind n s u h k
set_value-right_kind n (boolean b) s u k h = cc

insert-typed :
    (cells : List (Text × FlagValue)) (cell n s : Text) (v u w : FlagValue)
    → lookup cell cells ≡ some v
    → set_value v s ≡ done u
    → lookup n cells ≡ some w
    → right_kind n w ≡ true
    → (x : FlagValue) × (lookup n (insert cell u cells) ≡ some x) × (right_kind n x ≡ true)
insert-typed cells cell n s v u w l h there kind = split (text_eq cell n) refl
  where
    split :
        (b : Bool)
        → text_eq cell n ≡ b
        → (x : FlagValue) × (lookup n (insert cell u cells) ≡ some x) × (right_kind n x ≡ true)
    split true e = (
      u,
      ground (arith, e, lookup-insert cell n u cells),
      set_value-right_kind n v s u
          (subst (λ x. right_kind n x ≡ true)
            (ground (arith, l, there, ap (λ k. lookup k cells) ((text_eq_iff cell n).0 e))) kind)
          h,
    )
    split false e = (w, ground (arith, e, there, lookup-insert cell n u cells), kind)

set_cell-IsTyped :
    (fs : FlagSet) (cell : Text) (v u : FlagValue) (s : Text) (actual : List Text)
    → IsTyped fs
    → lookup cell fs.cells ≡ some v
    → set_value v s ≡ done u
    → IsTyped (record fs { cells = insert cell u fs.cells; actual = actual })
set_cell-IsTyped fs cell v u s actual t l h = record {
  bound = t.bound;
  typed =
      λ n w. insert-typed fs.cells cell n s v u (t.typed n w).0 l h (t.typed n w).1 (t.typed n w).2;
}

stored-IsTyped :
    (fs g : FlagSet) (name cell s : Text) (v : FlagValue) (r : Reply FlagValue)
    → IsTyped fs
    → lookup cell fs.cells ≡ some v
    → set_value v s ≡ r
    → store fs name cell r ≡ done g
    → IsTyped g
stored-IsTyped fs g name cell s v (done u) t l e h = subst IsTyped (ground (arith, h)) (
    set_cell-IsTyped fs cell v u s (if has fs.actual name then fs.actual else name ∷ fs.actual) t l
      e)
stored-IsTyped fs g name cell s v (failed x) t l e h = cc

pub set_flag-IsTyped :
    (fs g : FlagSet) (name s : Text) → IsTyped fs → set_flag fs name s ≡ done g → IsTyped g
unfolding set_flag
set_flag-IsTyped fs g name s t h = find (lookup name fs.formal) refl
  where
    find : (o : Option Text) → lookup name fs.formal ≡ o → IsTyped g
    find none e = ground (arith, e, h)
    find (some cell) e = held (lookup cell fs.cells) refl
      where
        held : (o : Option FlagValue) → lookup cell fs.cells ≡ o → IsTyped g
        held none l = ground (arith, e, l, h)
        held (some v) l =
            stored-IsTyped fs g name cell s v (set_value v s) t l refl (ground (arith, e, l, h))

-- Where a parse stands, with flags of the right types
abbrev StandsTyped : Parsing → Type 0
StandsTyped (reading fs) = IsTyped fs
StandsTyped (waiting fs name) = IsTyped fs
StandsTyped (stopped fs behind) = IsTyped fs
StandsTyped (refused e) = Unit

after_set-StandsTyped :
    (fs : FlagSet) (name s : Text) → IsTyped fs → StandsTyped (after_set (set_flag fs name s))
after_set-StandsTyped fs name s t = split (set_flag fs name s) refl
  where
    split : (r : Reply FlagSet) → set_flag fs name s ≡ r → StandsTyped (after_set r)
    split (done g) e = set_flag-IsTyped fs g name s t e
    split (failed x) e = tt

read_flag-StandsTyped :
    (fs : FlagSet) (name : Text) (value : Option Text) (o : Option FlagValue)
    → IsTyped fs
    → StandsTyped (read_flag fs name value o)
read_flag-StandsTyped fs name value none t = unknown (name == codes "help" || name == codes "h")
  where
    unknown :
        (b : Bool)
        → StandsTyped (
            if b
            then refused (message (codes "flag: help requested"))
            else refused (message (codes "flag provided but not defined: -" ++ name)))
    unknown true = tt
    unknown false = tt
read_flag-StandsTyped fs name (some s) (some v) t = after_set-StandsTyped fs name s t
read_flag-StandsTyped fs name none (some v) t = bare (is_bool_flag v)
  where
    bare :
        (b : Bool)
        → StandsTyped (if b then after_set (set_flag fs name (codes "true")) else waiting fs name)
    bare true = after_set-StandsTyped fs name (codes "true") t
    bare false = t

read_arg-StandsTyped :
    (fs : FlagSet) (s : Text) (k : Token) → IsTyped fs → StandsTyped (read_arg fs s k)
read_arg-StandsTyped fs s operand t = t
read_arg-StandsTyped fs s terminator t = t
read_arg-StandsTyped fs s bad t = tt
read_arg-StandsTyped fs s (flag name value) t =
    read_flag-StandsTyped fs name value (flag_value fs name) t

with_args :
    (fs g : FlagSet) (args : List Text) → IsTyped fs → record fs { args = args } ≡ g → IsTyped g
with_args fs g args t e = subst IsTyped e (record { bound = t.bound; typed = t.typed })

pub parse_from-IsTyped :
    (args : List Text) (at : Parsing) (g : FlagSet)
    → StandsTyped at
    → parse_from at args ≡ done g
    → IsTyped g
unfolding parse_from
parse_from-IsTyped [] (reading fs) g t h = with_args fs g [] t (ground (arith, h))
parse_from-IsTyped (s ∷ args) (reading fs) g t h =
    parse_from-IsTyped args (read_arg fs s (token s)) g (read_arg-StandsTyped fs s (token s) t) h
parse_from-IsTyped [] (waiting fs name) g t h = cc
parse_from-IsTyped (s ∷ args) (waiting fs name) g t h =
    parse_from-IsTyped args (after_set (set_flag fs name s)) g (after_set-StandsTyped fs name s t) h
parse_from-IsTyped args (stopped fs behind) g t h =
    with_args fs g (behind ++ args) t (ground (arith, h))
parse_from-IsTyped args (refused e) g t h = cc
