-- ===== src/Flags/Pairs.antt =====
-- Arguments that are pairs of a flag of the web server and its value.
use git_bundle_server.Base.{
  Text, codes, Bool, true, false, List, [], ◌∷◌, ◌++◌, none, some, if◌then◌else◌, ◌==◌, text_Eq,
  text_eq, text_eq_iff, ◌≡◌, ◌⊎◌, inl, inr, refl, ap, ◌∙◌, subst, arith,
}
use git_bundle_server.Base.Assoc.{has, keys, insert, lookup-insert}
use git_bundle_server.Flags.{
  FlagSet, FlagValue, boolean, string, tls_version, tls_set, set_value, set_flag, flag_value,
  is_bool_flag, reading, waiting, after_set, read_arg, read_flag, token, flag, split_value,
  parse_from,
}
use git_bundle_server.Flags.Typed.{is_web_name, tls_flag, right_kind, IsTyped, set_flag-IsTyped}
use git_bundle_server.Flags.WebServer.{web_server_values}
use git_bundle_server.Go.Strings.{index}
use git_bundle_server.Machine.{Reply, done}

-- A name is one of a list, so what holds of each of the list holds of it.
abbrev pub All : (Text → Type 0) → List Text → Type 0
All P [] = Unit
All P (k ∷ ks) = P k × All P ks

has-cons : (k n : Text) (ks : List Text) → has (k ∷ ks) n ≡ true → (k ≡ n) ⊎ (has ks n ≡ true)
has-cons k n ks h = split (text_eq k n) refl
  where
    split : (b : Bool) → text_eq k n ≡ b → (k ≡ n) ⊎ (has ks n ≡ true)
    split true q = inl ((text_eq_iff k n).0 q)
    split false q = inr (ground (arith, q, h))

pub has-All : (P : Text → Type 0) (ks : List Text) (n : Text) → All P ks → has ks n ≡ true → P n
has-All P [] n h e = cc
has-All P (k ∷ ks) n h e = elim (has-cons k n ks e) [
  | inl same ↦ subst P same h.0
  | inr later ↦ has-All P ks n h.1 later
]

token-web : (n : Text) → is_web_name n ≡ true → token (codes "--" ++ n) ≡ flag n none
unfolding token split_value index
token-web n w =
    has-All (λ k. token (codes "--" ++ k) ≡ flag k none) (keys web_server_values) n
      (refl, (refl, (refl, (refl, (refl, (refl, tt)))))) w

-- What a flag of the web server makes of a text
abbrev pub sets : Text → Text → Reply FlagValue
sets n s = if n == tls_flag then tls_set s else done (string s)

set_value-sets :
    (n : Text) (v : FlagValue) (s : Text) → right_kind n v ≡ true → set_value v s ≡ sets n s
unfolding set_value
set_value-sets n (string t) s k = ground (arith, k)
set_value-sets n (tls_version v) s k = ground (arith, k)
set_value-sets n (boolean b) s k = cc

-- The set behind a flag that was set
abbrev put_flag : FlagSet → Text → FlagValue → FlagSet
put_flag fs n u = record fs {
  cells = insert n u fs.cells;
  actual = if has fs.actual n then fs.actual else n ∷ fs.actual;
}

set_flag-web :
    (fs : FlagSet) (n s : Text) (u : FlagValue)
    → IsTyped fs
    → is_web_name n ≡ true
    → sets n s ≡ done u
    → set_flag fs n s ≡ done (put_flag fs n u)
unfolding set_flag
set_flag-web fs n s u t w h =
    let (v, there, kind) = t.typed n w in
    ground (arith, t.bound n w, there, set_value-sets n v s kind, h)

pub flag_value-web :
    (fs : FlagSet) (n : Text)
    → IsTyped fs
    → is_web_name n ≡ true
    → (v : FlagValue) × (flag_value fs n ≡ some v) × (right_kind n v ≡ true)
unfolding flag_value
flag_value-web fs n t w =
    let (v, there, kind) = t.typed n w in (v, ground (arith, t.bound n w, there), kind)

flag_value-put_flag :
    (fs : FlagSet) (n k : Text) (u : FlagValue)
    → IsTyped fs
    → is_web_name k ≡ true
    → flag_value (put_flag fs n u) k ≡ (if n == k then some u else flag_value fs k)
unfolding flag_value
flag_value-put_flag fs n k u t w = ground (arith, t.bound k w, lookup-insert n k u fs.cells)

right_kind-bare : (n : Text) (v : FlagValue) → right_kind n v ≡ true → is_bool_flag v ≡ false
right_kind-bare n (string s) k = refl
right_kind-bare n (tls_version v) k = refl
right_kind-bare n (boolean b) k = cc

-- A flag and its value as two arguments
parse_from-pair :
    (fs : FlagSet) (n s : Text) (u : FlagValue) (args : List Text)
    → IsTyped fs
    → is_web_name n ≡ true
    → sets n s ≡ done u
    → parse_from (reading fs) ((codes "--" ++ n) ∷ s ∷ args)
      ≡ parse_from (reading (put_flag fs n u)) args
unfolding parse_from
parse_from-pair fs n s u args t w h =
    let (v, there, kind) = flag_value-web fs n t w in
    ap (λ k. parse_from (read_arg fs (codes "--" ++ n) k) (s ∷ args)) (token-web n w)
    ∙ ap (λ o. parse_from (read_flag fs n none o) (s ∷ args)) there
    ∙ ap
        (λ b.
          parse_from (if b then after_set (set_flag fs n (codes "true")) else waiting fs n)
            (s ∷ args))
        (right_kind-bare n v kind)
    ∙ ap (λ r. parse_from (after_set r) args) (set_flag-web fs n s u t w h)

-- The arguments for names and values
abbrev pub pair_args : List (Text × Text) → List Text
pair_args [] = []
pair_args ((n, s) ∷ ps) = (codes "--" ++ n) ∷ s ∷ pair_args ps

-- Each pair is a flag of the web server with a value that it takes, and makes `expected` of.
abbrev pub Fit : (Text → FlagValue) → List (Text × Text) → Type 0
Fit expected [] = Unit
Fit expected ((n, s) ∷ ps) =
    (is_web_name n ≡ true) × (sets n s ≡ done (expected n)) × Fit expected ps

put_flag-IsTyped :
    (fs : FlagSet) (n s : Text) (u : FlagValue)
    → IsTyped fs
    → is_web_name n ≡ true
    → sets n s ≡ done u
    → IsTyped (put_flag fs n u)
put_flag-IsTyped fs n s u t w h =
    set_flag-IsTyped fs (put_flag fs n u) n s t (set_flag-web fs n s u t w h)

-- What the flags of the web server are behind some pairs
abbrev pub Behind : (Text → FlagValue) → List (Text × Text) → FlagSet → FlagSet → Type 0
Behind expected ps fs g =
    (n : Text)
    → is_web_name n ≡ true
    → flag_value g n ≡ (if has (keys ps) n then some (expected n) else flag_value fs n)

pub parse_from-pair_args :
    (expected : Text → FlagValue) (ps : List (Text × Text)) (fs : FlagSet)
    → IsTyped fs
    → Fit expected ps
    → (g : FlagSet) × (parse_from (reading fs) (pair_args ps) ≡ done g)
      × (g.args ≡ [])
      × Behind expected ps fs g
unfolding parse_from flag_value
parse_from-pair_args expected [] fs t h = (record fs { args = [] }, refl, refl, λ n w. refl)
parse_from-pair_args expected ((k, s) ∷ ps) fs t (w, fit, fits) =
    let (g, parsed, no_args, behind) =
      parse_from-pair_args expected ps (put_flag fs k (expected k))
        (put_flag-IsTyped fs k s (expected k) t w fit) fits in
    (
      g,
      parse_from-pair fs k s (expected k) (pair_args ps) t w fit ∙ parsed,
      no_args,
      λ n v. ground (
        arith,
        behind n v,
        flag_value-put_flag fs k n (expected k) t v,
        text_eq_iff k n,
        ap expected,
      ),
    )
