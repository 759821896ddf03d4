-- ===== src/Tests/Inputs.antt =====
-- A user, a repository, lists of bundles and an encoding of them, for the other tests.
use git_bundle_server.Base.{
  ℕ, zero, suc, Text, codes, true, List, [], ◌∷◌, ◌++◌, some, length, take, drop,
  take-length-append, drop-length-append, ◌≡◌, refl, ap, sym, subst, arith, ◌∙◌, ℤ, pos, negsuc,
  eq_ℤ_iff, int_Eq, ◌≤ℤ◌,
}
use git_bundle_server.Base.Assoc.{keys, has, lookup, Distinct}
use git_bundle_server.Bundles.BundleList.{
  Bundle, Bundles, BundleList, new_bundle, bundle_name, new_bundle_list,
}
use git_bundle_server.Bundles.ListFile.{Json, IsJson, IsText, IsTextBundle}
use git_bundle_server.Bundles.Provider.Collapse.{IsWellFormed}
use git_bundle_server.Core.Repo.{Repository}
use git_bundle_server.Go.Decimal.{show_int, show_nat, digits_onto}
use git_bundle_server.Go.Path.{join, clean, keep, keep_all}
use git_bundle_server.Go.Strings.{split, drop_empty, join_with, has_prefix}
use git_bundle_server.Go.Utf8.{valid_utf8, valid_from, lead}
use git_bundle_server.Machine.{User, Run, done}
use git_bundle_server.Machine.Memory.{Memory}
use mathlib.Core.List.{append_assoc}

abbrev pub alice : User
alice = record { home_dir = codes "/h"; uid = codes "1000" }

abbrev pub repo_ab : Repository
repo_ab = record { route = codes "a/b"; repo_dir = codes "/r"; web_dir = codes "/w" }

abbrev pub empty_disk : Memory
empty_disk = record {
  files = [];
  dirs = [];
  refused = [];
  replies = [];
  commands = [];
  clock = pos 7;
}

abbrev pub success : Run
success = record { code = pos 0; stdout = []; stderr = [] }

-- The bundles of these tokens.
abbrev pub bundles_of : List ℕ → Bundles
bundles_of [] = []
bundles_of (n ∷ ns) = (pos n, new_bundle repo_ab (pos n)) ∷ bundles_of ns

abbrev pub list_of : List ℕ → BundleList
list_of ns = record new_bundle_list { bundles = bundles_of ns }

bundles_of-own :
    (ns : List ℕ) (k : ℤ) (b : Bundle) → lookup k (bundles_of ns) ≡ some b → b.creation_token ≡ k
unfolding lookup new_bundle
bundles_of-own [] k b h = cc
bundles_of-own (n ∷ ns) k b h = ground (arith, eq_ℤ_iff (pos n) k, bundles_of-own ns k b)

bundles_of-nonnegative : (ns : List ℕ) (k : ℤ) → has (keys (bundles_of ns)) k ≡ true → pos 0 ≤ℤ k
bundles_of-nonnegative [] k h = cc
bundles_of-nonnegative (n ∷ ns) (pos j) h = ground arith
bundles_of-nonnegative (n ∷ ns) (negsuc j) h = bundles_of-nonnegative ns (negsuc j) h

pub bundles_of-IsWellFormed :
    (ns : List ℕ) → Distinct (keys (bundles_of ns)) → IsWellFormed (bundles_of ns)
bundles_of-IsWellFormed ns d = record {
  own_token = bundles_of-own ns;
  nonnegative = bundles_of-nonnegative ns;
  distinct = d;
}

pub new_bundle-IsTextBundle : IsTextBundle (new_bundle repo_ab (pos 4))
unfolding valid_utf8 valid_from lead new_bundle bundle_name show_int show_nat digits_onto join clean
    keep keep_all split drop_empty join_with has_prefix
new_bundle-IsTextBundle = record { uri = refl; filename = refl }

pub list_of-IsText : (n : ℕ) → IsTextBundle (new_bundle repo_ab (pos n)) → IsText (list_of (n ∷ []))
unfolding lookup valid_utf8 valid_from lead
list_of-IsText n valid = record {
  mode = refl;
  heuristic = refl;
  listed = λ k b e. subst IsTextBundle (ground (arith, e)) valid;
}

-- An encoding that is no JSON, but keeps what is asked of it: each part with its length before it.
abbrev int_code : ℤ → Text → Text
int_code (pos n) rest = 0 ∷ n ∷ rest
int_code (negsuc n) rest = 1 ∷ n ∷ rest

abbrev text_code : Text → Text → Text
text_code t rest = length t ∷ (t ++ rest)

abbrev bundles_code : Bundles → Text → Text
bundles_code [] rest = rest
bundles_code ((k, b) ∷ bs) rest =
    int_code k
      (text_code b.uri (text_code b.filename (int_code b.creation_token (bundles_code bs rest))))

abbrev int_read : Text → ℤ × Text
int_read (zero ∷ n ∷ rest) = (pos n, rest)
int_read (suc z ∷ n ∷ rest) = (negsuc n, rest)
int_read (z ∷ []) = (pos 0, [])
int_read [] = (pos 0, [])

abbrev text_read : Text → Text × Text
text_read [] = ([], [])
text_read (n ∷ rest) = (take n rest, drop n rest)

unfoldable pub bundles_read : ℕ → Text → Bundles
bundles_read zero rest = []
bundles_read (suc n) rest =
    let (k, s₁) = int_read rest in
    let (uri, s₂) = text_read s₁ in
    let (filename, s₃) = text_read s₂ in
    let (token, s₄) = int_read s₃ in
    (k, record { uri = uri; filename = filename; creation_token = token }) ∷ bundles_read n s₄

int_read-int_code : (z : ℤ) (rest : Text) → int_read (int_code z rest) ≡ (z, rest)
int_read-int_code (pos n) rest = refl
int_read-int_code (negsuc n) rest = refl

bundles_read-bundles_code :
    (bs : Bundles) (rest : Text) → bundles_read (length bs) (bundles_code bs rest) ≡ bs
unfolding bundles_read
bundles_read-bundles_code [] rest = refl
bundles_read-bundles_code ((k, b) ∷ bs) rest =
    let s₃ = int_code b.creation_token (bundles_code bs rest) in
    let s₂ = text_code b.filename s₃ in
    let s₁ = text_code b.uri s₂ in
    rw
      (
        int_read-int_code k s₁,
        take-length-append b.uri s₂,
        drop-length-append b.uri s₂,
        take-length-append b.filename s₃,
        drop-length-append b.filename s₃,
        int_read-int_code b.creation_token (bundles_code bs rest),
      )
      (ap (◌∷◌ (k, b)) (bundles_read-bundles_code bs rest))

abbrev pub list_code : BundleList → Text
list_code list = int_code list.version (
    text_code list.mode
      (text_code list.heuristic (length list.bundles ∷ bundles_code list.bundles [])))

unfoldable pub list_tail : ℤ → Text → Text → Text → BundleList
list_tail version mode heuristic [] = record {
  version = version;
  mode = mode;
  heuristic = heuristic;
  bundles = [];
}
list_tail version mode heuristic (n ∷ rest) = record {
  version = version;
  mode = mode;
  heuristic = heuristic;
  bundles = bundles_read n rest;
}

unfoldable pub list_read : Text → BundleList
list_read s =
    let (version, s₁) = int_read s in
    let (mode, s₂) = text_read s₁ in
    let (heuristic, s₃) = text_read s₂ in list_tail version mode heuristic s₃

int_code-append : (z : ℤ) (s rest : Text) → int_code z s ++ rest ≡ int_code z (s ++ rest)
int_code-append (pos n) s rest = refl
int_code-append (negsuc n) s rest = refl

text_code-append : (t s rest : Text) → text_code t s ++ rest ≡ text_code t (s ++ rest)
text_code-append t s rest = ap (λ (x : Text). length t ∷ x) (append_assoc t s rest)

bundles_code-append :
    (bs : Bundles) (s rest : Text) → bundles_code bs s ++ rest ≡ bundles_code bs (s ++ rest)
bundles_code-append [] s rest = refl
bundles_code-append ((k, b) ∷ bs) s rest =
    let s₄ = bundles_code bs s in
    let s₃ = int_code b.creation_token s₄ in
    let s₂ = text_code b.filename s₃ in
    int_code-append k (text_code b.uri s₂) rest
    ∙ ap (int_code k) (
        text_code-append b.uri s₂ rest
        ∙ ap (text_code b.uri) (
            text_code-append b.filename s₃ rest
            ∙ ap (text_code b.filename) (
                int_code-append b.creation_token s₄ rest
                ∙ ap (int_code b.creation_token) (bundles_code-append bs s rest))))

list_read-list_code : (list : BundleList) (rest : Text) → list_read (list_code list ++ rest) ≡ list
unfolding list_read list_tail
list_read-list_code list rest =
    let s₄ = length list.bundles ∷ bundles_code list.bundles rest in
    let s₃ = text_code list.heuristic s₄ in
    let s₂ = text_code list.mode s₃ in
    let appended : list_code list ++ rest ≡ int_code list.version s₂ =
      int_code-append list.version _ rest
      ∙ ap (int_code list.version) (
          text_code-append list.mode _ rest
          ∙ ap (text_code list.mode) (
              text_code-append list.heuristic _ rest
              ∙ ap (λ (x : Text). text_code list.heuristic (length list.bundles ∷ x))
                  (bundles_code-append list.bundles [] rest))) in
    ap list_read appended
    ∙ rw
        (
          int_read-int_code list.version s₂,
          take-length-append list.mode s₃,
          drop-length-append list.mode s₃,
          take-length-append list.heuristic s₄,
          drop-length-append list.heuristic s₄,
          bundles_read-bundles_code list.bundles rest,
        )
        refl

abbrev pub coder : Json
coder = record { marshal = λ list. done (list_code list); decode = λ text. done (list_read text) }

pub coder-IsJson : IsJson coder
coder-IsJson = record {
  decode-marshal = λ list text rest texts h. (
    list,
    ap done (
        ap (λ t. list_read (t ++ rest)) (sym (marshalled_text (list_code list) text h))
        ∙ list_read-list_code list rest),
    (refl, refl, refl, λ k. refl),
  );
}
  where
    marshalled_text : (s t : Text) → done s ≡ done t → s ≡ t
    marshalled_text s t h = ground arith
