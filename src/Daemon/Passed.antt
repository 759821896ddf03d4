-- ===== src/Daemon/Passed.antt =====
-- The arguments that `web-server start` writes into the service, against the flags that the web
-- server parses from them.
use git_bundle_server.Base.{
  Text, codes, true, false, List, [], ◌∷◌, none, some, if◌then◌else◌, text_Eq, text_eq, ◌≡◌, refl,
  ap, ◌∙◌, arith, Outcome, ok, err, halt,
}
use git_bundle_server.Base.Assoc.{has, keys, lookup, insert}
use git_bundle_server.Daemon.Start.{Passed, pass_flags, service_flags, sort_names, insert_name}
use git_bundle_server.Flags.{
  FlagSet, FlagValue, boolean, string, tls_version, flag_value, reading, parse_flags, define,
  define_alias, no_flags,
}
use git_bundle_server.Flags.Pairs.{All, has-All, parse_from-pair_args}
use git_bundle_server.Daemon.Visited.{pass_flags-Added, carried_of}
use git_bundle_server.Flags.Typed.{is_web_name, right_kind, IsTyped, parse_from-IsTyped}
use git_bundle_server.Flags.WebServer.{web_server_values, define_all}
use git_bundle_server.Machine.{Reply, done}

has-insert_name :
    (k : Text) (names : List Text) (n : Text) → has (insert_name k names) n ≡ has (k ∷ names) n
unfolding insert_name
has-insert_name k [] n = refl
has-insert_name k (j ∷ names) n = ground (arith, has-insert_name k names n)

has-sort_names : (names : List Text) (n : Text) → has (sort_names names) n ≡ has names n
unfolding sort_names
has-sort_names [] n = refl
has-sort_names (k ∷ names) n =
    ground (arith, has-insert_name k (sort_names names) n, has-sort_names names n)

service_flags-passed :
    (getwd : Reply Text) (fs : FlagSet) (out : List Text)
    → service_flags getwd fs ≡ ok out
    → pass_flags getwd fs (sort_names fs.actual) (ok ([], none)) ≡ ok (out, none)
unfolding service_flags
service_flags-passed getwd fs out h =
    split (pass_flags getwd fs (sort_names fs.actual) (ok ([], none))) refl
  where
    split :
        (o : Outcome Passed)
        → pass_flags getwd fs (sort_names fs.actual) (ok ([], none)) ≡ o
        → pass_flags getwd fs (sort_names fs.actual) (ok ([], none)) ≡ ok (out, none)
    split (ok (args, none)) e = ground (arith, e, h)
    split (ok (args, some x)) e = ground (arith, e, h)
    split (err x) e = ground (arith, e, h)
    split (halt x) e = ground (arith, e, h)

-- The flags of the web server before any argument
abbrev pub web_flags : FlagSet
web_flags = define_all web_server_values no_flags

-- The flags of `web-server start` before any argument
abbrev pub start_flags : FlagSet
start_flags =
    define_all web_server_values
      (define_alias (codes "f") (codes "force") (define (codes "force") (boolean false) no_flags))

-- Of one flag, what `IsTyped` says of all
abbrev TypedAt : FlagSet → Text → Type 0
TypedAt fs n =
    (lookup n fs.formal ≡ some n)
    × (v : FlagValue) × (lookup n fs.cells ≡ some v)
    × (right_kind n v ≡ true)

TypedAt-IsTyped : (fs : FlagSet) → All (TypedAt fs) (keys web_server_values) → IsTyped fs
TypedAt-IsTyped fs h = record {
  bound = λ n w. (has-All (TypedAt fs) (keys web_server_values) n h w).0;
  typed = λ n w.
      let (bound, v, there, kind) = has-All (TypedAt fs) (keys web_server_values) n h w in
      (v, there, kind);
}

web_flags-IsTyped : IsTyped web_flags
unfolding define define_all insert lookup text_eq
web_flags-IsTyped = TypedAt-IsTyped web_flags (
  (refl, string (codes "8080"), refl, refl),
  (
    (refl, string [], refl, refl),
    (
      (refl, string [], refl, refl),
      (
        (refl, tls_version 771, refl, refl),
        ((refl, string [], refl, refl), ((refl, string [], refl, refl), tt)),
      ),
    ),
  ),
)

start_flags-IsTyped : IsTyped start_flags
unfolding define define_alias define_all insert lookup text_eq
start_flags-IsTyped = TypedAt-IsTyped start_flags (
  (refl, string (codes "8080"), refl, refl),
  (
    (refl, string [], refl, refl),
    (
      (refl, string [], refl, refl),
      (
        (refl, tls_version 771, refl, refl),
        ((refl, string [], refl, refl), ((refl, string [], refl, refl), tt)),
      ),
    ),
  ),
)

-- If the flags of `web-server start` are parsed and their paths have absolute forms: the web server
-- parses the arguments that are written into the service, with none left over, and then each of its
-- flags that was set has the value that was given, a path its absolute form, and each other flag
-- its default.
pub parse_flags-service_flags :
    (getwd : Reply Text) (args out : List Text) (fs : FlagSet) (n : Text)
    → parse_flags start_flags args ≡ done fs
    → service_flags getwd fs ≡ ok out
    → is_web_name n ≡ true
    → (g : FlagSet) × (parse_flags web_flags out ≡ done g)
      × (g.args ≡ [])
      × (flag_value g n
          ≡ (if has fs.actual n then some (carried_of getwd fs n) else flag_value web_flags n))
parse_flags-service_flags getwd args out fs n h s w =
    let (ps, e, fit, covers) =
      pass_flags-Added getwd fs (sort_names fs.actual) [] out
        (parse_from-IsTyped args (reading start_flags) fs start_flags-IsTyped h)
        (service_flags-passed getwd fs out s) in
    let (g, parsed, no_args, behind) =
      parse_from-pair_args (carried_of getwd fs) ps web_flags web_flags-IsTyped fit in
    (
      g,
      ap (parse_flags web_flags) e ∙ parsed,
      no_args,
      ground (arith, behind n w, covers n w, has-sort_names fs.actual n),
    )
