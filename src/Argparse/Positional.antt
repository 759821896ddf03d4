-- ===== src/Argparse/Positional.antt =====
-- The loop of argparse's Parse over an offset against a matching of two lists.
use git_bundle_server.Argparse.{
  ArgParser, PositionalArg, Variable, string_var, list_var, usage_exit_code, n_arg, arg_at,
  args_from, Bound, bound_first, bind_args, accounted, parse_positional, validate_args, parse,
}
use git_bundle_server.Base.{
  ℕ, zero, suc, ◌+◌, ◌≤◌, ◌<◌, Text, true, false, List, [], ◌∷◌, Option, none, some, if◌then◌else◌,
  length, drop, length-drop, Outcome, ok, err, halt, exit, ◌≡◌, refl, ap, arith,
}
use git_bundle_server.Flags.{FlagSet, parse_flags}
use git_bundle_server.Machine.{done}

-- The arguments against the values: one value each, all that are left for a list.
abbrev given :
    PositionalArg
    → List PositionalArg
    → Text
    → List Text
    → Option (List PositionalArg)
    → Variable
    → Option (List PositionalArg)
given a rest s values (some matched) (string_var old) =
    some (record a { value = string_var s } ∷ matched)
given a rest s values none (string_var old) = none
given a rest s values later (list_var old) =
    some (record a { value = list_var (s ∷ values) } ∷ rest)

unfoldable pub match_args : List PositionalArg → List Text → Option (List PositionalArg)
match_args [] [] = some []
match_args [] (s ∷ values) = none
match_args (a ∷ rest) [] = if a.required then none else some (a ∷ rest)
match_args (a ∷ rest) (s ∷ values) = given a rest s values (match_args rest values) a.value

-- The loop has matched all values, or some are left, or it has ended the process.
abbrev Agrees : ℕ → Outcome Bound → Option (List PositionalArg) → Type 0
Agrees n (ok (bound, offset)) (some matched) = (bound ≡ matched) × (offset ≡ n)
Agrees n (ok (bound, offset)) none = offset < n
Agrees n (halt h) none = h ≡ exit usage_exit_code
Agrees n (halt h) (some matched) = ⊥
Agrees n (err e) m = ⊥

drop-cons :
    (args : List Text) (k : ℕ) → k < length args → drop k args ≡ arg_at args k ∷ drop (suc k) args
unfolding arg_at
drop-cons [] k h = absurd (omega (arith, h))
drop-cons (s ∷ args) zero h = refl
drop-cons (s ∷ args) (suc k) h = drop-cons args k (omega (arith, h))

drop_end : (args : List Text) (k : ℕ) → length args ≤ k → drop k args ≡ []
drop_end [] zero h = refl
drop_end [] (suc k) h = refl
drop_end (s ∷ args) zero h = absurd (omega (arith, h))
drop_end (s ∷ args) (suc k) h = drop_end args k (omega (arith, h))

-- The rest of a list from one of its places on.
drop_split :
    (args : List Text) (k : ℕ) (s : Text) (values : List Text)
    → drop k args ≡ s ∷ values
    → (arg_at args k ≡ s) × (drop (suc k) args ≡ values) × (k < length args)
unfolding arg_at
drop_split [] zero s values h = cc
drop_split [] (suc k) s values h = cc
drop_split (x ∷ args) zero s values h = ground (arith, h)
drop_split (x ∷ args) (suc k) s values h = ground (arith, drop_split args k s values h)

Agrees-nil :
    (n k : ℕ) (values : List Text)
    → n ≡ k + length values
    → Agrees n (ok ([], k)) (match_args [] values)
unfolding match_args
Agrees-nil n k [] h = (refl, omega (arith, h))
Agrees-nil n k (s ∷ values) h = omega (arith, h)

Agrees-string :
    (n : ℕ) (a : PositionalArg) (o : Outcome Bound) (m : Option (List PositionalArg))
    → Agrees n o m
    → Agrees n (bound_first a o) (elim m [ none ↦ none | some matched ↦ some (a ∷ matched) ])
Agrees-string n a (ok (bound, offset)) (some matched) h = (ap (◌∷◌ a) h.0, h.1)
Agrees-string n a (ok (bound, offset)) none h = h
Agrees-string n a (halt x) none h = h
Agrees-string n a (halt x) (some matched) h = h
Agrees-string n a (err e) m h = absurd h

bind-Agrees :
    (args : List Text) (a : PositionalArg) (rest : List PositionalArg) (k : ℕ) (values : List Text)
    → drop k args ≡ values
    → k ≤ length args
    → (k < length args
        → Agrees (length args) (bind_args args rest (suc k)) (match_args rest (drop (suc k) args)))
    → Agrees (length args) (bind_args args (a ∷ rest) k) (match_args (a ∷ rest) values)
unfolding bind_args match_args n_arg args_from
bind-Agrees args a rest k [] e h later = ground (arith, length-drop k args, ap length e)
bind-Agrees args a rest k (s ∷ values) e h later = ground (arith, drop_split args k s values e)

bind_args-Agrees :
    (args : List Text) (ps : List PositionalArg) (k : ℕ)
    → k ≤ length args
    → Agrees (length args) (bind_args args ps k) (match_args ps (drop k args))
unfolding bind_args
bind_args-Agrees args [] k h =
    Agrees-nil (length args) k (drop k args) (omega (arith, h, length-drop k args))
bind_args-Agrees args (a ∷ rest) k h =
    bind-Agrees args a rest k (drop k args) refl h (bind_args-Agrees args rest (suc k))

-- What Parse ends with: the process is over unless all values were matched.
abbrev pub settle : {W : Type 0} → ArgParser W → Option (List PositionalArg) → Outcome (ArgParser W)
settle p none = halt (exit usage_exit_code)
settle p (some matched) =
    ok (record p { parsed = true; positional_args = matched; arg_offset = length p.flags.args })

accounted-settle :
    {W : Type 0} (p : ArgParser W) (o : Outcome Bound) (m : Option (List PositionalArg))
    → Agrees (length p.flags.args) o m
    → accounted p o ≡ settle p m
unfolding n_arg
accounted-settle p (ok (bound, offset)) (some matched) h = ground (arith, h)
accounted-settle p (ok (bound, offset)) none h = ground (arith, h)
accounted-settle p (halt x) none h = ap halt h
accounted-settle p (halt x) (some matched) h = absurd h
accounted-settle p (err e) m h = absurd h

-- For a parser that has not parsed yet, has no subcommands and has positional arguments that the
-- validation accepts: behind the flags, Parse gives the positional arguments exactly the values
-- that a matching of the two lists gives them, and ends the process with status 2 if there is no
-- such matching.
pub parse-match_args :
    {W : Type 0} (p : ArgParser W) (args : List Text) (fs : FlagSet)
    → p.parsed ≡ false
    → p.subcommands ≡ []
    → p.arg_offset ≡ 0
    → validate_args false p.positional_args ≡ ok tt
    → parse_flags p.flags args ≡ done fs
    → parse p args ≡ settle (record p { flags = fs }) (match_args p.positional_args fs.args)
unfolding parse parse_positional
parse-match_args p args fs hp hs ho hv hf = ground (
  arith,
  accounted-settle (record p { flags = fs }) (bind_args fs.args p.positional_args p.arg_offset)
      (match_args p.positional_args fs.args)
      (rw ho (bind_args-Agrees fs.args p.positional_args 0 (omega arith))),
)
