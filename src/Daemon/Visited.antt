-- ===== src/Daemon/Visited.antt =====
-- The loop of `web-server start` over the flags that were set, and the pairs that it adds.
use git_bundle_server.Base.{
  ℕ, Text, codes, Bool, true, false, List, [], ◌∷◌, ◌++◌, Option, none, some, ◌==◌, Error, text_Eq,
  text_eq, text_eq_iff, ◌≡◌, ◌⊎◌, inl, inr, refl, sym, ap, ◌∙◌, subst, arith, Outcome, ok, err,
  halt,
}
use git_bundle_server.Base.Assoc.{has, keys, lookup}
use git_bundle_server.Daemon.Start.{Passed, passed_value, pass_flag, pass_flags, value_of, add_pair}
use git_bundle_server.Flags.{
  FlagSet, FlagValue, boolean, string, tls_version, tls_versions, tls_name, tls_set, flag_value,
}
use git_bundle_server.Flags.Pairs.{sets, Fit, pair_args, flag_value-web}
use git_bundle_server.Flags.Typed.{is_web_name, tls_flag, right_kind, IsTyped}
use git_bundle_server.Flags.WebServer.{value_text, tls_text}
use git_bundle_server.Go.Strings.{to_lower}
use mathlib.Core.List.{append_assoc, append-nil}
use git_bundle_server.Machine.{Reply, done, failed}

abbrev pub or_same : Text → Reply Text → Text
or_same t (done s) = s
or_same t (failed e) = t

-- The value that the flag of the program has in the service: a path is an absolute one.
abbrev pub carried : Reply Text → Text → FlagValue → FlagValue
carried getwd n (string t) = string (or_same t (passed_value getwd n t))
carried getwd n (tls_version v) = tls_version v
carried getwd n (boolean b) = boolean b

abbrev pub or_empty_string : Option FlagValue → FlagValue
or_empty_string none = string []
or_empty_string (some v) = v

abbrev pub carried_of : Reply Text → FlagSet → Text → FlagValue
carried_of getwd fs n = carried getwd n (or_empty_string (flag_value fs n))

tls_set-tls_name :
    (v : ℕ) (t : Text) → tls_name tls_versions v ≡ some t → tls_set t ≡ done (tls_version v)
unfolding tls_name tls_set lookup text_eq to_lower
tls_set-tls_name v t h = ground (arith, h)

tls_text-ok : (o : Option Text) (t : Text) → tls_text o ≡ ok t → o ≡ some t
tls_text-ok none t h = cc
tls_text-ok (some s) t h = ground (arith, h)

passed_tls :
    (getwd : Reply Text) (n t s : Text)
    → (n == tls_flag) ≡ true
    → passed_value getwd n t ≡ done s
    → s ≡ t
unfolding text_eq
passed_tls getwd n t s k h =
    ground (arith, subst (λ m. passed_value getwd m t ≡ done s) ((text_eq_iff n tls_flag).0 k) h)

-- A flag of the program that is passed on, with the text that stands for its value
carried-sets :
    (getwd : Reply Text) (n : Text) (v : FlagValue) (t s : Text)
    → right_kind n v ≡ true
    → value_text v ≡ ok t
    → passed_value getwd n t ≡ done s
    → sets n s ≡ done (carried getwd n v)
unfolding value_text
carried-sets getwd n (string u) t s k h p = ground (arith, k, h, p)
carried-sets getwd n (boolean b) t s k h p = cc
carried-sets getwd n (tls_version v) t s k h p = ground (
  arith,
  k,
  tls_set-tls_name v t (tls_text-ok (tls_name tls_versions v) t h),
  passed_tls getwd n t s k p,
)

-- A round that leaves no error has found none.
pass_flag-no_error :
    (getwd : Reply Text) (fs : FlagSet) (args out : List Text) (e : Option Error) (n : Text)
    → pass_flag getwd fs (args, e) n ≡ ok (out, none)
    → e ≡ none
unfolding pass_flag
pass_flag-no_error getwd fs args out none n h = refl
pass_flag-no_error getwd fs args out (some x) n h =
    split (is_web_name n) refl (value_of n (flag_value fs n)) refl
  where
    passed : (r : Reply Text) → ok (add_pair (args, some x) n r) ≡ ok (out, none) → some x ≡ none
    passed (done s) q = cc
    passed (failed y) q = cc

    split :
        (b : Bool)
        → is_web_name n ≡ b
        → (o : Outcome Text) → value_of n (flag_value fs n) ≡ o
        → some x ≡ none
    split false w o v = ground (arith, w, h)
    split true w (ok s) v = passed (passed_value getwd n s) (ground (arith, w, v, h))
    split true w (err y) v = ground (arith, w, v, h)
    split true w (halt y) v = ground (arith, w, v, h)

-- What a round adds
abbrev Round : Reply Text → FlagSet → List Text → List Text → Text → Type 0
Round getwd fs before out n =
    ((is_web_name n ≡ false) × (out ≡ before))
    ⊎ ((is_web_name n ≡ true)
        × (s : Text) × (out ≡ before ++ ((codes "--" ++ n) ∷ s ∷ []))
        × (sets n s ≡ done (carried_of getwd fs n)))

pass_flag-Round :
    (getwd : Reply Text) (fs : FlagSet) (before out : List Text) (n : Text)
    → IsTyped fs
    → pass_flag getwd fs (before, none) n ≡ ok (out, none)
    → Round getwd fs before out n
unfolding pass_flag
pass_flag-Round getwd fs before out n t h = split (is_web_name n) refl
  where
    ended :
        (v : FlagValue)
        → flag_value fs n ≡ some v
        → right_kind n v ≡ true
        → is_web_name n ≡ true
        → (s u : Text) → value_text v ≡ ok s
        → passed_value getwd n s ≡ done u
        → Round getwd fs before out n
    ended v there kind w s u q p = inr (
      w,
      u,
      ground (arith, w, there, q, p, h),
      ground (arith, carried-sets getwd n v s u kind q p, there),
    )

    passed :
        (v : FlagValue)
        → flag_value fs n ≡ some v
        → right_kind n v ≡ true
        → is_web_name n ≡ true
        → (s : Text) → value_text v ≡ ok s
        → (r : Reply Text) → passed_value getwd n s ≡ r
        → Round getwd fs before out n
    passed v there kind w s q (done u) p = ended v there kind w s u q p
    passed v there kind w s q (failed x) p = ground (arith, w, there, q, p, h)

    added :
        (v : FlagValue)
        → flag_value fs n ≡ some v
        → right_kind n v ≡ true
        → is_web_name n ≡ true
        → (o : Outcome Text) → value_text v ≡ o
        → Round getwd fs before out n
    added v there kind w (ok s) q = passed v there kind w s q (passed_value getwd n s) refl
    added v there kind w (err x) q = ground (arith, w, there, q, h)
    added v there kind w (halt x) q = ground (arith, w, there, q, h)

    split : (b : Bool) → is_web_name n ≡ b → Round getwd fs before out n
    split false w = inl (w, ground (arith, w, h))
    split true w =
        let (v, there, kind) = flag_value-web fs n t w in added v there kind w (value_text v) refl

pass_flags-no_error :
    (getwd : Reply Text) (fs : FlagSet) (names out : List Text) (o : Outcome Passed)
    → pass_flags getwd fs names o ≡ ok (out, none)
    → (before : List Text) × (o ≡ ok (before, none))
unfolding pass_flags
pass_flags-no_error getwd fs [] out o h = (out, h)
pass_flags-no_error getwd fs (n ∷ names) out (ok (args, e)) h =
    let (mid, step) = pass_flags-no_error getwd fs names out (pass_flag getwd fs (args, e) n) h in
    (args, ap (λ x. ok (args, x)) (pass_flag-no_error getwd fs args mid e n step))
pass_flags-no_error getwd fs (n ∷ names) out (err e) h = cc
pass_flags-no_error getwd fs (n ∷ names) out (halt e) h = cc

-- The pairs that the loop has added for the names that it has gone through
abbrev pub Added : Reply Text → FlagSet → List Text → List Text → List Text → Type 0
Added getwd fs names before out =
    (ps : List (Text × Text)) × (out ≡ before ++ pair_args ps)
    × Fit (carried_of getwd fs) ps
    × ((n : Text) → is_web_name n ≡ true → has (keys ps) n ≡ has names n)

Round-Added :
    (getwd : Reply Text) (fs : FlagSet) (k : Text) (names before mid out : List Text)
    → Round getwd fs before mid k
    → Added getwd fs names mid out
    → Added getwd fs (k ∷ names) before out
Round-Added getwd fs k names before mid out (inl (w, same)) (ps, e, fit, covers) = (
  ps,
  ground (arith, e, same),
  fit,
  λ n v. ground (arith, covers n v, text_eq_iff k n, w, v, ap is_web_name),
)
Round-Added getwd fs k names before mid out (inr (w, s, plus, sets_it)) (ps, e, fit, covers) = (
  (k, s) ∷ ps,
  e
      ∙ ap (λ x. x ++ pair_args ps) plus
      ∙ append_assoc before ((codes "--" ++ k) ∷ s ∷ []) (pair_args ps),
  (w, sets_it, fit),
  λ n v. ground (arith, covers n v),
)

pub pass_flags-Added :
    (getwd : Reply Text) (fs : FlagSet) (names before out : List Text)
    → IsTyped fs
    → pass_flags getwd fs names (ok (before, none)) ≡ ok (out, none)
    → Added getwd fs names before out
unfolding pass_flags
pass_flags-Added getwd fs [] before out t h =
    ([], ground (arith, h, append-nil before), tt, λ n w. refl)
pass_flags-Added getwd fs (k ∷ names) before out t h =
    let (mid, step) =
      pass_flags-no_error getwd fs names out (pass_flag getwd fs (before, none) k) h in
    Round-Added getwd fs k names before mid out (pass_flag-Round getwd fs before mid k t step)
      (pass_flags-Added getwd fs names mid out t (sym (ap (pass_flags getwd fs names) step) ∙ h))
