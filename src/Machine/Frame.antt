-- ===== src/Machine/Frame.antt =====
-- Actions that touch no file but those at some paths.
use git_bundle_server.Base.{
  true, false, Text, List, [], ◌∷◌, ◌≡◌, refl, ◌∙◌, arith, text_Eq, text_eq, text_eq_iff, M,
  Outcome, ok, err, halt, ◌>>=◌, bind_from, wrapped,
}
use git_bundle_server.Base.Assoc.{has}
use git_bundle_server.Machine.{Machine, Reply, done, failed, Only, Reads, outcome, call}

-- Whatever comes out, each file at another path is as before.
abbrev pub Keeps : (m : Machine) {A : Type 0} → List Text → M m.World A → Type 0
Keeps m ps a = (w : m.World) (q : Text) → has ps q ≡ false → m.file (a w).1 q ≡ m.file w q

-- A call wrapped with a message succeeds exactly if the call does.
pub wrapped-outcome-eq-ok :
    {A : Type 0} (p : Text) (o : Reply A) {x : A} → wrapped p (outcome o) ≡ ok x → o ≡ done x
wrapped-outcome-eq-ok p (done a) h = ground arith
wrapped-outcome-eq-ok p (failed e) h = cc

module _ (m : Machine) (ps : List Text) where
  pub >>=-Keeps :
      {A B : Type 0} (a : M m.World A) (f : A → M m.World B)
      → Keeps m ps a
      → ((x : A) → Keeps m ps (f x))
      → Keeps m ps (a >>= f)
  >>=-Keeps {A} {B} a f ka kf w q h = after (a w).0 ∙ ka w q h
    where
      after : (o : Outcome A) → m.file (bind_from o (a w).1 f).1 q ≡ m.file (a w).1 q
      after (ok x) = kf x (a w).1 q h
      after (err e) = refl
      after (halt p) = refl

  -- The same where the second action keeps to the paths only for what the first one can return.
  pub >>=-Keeps_of :
      {A B : Type 0} (P : A → Type 0) (a : M m.World A) (f : A → M m.World B)
      → Keeps m ps a
      → ((w : m.World) (x : A) → (a w).0 ≡ ok x → P x)
      → ((x : A) → P x → Keeps m ps (f x))
      → Keeps m ps (a >>= f)
  >>=-Keeps_of {A} {B} P a f ka returns kf w q h = after (a w).0 (returns w) ∙ ka w q h
    where
      after :
          (o : Outcome A)
          → ((x : A) → o ≡ ok x → P x)
          → m.file (bind_from o (a w).1 f).1 q ≡ m.file (a w).1 q
      after (ok x) p = kf x (p x refl) (a w).1 q h
      after (err e) p = refl
      after (halt s) p = refl

  pub call-Keeps :
      {A : Type 0} (p : Text) (c : m.World → Reply A × m.World)
      → has ps p ≡ true
      → Only m p c
      → Keeps m ps (call c)
  call-Keeps p c h only w q k = only w q (other ps h k)
    where
      other : (l : List Text) → has l p ≡ true → has l q ≡ false → text_eq p q ≡ false
      other [] h k = ground (arith, h)
      other (x ∷ l) h k = ground (arith, other l, text_eq_iff x p, text_eq_iff x q, text_eq_iff p q)

  pub call-Keeps-Reads :
      {A : Type 0} (c : m.World → Reply A × m.World) → Reads m c → Keeps m ps (call c)
  call-Keeps-Reads c reads w q k = reads w q
