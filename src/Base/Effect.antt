-- ===== src/Base/Effect.antt =====
-- The outcome of Go code: a value, an error, a panic or the end of the process; and the monad of
-- code that runs in a world.
use Prim.Native.Nat.{ℕ}
use mathlib.Core.Path.{◌≡◌, refl, ap}
use native.Mathlib.Omega.{arith}
use git_bundle_server.Base.Bytes.{Text}

-- Why an operating system call failed. `not_exist` is `ENOENT`.
pub data Errno : Type 0 where
  not_exist : Errno
  other : Text → Errno

-- `errno` is an error of the operating system, `message` one of `fmt.Errorf` over plain text, and
-- `wrap p e` one of `fmt.Errorf` with a format `p%w`.
pub data Error : Type 0 where
  errno : Errno → Error
  message : Text → Error
  wrap : Text → Error → Error

pub data Halt : Type 0 where
  panic : Text → Halt
  exit : ℕ → Halt

pub data Outcome {ℓ} (A : Type ℓ) : Type ℓ where
  ok : A → Outcome A
  err : Error → Outcome A
  halt : Halt → Outcome A

abbrev pub M : Type 0 → Type 0 → Type 0
M W A = W → Outcome A × W

infixl 5 ◌>>=◌ ◌>>◌
abbrev pub bind_from : {W A B : Type 0} → Outcome A → W → (A → M W B) → Outcome B × W
bind_from (ok a) w f = f a w
bind_from (err e) w f = (err e, w)
bind_from (halt h) w f = (halt h, w)

abbrev pub ◌>>=◌ : {W A B : Type 0} → M W A → (A → M W B) → M W B
◌>>=◌ m f w = bind_from (m w).0 (m w).1 f

abbrev pub ◌>>◌ : {W A B : Type 0} → M W A → M W B → M W B
m >> k = m >>= λ _. k

abbrev pub return : {W A : Type 0} → A → M W A
return a w = (ok a, w)

abbrev pub throw : {W A : Type 0} → Error → M W A
throw e w = (err e, w)

abbrev pub stop : {W A : Type 0} → Halt → M W A
stop h w = (halt h, w)

-- `if err != nil { return fmt.Errorf("p: %w", err) }`
abbrev pub wrapped : {A : Type 0} → Text → Outcome A → Outcome A
wrapped p (ok a) = ok a
wrapped p (err e) = err (wrap p e)
wrapped p (halt h) = halt h

abbrev pub wrapping : {W A : Type 0} → Text → M W A → M W A
wrapping p m w = (wrapped p (m w).0, (m w).1)

-- Inversion of a successful bind.
pub >>=-eq-ok :
    {W A B : Type 0} (a : M W A) (f : A → M W B) (w : W) {b : B}
    → ((a >>= f) w).0 ≡ ok b
    → (x : A) × ((a w).0 ≡ ok x) × ((f x (a w).1).0 ≡ ok b)
>>=-eq-ok {W} {A} {B} a f w {b} h = invert (a w).0 refl
  where
    invert : (o : Outcome A) → (a w).0 ≡ o → (x : A) × ((a w).0 ≡ ok x) × ((f x (a w).1).0 ≡ ok b)
    invert (ok x) e = (x, e, ground arith)
    invert (err x) e = cc
    invert (halt x) e = cc

-- A bind goes on with the value of a success, in the world behind it.
pub >>=-ok :
    {W A B : Type 0} (a : M W A) (f : A → M W B) (w : W) {x : A}
    → (a w).0 ≡ ok x
    → (a >>= f) w ≡ f x (a w).1
>>=-ok a f w h = ap (λ o. bind_from o (a w).1 f) h

pub wrapped-eq-ok : {A : Type 0} (p : Text) (o : Outcome A) {a : A} → wrapped p o ≡ ok a → o ≡ ok a
wrapped-eq-ok p (ok a) h = h
wrapped-eq-ok p (err e) h = cc
wrapped-eq-ok p (halt e) h = cc
