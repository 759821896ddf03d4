-- ===== src/Base/Int.antt =====
-- `int64` values as integers, with the wrap-around of an addition written out.
use Prim.Native.Nat.{ℕ, ◌+◌, ◌-◌}
use mathlib.Core.Path.{◌≡◌, refl}
use mathlib.Core.Logic.{◌↔◌}
use mathlib.Core.Bool.{Bool, true, false}
use native.Mathlib.Omega.{arith}
use git_bundle_server.Base.Tests.{ltb, nat_eq, if◌then◌else◌, Eq}

-- `negsuc n` is -(n + 1).
pub data ℤ : Type 0 where
  pos : ℕ → ℤ
  negsuc : ℕ → ℤ

abbrev pub lt_ℤ : ℤ → ℤ → Bool
lt_ℤ (pos a) (pos b) = ltb a b
lt_ℤ (pos a) (negsuc b) = false
lt_ℤ (negsuc a) (pos b) = true
lt_ℤ (negsuc a) (negsuc b) = ltb b a

abbrev pub eq_ℤ : ℤ → ℤ → Bool
eq_ℤ (pos a) (pos b) = nat_eq a b
eq_ℤ (negsuc a) (negsuc b) = nat_eq a b
eq_ℤ _ _ = false

pub eq_ℤ_iff : (a b : ℤ) → (eq_ℤ a b ≡ true) ↔ (a ≡ b)
eq_ℤ_iff (pos a) (pos b) = ground arith
eq_ℤ_iff (pos a) (negsuc b) = ground arith
eq_ℤ_iff (negsuc a) (pos b) = ground arith
eq_ℤ_iff (negsuc a) (negsuc b) = ground arith

instance abbrev pub int_Eq : Eq ℤ
int_Eq = record { equal = eq_ℤ; equal_iff = eq_ℤ_iff }

-- `n + 1` on `int64`: the largest value wraps to the smallest.
abbrev pub max_int64 : ℕ
max_int64 = 9_223_372_036_854_775_807

abbrev pub inc : ℤ → ℤ
inc (pos n) = if ltb n max_int64 then pos (n + 1) else negsuc max_int64
inc (negsuc n) = if nat_eq n 0 then pos 0 else negsuc (n - 1)

abbrev pub ◌≤ℤ◌ : ℤ → ℤ → Type 0
◌≤ℤ◌ a b = lt_ℤ b a ≡ false

infix 50 ◌≤ℤ◌
pub le_ℤ_refl : (a : ℤ) → a ≤ℤ a
le_ℤ_refl (pos a) = ground arith
le_ℤ_refl (negsuc a) = ground arith

pub le_ℤ_trans : (a b c : ℤ) → a ≤ℤ b → b ≤ℤ c → a ≤ℤ c
le_ℤ_trans (pos a) (pos b) (pos c) h k = ground arith
le_ℤ_trans (negsuc a) (negsuc b) (negsuc c) h k = ground arith
le_ℤ_trans (negsuc a) (negsuc b) (pos c) h k = refl
le_ℤ_trans (negsuc a) (pos b) (pos c) h k = refl
le_ℤ_trans (negsuc a) (pos b) (negsuc c) h k = ground arith
le_ℤ_trans (pos a) (negsuc b) c h k = ground arith
le_ℤ_trans (pos a) (pos b) (negsuc c) h k = ground arith

pub lt_ℤ-le : (a b : ℤ) → lt_ℤ a b ≡ true → a ≤ℤ b
lt_ℤ-le (pos a) (pos b) h = ground arith
lt_ℤ-le (pos a) (negsuc b) h = ground arith
lt_ℤ-le (negsuc a) (pos b) h = ground arith
lt_ℤ-le (negsuc a) (negsuc b) h = ground arith

pub lt_le_ℤ_trans : (a b c : ℤ) → lt_ℤ b c ≡ true → a ≤ℤ b → lt_ℤ a c ≡ true
lt_le_ℤ_trans (pos a) (pos b) (pos c) h k = ground arith
lt_le_ℤ_trans (negsuc a) (negsuc b) (negsuc c) h k = ground arith
lt_le_ℤ_trans (negsuc a) b (pos c) h k = refl
lt_le_ℤ_trans (negsuc a) (pos b) (negsuc c) h k = ground arith
lt_le_ℤ_trans (pos a) (negsuc b) c h k = ground arith
lt_le_ℤ_trans (pos a) (pos b) (negsuc c) h k = ground arith

pub lt_ℤ_irrefl : (a b : ℤ) → lt_ℤ a b ≡ true → eq_ℤ a b ≡ false
lt_ℤ_irrefl (pos a) (pos b) h = ground arith
lt_ℤ_irrefl (pos a) (negsuc b) h = ground arith
lt_ℤ_irrefl (negsuc a) (pos b) h = ground arith
lt_ℤ_irrefl (negsuc a) (negsuc b) h = ground arith

-- Below the largest value an increment is larger.
pub lt_ℤ-inc : (a : ℤ) → lt_ℤ a (pos max_int64) ≡ true → lt_ℤ a (inc a) ≡ true
lt_ℤ-inc (pos a) h = ground arith
lt_ℤ-inc (negsuc a) h = ground arith

pub lt_ℤ_asymm : (a b : ℤ) → lt_ℤ a b ≡ true → lt_ℤ b a ≡ false
lt_ℤ_asymm (pos a) (pos b) h = ground arith
lt_ℤ_asymm (pos a) (negsuc b) h = ground arith
lt_ℤ_asymm (negsuc a) (pos b) h = ground arith
lt_ℤ_asymm (negsuc a) (negsuc b) h = ground arith

pub lt_ℤ_trichotomy : (a b : ℤ) → lt_ℤ a b ≡ false → eq_ℤ a b ≡ false → lt_ℤ b a ≡ true
lt_ℤ_trichotomy (pos a) (pos b) h k = ground arith
lt_ℤ_trichotomy (pos a) (negsuc b) h k = ground arith
lt_ℤ_trichotomy (negsuc a) (pos b) h k = ground arith
lt_ℤ_trichotomy (negsuc a) (negsuc b) h k = ground arith

pub lt_ℤ_trans : (a b c : ℤ) → lt_ℤ a b ≡ true → lt_ℤ b c ≡ true → lt_ℤ a c ≡ true
lt_ℤ_trans a b c h k = lt_le_ℤ_trans a b c k (lt_ℤ-le a b h)
