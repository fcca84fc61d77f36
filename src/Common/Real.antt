-- ===== src/Common/Real.antt =====
-- Python's `float` as an interface: what the code uses of it, and the laws that its proofs rest on.
-- They hold of IEEE doubles that are not NaN (up to the sign of zero).
use Prim.Native.Nat.{ℕ, ◌+◌}
use mathlib.Core.Path.{◌≡◌}
use mathlib.Core.Bool.{Bool, true, false}
use native.Mathlib.Omega.{arith}
use qervan_ai.Common.Tests.{ltb, if◌then◌else◌}

pub record Real (F : Type 0) : Type 0 where
  pub zero_r : F
  pub add : F → F → F
  pub lt : F → F → Bool
  -- the order is a strict weak order
  pub lt_irrefl : (a : F) → lt a a ≡ false
  pub lt_trans : (a b c : F) → lt a b ≡ true → lt b c ≡ true → lt a c ≡ true
  pub lt_cotrans : (a b c : F) → lt a b ≡ false → lt b c ≡ false → lt a c ≡ false
  -- adding a number that is not negative makes nothing smaller
  pub add_grows : (a b : F) → lt b zero_r ≡ false → lt (add a b) a ≡ false
  pub zero_add : (a : F) → add zero_r a ≡ a

-- Python's max(a, b): the first argument unless the second is greater.
abbrev pub max_r : {F : Type 0} → Real F → F → F → F
max_r r a b = if r.lt a b then b else a

-- Natural numbers, as whole units.
pub ltb_irrefl : (a : ℕ) → ltb a a ≡ false
ltb_irrefl a = ground arith

pub ltb_trans : (a b c : ℕ) → ltb a b ≡ true → ltb b c ≡ true → ltb a c ≡ true
ltb_trans a b c h k = ground arith

pub ltb_cotrans : (a b c : ℕ) → ltb a b ≡ false → ltb b c ≡ false → ltb a c ≡ false
ltb_cotrans a b c h k = ground arith

pub ltb_add_grows : (a b : ℕ) → ltb b 0 ≡ false → ltb (a + b) a ≡ false
ltb_add_grows a b h = ground arith

pub ℕ_zero_add : (a : ℕ) → 0 + a ≡ a
ℕ_zero_add a = omega arith

abbrev pub whole : Real ℕ
whole = record {
  zero_r = 0;
  add = ◌+◌;
  lt = ltb;
  lt_irrefl = ltb_irrefl;
  lt_trans = ltb_trans;
  lt_cotrans = ltb_cotrans;
  add_grows = ltb_add_grows;
  zero_add = ℕ_zero_add;
}
