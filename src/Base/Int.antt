-- ===== src/Base/Int.antt =====
-- Go's `int` where a field may be negative (`TLCMessage.Confirmed`, -1 for an unconfirmed block).
-- The 64-bit range is not modelled: the values are message ids, and -1.
use Prim.Native.Nat.{ℕ, ◌-◌, ◌%◌, ◌^◌}
use mathlib.Core.Path.{◌≡◌}
use mathlib.Core.Logic.{◌↔◌}
use mathlib.Core.Bool.{Bool, true, false}
use native.Mathlib.Omega.{arith}
use p2p_dapp.Base.Tests.{Eq, nat_beq, ltb}

-- `negsuc n` is -(n + 1).
pub data ℤ : Type 0 where
  pos : ℕ → ℤ
  negsuc : ℕ → ℤ

abbrev pub minus_one : ℤ
minus_one = negsuc 0

-- `a > b`
abbrev pub gt_int : ℤ → ℤ → Bool
gt_int (pos a) (pos b) = ltb b a
gt_int (pos a) (negsuc b) = true
gt_int (negsuc a) (pos b) = false
gt_int (negsuc a) (negsuc b) = ltb a b

-- `uint32(a)`
abbrev pub to_uint32 : ℤ → ℕ
to_uint32 (pos a) = a % 2 ^ 32
to_uint32 (negsuc a) = 2 ^ 32 - 1 - a % 2 ^ 32

abbrev pub int_beq : ℤ → ℤ → Bool
int_beq (pos a) (pos b) = nat_beq a b
int_beq (negsuc a) (negsuc b) = nat_beq a b
int_beq _ _ = false

pub int_beq_iff : (a b : ℤ) → (int_beq a b ≡ true) ↔ (a ≡ b)
int_beq_iff (pos a) (pos b) = (λ h. ground arith, λ h. ground arith)
int_beq_iff (pos a) (negsuc b) = (λ h. ground arith, λ h. ground arith)
int_beq_iff (negsuc a) (pos b) = (λ h. ground arith, λ h. ground arith)
int_beq_iff (negsuc a) (negsuc b) = (λ h. ground arith, λ h. ground arith)

instance abbrev pub int_eq : Eq ℤ
int_eq = record { beq = int_beq; beq_iff = int_beq_iff }
