-- ===== src/Base/Int.antt =====
-- The integers of Python (unbounded), over the native numbers, as far as sequence numbers need
-- them.
use Prim.Native.Nat.{ℕ, ◌+◌, ◌-◌}
use mathlib.Core.Path.{◌≡◌}
use mathlib.Core.Logic.{◌↔◌}
use mathlib.Core.Bool.{Bool, true, false}
use native.Mathlib.Omega.{arith}
use halt_proof.Base.Tests.{leb, eqb, if◌then◌else◌}

-- `negsuc n` is -(n + 1).
pub data ℤ : Type 0 where
  pos : ℕ → ℤ
  negsuc : ℕ → ℤ

-- `z + 1`
unfoldable pub next : ℤ → ℤ
next (pos n) = pos (n + 1)
next (negsuc n) = if eqb n 0 then pos 0 else negsuc (n - 1)

-- `a <= b`
unfoldable pub leb_ℤ : ℤ → ℤ → Bool
leb_ℤ (pos a) (pos b) = leb a b
leb_ℤ (pos a) (negsuc b) = false
leb_ℤ (negsuc a) (pos b) = true
leb_ℤ (negsuc a) (negsuc b) = leb b a

-- `a == b`
unfoldable pub eqb_ℤ : ℤ → ℤ → Bool
eqb_ℤ (pos a) (pos b) = eqb a b
eqb_ℤ (pos a) (negsuc b) = false
eqb_ℤ (negsuc a) (pos b) = false
eqb_ℤ (negsuc a) (negsuc b) = eqb a b

pub eqb_ℤ_iff : (a b : ℤ) → (eqb_ℤ a b ≡ true) ↔ (a ≡ b)
unfolding eqb_ℤ
eqb_ℤ_iff (pos a) (pos b) = ground arith
eqb_ℤ_iff (pos a) (negsuc b) = ground arith
eqb_ℤ_iff (negsuc a) (pos b) = ground arith
eqb_ℤ_iff (negsuc a) (negsuc b) = ground arith

pub eqb_ℤ_refl : (a : ℤ) → eqb_ℤ a a ≡ true
eqb_ℤ_refl a = (eqb_ℤ_iff a a).1 (ground arith)

pub leb_ℤ-next : (a : ℤ) → leb_ℤ a (next a) ≡ true
unfolding leb_ℤ next
leb_ℤ-next (pos a) = ground arith
leb_ℤ-next (negsuc a) = ground arith

pub leb_ℤ-next_not : (a : ℤ) → leb_ℤ (next a) a ≡ false
unfolding leb_ℤ next
leb_ℤ-next_not (pos a) = ground arith
leb_ℤ-next_not (negsuc a) = ground arith

pub leb_ℤ_total : (a b : ℤ) → leb_ℤ a b ≡ false → leb_ℤ b a ≡ true
unfolding leb_ℤ
leb_ℤ_total (pos a) (pos b) h = ground arith
leb_ℤ_total (pos a) (negsuc b) h = ground arith
leb_ℤ_total (negsuc a) (pos b) h = ground arith
leb_ℤ_total (negsuc a) (negsuc b) h = ground arith

pub leb_ℤ_trans : (a b c : ℤ) → leb_ℤ a b ≡ true → leb_ℤ b c ≡ true → leb_ℤ a c ≡ true
unfolding leb_ℤ
leb_ℤ_trans (pos a) (pos b) (pos c) h k = ground arith
leb_ℤ_trans (pos a) (pos b) (negsuc c) h k = ground arith
leb_ℤ_trans (pos a) (negsuc b) c h k = ground arith
leb_ℤ_trans (negsuc a) (pos b) (pos c) h k = ground arith
leb_ℤ_trans (negsuc a) (pos b) (negsuc c) h k = ground arith
leb_ℤ_trans (negsuc a) (negsuc b) (pos c) h k = ground arith
leb_ℤ_trans (negsuc a) (negsuc b) (negsuc c) h k = ground arith

pub leb_ℤ_antisymm : (a b : ℤ) → leb_ℤ a b ≡ true → leb_ℤ b a ≡ true → a ≡ b
unfolding leb_ℤ
leb_ℤ_antisymm (pos a) (pos b) h k = ground arith
leb_ℤ_antisymm (pos a) (negsuc b) h k = ground arith
leb_ℤ_antisymm (negsuc a) (pos b) h k = ground arith
leb_ℤ_antisymm (negsuc a) (negsuc b) h k = ground arith

pub leb_ℤ_refl : (a : ℤ) → leb_ℤ a a ≡ true
unfolding leb_ℤ
leb_ℤ_refl (pos a) = ground arith
leb_ℤ_refl (negsuc a) = ground arith
