-- ===== src/Fees.antt =====
-- The platform fee of a tip: `(amount * fee_bps) / MAX_FEE_BPS` in `tip` of src/lib.rs.

use stellar_tip_contract.Base.{
  ℕ, ◌*◌, ◌/◌, ◌≤◌, ℤ, pos, negsuc, ◌*ℤ◌, ◌/ℤ◌, ◌≤ℤ◌, leb_ℤ, ◌≡◌, false, arith,
}
use stellar_tip_contract.Types.{max_fee_bps}
use stellar_tip_contract.Outcome.Tipping.{fee_amount}

-- For a positive amount the fee is a division of natural numbers.
pub fee_amount-pos : (n b : ℕ) → fee_amount (pos n) b ≡ pos (n * b / max_fee_bps)
unfolding fee_amount ◌*ℤ◌ ◌/ℤ◌
fee_amount-pos n b = ground arith

pub div_bound : (n b : ℕ) → b ≤ max_fee_bps → n * b / max_fee_bps ≤ n
div_bound n b h = grind arith

-- The fee lies between 0 and the amount.
pub fee_bounds :
    (amount : ℤ) (b : ℕ)
    → leb_ℤ amount (pos 0) ≡ false
    → b ≤ max_fee_bps
    → (pos 0 ≤ℤ fee_amount amount b) × (fee_amount amount b ≤ℤ amount)
fee_bounds (negsuc n) b p h = ground arith
fee_bounds (pos n) b p h = rw fee_amount-pos (omega (arith, div_bound n b h))
