-- ===== src/Fuzz/Amounts.antt =====
-- The amounts of the tests, and their ranges.
use stellar_tip_contract.Base.{
  ℕ, ◌≤◌, ◌<◌, ◌*◌, ◌/◌, ◌+◌, ◌-◌, min, pos, ◌+ℤ◌, ◌-ℤ◌, ◌*ℤ◌, ◌/ℤ◌, ◌≡◌, ◌∙◌, ap, int_laws, true,
  arith,
}
use stellar_tip_contract.Types.{max_fee_bps}
use stellar_tip_contract.Env.{fits_i128}
use stellar_tip_contract.Fees.{fee_amount-pos, div_bound}
use stellar_tip_contract.Outcome.Tipping.{fee_amount}
use stellar_tip_contract.Fuzz.Properties.{min_amount}

mul_bound :
    (n b : ℕ) → n ≤ 1_000_000_000_000 → b ≤ max_fee_bps → n * b ≤ 1_000_000_000_000 * max_fee_bps
mul_bound n b p q = grind arith

pub product_fits :
    (n b : ℕ) → n ≤ 1_000_000_000_000 → b ≤ max_fee_bps → fits_i128 (pos n *ℤ pos b) ≡ true
unfolding fits_i128 ◌*ℤ◌
product_fits n b p q = ground (arith, mul_bound n b p q)

pub amount_fits : (n : ℕ) → n ≤ 1_000_000_000_000 → fits_i128 (pos n) ≡ true
unfolding fits_i128
amount_fits n p = ground arith

-- `amount * fee_bps / 10000`
abbrev pub fee_due : ℕ → ℕ → ℕ
fee_due n fee_bps = n * fee_bps / max_fee_bps

-- The fee as the tests compute it.
pub quotient_is : (n b : ℕ) → pos n *ℤ pos b /ℤ pos 10_000 ≡ pos (fee_due n b)
unfolding fee_amount
quotient_is n b = fee_amount-pos n b

-- A fee below 100% leaves something.
pub fee_below : (n b : ℕ) → 1 ≤ n → b < 10_000 → fee_due n b < n
fee_below n b p q = grind arith

pub pos_add : (a b : ℕ) → pos a +ℤ pos b ≡ pos (a + b)
unfolding ◌+ℤ◌
pos_add a b = ground arith

pub pos_sub : (a b : ℕ) → b ≤ a → pos a -ℤ pos b ≡ pos (a - b)
unfolding ◌-ℤ◌
pos_sub a b p = ground arith

pub small_fits : (n : ℕ) → n ≤ 1_000_000_000_000_000 → fits_i128 (pos n) ≡ true
unfolding fits_i128
small_fits n p = ground arith

pub asked_for : (m x : ℕ) → min_amount (pos m) (pos x) ≡ pos (min m x)
asked_for m x = ground arith

-- What a balance is after the transfers.
pub added : (a b : ℕ) → pos a -ℤ pos 0 +ℤ pos b ≡ pos (a + b)
added a b =
    let same : pos a -ℤ pos 0 +ℤ pos b ≡ pos a +ℤ pos b = omega int_laws in same ∙ pos_add a b

pub credited : (a n f : ℕ) → f ≤ n → pos a -ℤ pos 0 +ℤ pos n -ℤ pos f +ℤ pos 0 ≡ pos (a + (n - f))
credited a n f p =
    let same : pos a -ℤ pos 0 +ℤ pos n -ℤ pos f +ℤ pos 0 ≡ pos a +ℤ (pos n -ℤ pos f) =
      omega int_laws in
    same ∙ rw (pos_sub n f p) (pos_add a (n - f))

pub given : (a f : ℕ) → pos a -ℤ pos 0 +ℤ pos 0 -ℤ pos 0 +ℤ pos f ≡ pos (a + f)
given a f =
    let same : pos a -ℤ pos 0 +ℤ pos 0 -ℤ pos 0 +ℤ pos f ≡ pos a +ℤ pos f = omega int_laws in
    same ∙ pos_add a f

pub taken : (a n : ℕ) → n ≤ a → pos a -ℤ pos n +ℤ pos 0 -ℤ pos 0 +ℤ pos 0 ≡ pos (a - n)
taken a n p =
    let same : pos a -ℤ pos n +ℤ pos 0 -ℤ pos 0 +ℤ pos 0 ≡ pos a -ℤ pos n = omega int_laws in
    same ∙ pos_sub a n p

pub sent : (a n : ℕ) → n ≤ a → pos a -ℤ pos n +ℤ pos 0 ≡ pos (a - n)
sent a n p =
    let same : pos a -ℤ pos n +ℤ pos 0 ≡ pos a -ℤ pos n = omega int_laws in same ∙ pos_sub a n p

pub less_fee :
    (n b : ℕ) → b ≤ max_fee_bps → pos n -ℤ (pos n *ℤ pos b /ℤ pos 10_000) ≡ pos (n - fee_due n b)
less_fee n b p = rw (quotient_is n b) (pos_sub n (fee_due n b) (div_bound n b p))

pub same_pos : {a b : ℕ} → a ≡ b → pos a ≡ pos b
same_pos p = ap pos p
