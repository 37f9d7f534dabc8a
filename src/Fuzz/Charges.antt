-- ===== src/Fuzz/Charges.antt =====
-- The fee as the tests compute it.
use stellar_tip_contract.Base.{
  ℕ, ℤ, ◌≤◌, ◌+◌, ◌+ℤ◌, ◌∙◌, pos, ◌-◌, ◌-ℤ◌, ◌*ℤ◌, ◌/ℤ◌, ◌≡◌, refl, arith,
}
use stellar_tip_contract.Host.{Host}
use stellar_tip_contract.Types.{max_fee_bps}
use stellar_tip_contract.Fees.{div_bound}
use stellar_tip_contract.Fuzz.Environment.{
  TestUtils, Sandbox, Test, TestResult, passed, checked, ◌>>=◌,
}
use stellar_tip_contract.Fuzz.Properties.{tip_fee}
use stellar_tip_contract.Fuzz.Laws.{◌<|◌, Goes, on, on_checked}
use stellar_tip_contract.Fuzz.Amounts.{
  pos_add, same_pos, less_fee, product_fits, fee_due, quotient_is, small_fits,
}

module _ {h : Host} (sdk : TestUtils h) where
  pub fee_goes :
      (n fee_bps : ℕ) (w : Sandbox h)
      → n ≤ 1_000_000_000_000
      → fee_bps ≤ max_fee_bps
      → tip_fee sdk (pos n) fee_bps w ≡ passed (pos n *ℤ pos fee_bps /ℤ pos 10_000, w)
  unfolding tip_fee checked
  fee_goes n fee_bps w small rate =
      let f = fee_due n fee_bps in
      let below = div_bound n fee_bps rate in
      (on_checked _ _ (product_fits n fee_bps small rate) (record {
        ends = rw (quotient_is n fee_bps, small_fits f (omega (arith, below, small))) refl;
      })).ends

-- The fee, and what is left of the amount, as some tests compute them in line.
pub on_charges :
    {h : Host} {B : Type 0} {w : Sandbox h} {r : TestResult (B × Sandbox h)} (n fee_bps : ℕ)
    (k : ℤ → ℤ → Test h B)
    → n ≤ 1_000_000_000_000
    → fee_bps ≤ max_fee_bps
    → Goes (k (pos n *ℤ pos fee_bps /ℤ pos 10_000) (pos (n - fee_due n fee_bps))) w r
    → Goes
        (checked (pos n *ℤ pos fee_bps) >>= λ product.
          checked (product /ℤ pos 10_000) >>= λ fee. checked (pos n -ℤ fee) >>= λ left. k fee left)
        w
        r
on_charges n fee_bps k small rate rest =
    let f = fee_due n fee_bps in
    let below = div_bound n fee_bps rate in
    let net = less_fee n fee_bps rate in
    on_checked _ _ (product_fits n fee_bps small rate)
    <| on_checked _ _ (rw (quotient_is n fee_bps) (small_fits f (omega (arith, below, small))))
    <| on_checked _ _ (rw net (small_fits (n - f) (omega (arith, small)))) (rw net rest)

-- A checked value that is a small number.
pub checked_pos :
    {h : Host} (x : ℤ) (n : ℕ) (w : Sandbox h)
    → x ≡ pos n
    → n ≤ 1_000_000_000_000_000
    → checked x w ≡ passed (pos n, w)
unfolding checked
checked_pos x n w p small = rw (p, small_fits n small) refl

-- What is due to the creator after three tips, as the test of the whole flow computes it.
pub on_dues :
    {h : Host} {B : Type 0} {w : Sandbox h} {r : TestResult (B × Sandbox h)} (sdk : TestUtils h)
    (n₁ n₂ n₃ fee_bps : ℕ) (k : ℤ → Test h B)
    → n₁ ≤ 1_000_000_000_000
    → n₂ ≤ 1_000_000_000_000
    → n₃ ≤ 1_000_000_000_000
    → fee_bps ≤ max_fee_bps
    → Goes
        (k (
          pos (
            0 + (n₁ - fee_due n₁ fee_bps) + (n₂ - fee_due n₂ fee_bps) + (n₃ - fee_due n₃ fee_bps))))
        w
        r
    → Goes
        (tip_fee sdk (pos n₁) fee_bps >>= λ fee1. tip_fee sdk (pos n₂) fee_bps >>= λ fee2.
          tip_fee sdk (pos n₃) fee_bps >>= λ fee3. checked (pos n₁ -ℤ fee1) >>= λ net1.
          checked (pos n₂ -ℤ fee2) >>= λ net2. checked (net1 +ℤ net2) >>= λ net12.
          checked (pos n₃ -ℤ fee3) >>= λ net3. checked (net12 +ℤ net3) >>= λ due. k due)
        w
        r
on_dues {w = w} sdk n₁ n₂ n₃ fee_bps k q₁ q₂ q₃ rate rest =
    let a₁ = n₁ - fee_due n₁ fee_bps in
    let a₂ = n₂ - fee_due n₂ fee_bps in
    let a₃ = n₃ - fee_due n₃ fee_bps in
    on _ _ (fee_goes sdk n₁ fee_bps w q₁ rate)
    <| on _ _ (fee_goes sdk n₂ fee_bps w q₂ rate)
    <| on _ _ (fee_goes sdk n₃ fee_bps w q₃ rate)
    <| on _ _ (checked_pos _ a₁ w (less_fee n₁ fee_bps rate) (omega (arith, q₁)))
    <| on _ _ (checked_pos _ a₂ w (less_fee n₂ fee_bps rate) (omega (arith, q₂)))
    <| on _ _ (checked_pos _ (a₁ + a₂) w (pos_add a₁ a₂) (omega (arith, q₁, q₂)))
    <| on _ _ (checked_pos _ a₃ w (less_fee n₃ fee_bps rate) (omega (arith, q₃)))
    <| on _ _
        (checked_pos _ (0 + a₁ + a₂ + a₃) w (pos_add (a₁ + a₂) a₃ ∙ same_pos (omega arith))
          (omega (arith, q₁, q₂, q₃)))
        rest
