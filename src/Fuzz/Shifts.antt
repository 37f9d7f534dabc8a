-- ===== src/Fuzz/Shifts.antt =====
-- What the accounts of the tests hold after a tip and after a withdrawal.
use stellar_tip_contract.Base.{
  ℕ, ◌≤◌, ◌+◌, ◌-◌, ◌==◌, ℤ, pos, ◌+ℤ◌, ◌-ℤ◌, ◌≡◌, refl, ◌∙◌, false, arith, int_laws,
}
use stellar_tip_contract.Host.{Host, Address, moved}
use stellar_tip_contract.Fuzz.Environment.{TestUtils}
use stellar_tip_contract.Fuzz.Laws.{TestLaws, itself}
use stellar_tip_contract.Fuzz.Amounts.{added, credited, given, taken, sent}

unmoved_twice : (x : ℤ) → x -ℤ pos 0 +ℤ pos 0 -ℤ pos 0 +ℤ pos 0 ≡ x
unmoved_twice x = omega int_laws

unmoved_once : (x : ℤ) → x -ℤ pos 0 +ℤ pos 0 ≡ x
unmoved_once x = omega int_laws

module _ {h : Host} (sdk : TestUtils h) (l l' : h.Ledger) where
  -- `from` had `rest`, the contract `kept` and the fee recipient `fees`; the tip of `n` has a fee of
  -- `f`.
  pub record TipMoved (from : Address) (n f rest kept fees : ℕ) : Type 0 where
    pub contract_holds : sdk.balance l' (sdk.address 4) (sdk.address 2) ≡ pos (kept + (n - f))
    pub recipient_holds : sdk.balance l' (sdk.address 4) (sdk.address 1) ≡ pos (fees + f)
    pub from_holds : sdk.balance l' (sdk.address 4) from ≡ pos (rest - n)
    pub others :
        (a : Address)
        → (a == from) ≡ false
        → (a == sdk.address 2) ≡ false
        → (a == sdk.address 1) ≡ false
        → sdk.balance l' (sdk.address 4) a ≡ sdk.balance l (sdk.address 4) a

  -- The contract had `kept` and `to` had `paid`; the withdrawal is of `w`.
  pub record WithdrawalMoved (to : Address) (w kept paid : ℕ) : Type 0 where
    pub contract_holds : sdk.balance l' (sdk.address 4) (sdk.address 2) ≡ pos (kept - w)
    pub to_holds : sdk.balance l' (sdk.address 4) to ≡ pos (paid + w)
    pub others :
        (a : Address)
        → (a == sdk.address 2) ≡ false
        → (a == to) ≡ false
        → sdk.balance l' (sdk.address 4) a ≡ sdk.balance l (sdk.address 4) a

  module _ (laws : TestLaws h sdk) where
    pub tip_moved :
        (from : Address) (n f rest kept fees : ℕ)
        → (sdk.address 2 == from) ≡ false
        → (sdk.address 1 == from) ≡ false
        → sdk.balance l (sdk.address 4) from ≡ pos rest
        → sdk.balance l (sdk.address 4) (sdk.address 2) ≡ pos kept
        → sdk.balance l (sdk.address 4) (sdk.address 1) ≡ pos fees
        → n ≤ rest
        → f ≤ n
        → ((a : Address)
            → sdk.balance l' (sdk.address 4) a
              ≡ moved
                  (moved (sdk.balance l (sdk.address 4) a) from (sdk.address 2) (pos n) a)
                  (sdk.address 2)
                  (sdk.address 1)
                  (pos f)
                  a)
        → TipMoved from n f rest kept fees
    tip_moved from n f rest kept fees p q from_has contract_has recipient_has covered below at =
        let p' : (from == sdk.address 2) ≡ false = ground (arith, p) in
        let q' : (from == sdk.address 1) ≡ false = ground (arith, q) in
        record {
          contract_holds =
              at (sdk.address 2)
              ∙ rw (itself (sdk.address 2), p, laws.distinct 2 1 refl, contract_has)
                  (credited kept n f below);
          recipient_holds =
              at (sdk.address 1)
              ∙ rw (itself (sdk.address 1), q, laws.distinct 1 2 refl, recipient_has)
                  (given fees f);
          from_holds = at from ∙ rw (itself from, p', q', from_has) (taken rest n covered);
          others = λ a u v x. at a ∙ rw (u, v, x) (unmoved_twice _);
        }

    pub withdrawal_moved :
        (to : Address) (w kept paid : ℕ)
        → (sdk.address 2 == to) ≡ false
        → sdk.balance l (sdk.address 4) (sdk.address 2) ≡ pos kept
        → sdk.balance l (sdk.address 4) to ≡ pos paid
        → w ≤ kept
        → ((a : Address)
            → sdk.balance l' (sdk.address 4) a
              ≡ moved (sdk.balance l (sdk.address 4) a) (sdk.address 2) to (pos w) a)
        → WithdrawalMoved to w kept paid
    withdrawal_moved to w kept paid p contract_has to_has covered at =
        let p' : (to == sdk.address 2) ≡ false = ground (arith, p) in
        record {
          contract_holds =
              at (sdk.address 2)
              ∙ rw (itself (sdk.address 2), p, contract_has) (sent kept w covered);
          to_holds = at to ∙ rw (itself to, p', to_has) (added paid w);
          others = λ a u v. at a ∙ rw (u, v) (unmoved_once _);
        }
