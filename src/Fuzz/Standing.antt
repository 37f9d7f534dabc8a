-- ===== src/Fuzz/Standing.antt =====
-- Where the accounts of the tests with one creator and one tipper stand between two calls.
use stellar_tip_contract.Base.{ℕ, pos, ◌≡◌, false}
use stellar_tip_contract.Host.{Host, MapLaws}
use stellar_tip_contract.Env.{Env}
use stellar_tip_contract.Fuzz.Environment.{TestUtils}
use stellar_tip_contract.Fuzz.Ready.{Ready}

module _ {h : Host} (maps : MapLaws h) (sdk : TestUtils h) where
  -- The tipper has `rest`, the contract `held`, all of it the creator's, the fee recipient `fees`, and
  -- the creator `paid`; the creator has had at most `count` tips.
  pub record Standing (fee_bps rest held fees paid count : ℕ) (e : Env h) : Type 0 where
    pub ready : Ready maps sdk 1 fee_bps false (λ _. held) count e
    pub contract_holds : sdk.balance e.ledger (sdk.address 4) (sdk.address 2) ≡ pos held
    pub recipient_holds : sdk.balance e.ledger (sdk.address 4) (sdk.address 1) ≡ pos fees
    pub creator_holds : sdk.balance e.ledger (sdk.address 4) (sdk.address 5) ≡ pos paid
    pub tipper_holds : sdk.balance e.ledger (sdk.address 4) (sdk.address 6) ≡ pos rest
