-- ===== src/Fuzz/Interruption/Flags.antt =====
-- The arms of the loop that pause and unpause the contract.
use stellar_tip_contract.Base.{ℕ, ◌+◌, ◌≡◌, Bool, true, false, arith}
use stellar_tip_contract.Host.{Host, MapLaws}
use stellar_tip_contract.Env.{Env, ok}
use stellar_tip_contract.Contract.{pause, unpause}
use stellar_tip_contract.Fuzz.Environment.{TestUtils, Sandbox}
use stellar_tip_contract.Fuzz.Laws.{TestLaws}
use stellar_tip_contract.Fuzz.Ready.{Ready}
use stellar_tip_contract.Fuzz.Ready.Pausing.{pause_returns, unpause_returns}
use stellar_tip_contract.Fuzz.Interruption.Arms.{Running}

module _ {h : Host} (maps : MapLaws h) (sdk : TestUtils h) (laws : TestLaws h sdk) (k fee_bps c : ℕ)
    (held : ℕ → ℕ) (fees : ℕ) (w : Sandbox h)
    (s : Running maps sdk laws k fee_bps c held fees w) where
  reflagged :
      (b : Bool) (e : Env h)
      → Ready maps sdk k fee_bps b held s.count e
      → e.ledger ≡ w.env.ledger
      → Running maps sdk laws k fee_bps (c + 1) held fees (record w { env = e })
  reflagged b e ready same = record {
    paused = b;
    count = s.count;
    minted = s.minted;
    crowd = record {
      ready = ready;
      contract_holds = rw same s.crowd.contract_holds;
      recipient_holds = rw same s.crowd.recipient_holds;
      owners_hold = λ i p. rw same (s.crowd.owners_hold i p);
      backed = s.crowd.backed;
      fresh = λ j p. rw same (s.crowd.fresh j p);
      made = s.crowd.made;
    };
    few = omega (arith, s.few);
    supply = omega (arith, s.supply);
  }

  pub pause_runs :
      (e : Env h) × (pause (sdk.address 0) w.env ≡ ok (tt, e))
      × Running maps sdk laws k fee_bps (c + 1) held fees (record w { env = e })
  pause_runs =
      let (e, ran, ready, same) =
        pause_returns maps sdk k fee_bps s.paused held s.count w.env s.crowd.ready in
      (e, ran, reflagged true e ready same)

  pub unpause_runs :
      (e : Env h) × (unpause (sdk.address 0) w.env ≡ ok (tt, e))
      × Running maps sdk laws k fee_bps (c + 1) held fees (record w { env = e })
  unpause_runs =
      let (e, ran, ready, same) =
        unpause_returns maps sdk k fee_bps s.paused held s.count w.env s.crowd.ready in
      (e, ran, reflagged false e ready same)
