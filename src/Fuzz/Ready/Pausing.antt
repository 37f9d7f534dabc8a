-- ===== src/Fuzz/Ready/Pausing.antt =====
-- The tests' calls of pause and unpause, and a tip while the contract is paused.
use stellar_tip_contract.Base.{ℕ, ◌≤◌, String, subst, pos, ◌≡◌, refl, Bool, true, false, some}
use stellar_tip_contract.Host.{Host, MapLaws, Address, Text}
use stellar_tip_contract.Types.{nothing, TipError, tip_error}
use stellar_tip_contract.Env.{Env, ok, panic}
use stellar_tip_contract.Env.Decides.{Decided, first_panic}
use stellar_tip_contract.Panics.Tipping.{tip-Decided}
use stellar_tip_contract.Fuzz.Amounts.{amount_fits}
use stellar_tip_contract.Contract.{Call, tip, pause, unpause, execute, get_admin, is_paused}
use stellar_tip_contract.Outcome.Admin.{Changed, pause_lem, unpause_lem}
use stellar_tip_contract.Panics.Listed.{tests}
use stellar_tip_contract.Panics.Admin.{admin-Decided}
use stellar_tip_contract.Fuzz.Environment.{TestUtils}
use stellar_tip_contract.Fuzz.Laws.{itself, returned_by}
use stellar_tip_contract.Fuzz.Ready.{Ready}

module _ {h : Host} (maps : MapLaws h) (sdk : TestUtils h) (k fee_bps : ℕ) (paused : Bool)
    (held : ℕ → ℕ) (count : ℕ) (e : Env h) (s : Ready maps sdk k fee_bps paused held count e) where
  flagged-Ready :
      (b : Bool) (topic : String) (e' : Env h)
      → Changed (sdk.address 0) (record e.inst { paused = some b }) topic nothing e e'
      → Ready maps sdk k fee_bps b held count e' × (e'.ledger ≡ e.ledger)
  flagged-Ready b topic e' o = (
    record {
      authorized = λ a. rw o.result (s.authorized a);
      contract_is = rw o.result s.contract_is;
      admin_is = rw o.result s.admin_is;
      flag = rw o.result refl;
      rate = rw o.result s.rate;
      recipient = rw o.result s.recipient;
      minimum = rw o.result s.minimum;
      uncapped = rw o.result s.uncapped;
      registered = λ j p. rw o.result (s.registered j p);
      counted = λ j p. rw o.result (s.counted j p);
      balance = λ j p. rw o.result (s.balance j p);
      config = rw o.result s.config;
      tracking = rw o.result s.tracking;
    },
    rw o.result refl,
  )

  pub pause_returns :
      (e' : Env h) × (pause (sdk.address 0) e ≡ ok (tt, e'))
      × Ready maps sdk k fee_bps true held count e'
      × (e'.ledger ≡ e.ledger)
  unfolding execute get_admin
  pause_returns =
      let (_, e', ran, o) =
        returned_by (pause (sdk.address 0)) (admin-Decided (Call.pause (sdk.address 0)) e refl)
          (rw (s.authorized (sdk.address 0), s.admin_is, itself (sdk.address 0)) refl)
          (pause_lem (sdk.address 0) e) in
      let (ready, same) = flagged-Ready true _ e' o in (e', ran, ready, same)

  pub unpause_returns :
      (e' : Env h) × (unpause (sdk.address 0) e ≡ ok (tt, e'))
      × Ready maps sdk k fee_bps false held count e'
      × (e'.ledger ≡ e.ledger)
  unfolding execute get_admin
  unpause_returns =
      let (_, e', ran, o) =
        returned_by (unpause (sdk.address 0)) (admin-Decided (Call.unpause (sdk.address 0)) e refl)
          (rw (s.authorized (sdk.address 0), s.admin_is, itself (sdk.address 0)) refl)
          (unpause_lem (sdk.address 0) e) in
      let (ready, same) = flagged-Ready false _ e' o in (e', ran, ready, same)

-- While the contract is paused a tip panics.
pub paused_tip_panics :
    {h : Host} (maps : MapLaws h) (sdk : TestUtils h) (k fee_bps : ℕ) (held : ℕ → ℕ) (count : ℕ)
    (e : Env h) (from creator token : Address) (n : ℕ) (message : Text)
    → Ready maps sdk k fee_bps true held count e
    → n ≤ 1_000_000_000_000
    → tip from creator token (pos n) message e ≡ panic (tip_error TipError.paused)
unfolding get_admin is_paused
paused_tip_panics maps sdk k fee_bps held count e from creator token n message s small =
    let stopped : first_panic (tests (Call.tip from creator token (pos n) message) e)
        ≡ some (tip_error TipError.paused) =
      rw (s.authorized from, s.admin_is, s.flag) refl in
    let d =
      subst (Decided (tip from creator token (pos n) message) e) stopped
        (tip-Decided maps from creator token (pos n) message e s.config (amount_fits n small)) in
    d.ends.ends
