-- ===== src/Tests/GovernanceTests.antt =====
-- The theorems of `Access` and `Governance` at the scenario.
use stellar_tip_contract.Base.{
  ◌≤◌, pos, ◌≤ℤ◌, ◌≡◌, ◌≢◌, refl, not, ◌||◌, true, some, [], ◌∷◌, ◌⊎◌, is_some, if◌then◌else◌,
}
use stellar_tip_contract.Types.{TipError, tip_error, Payload, max_fee_bps}
use stellar_tip_contract.Env.{Env, ok, panic}
use stellar_tip_contract.Contract.{Call, execute, get_admin, is_paused}
use stellar_tip_contract.Access.{refused_panics}
use stellar_tip_contract.Governance.{
  settings, requested, admin_call_runs, settings_need_admin, settings_in_range,
}
use stellar_tip_contract.Publishing.{one_event}
use stellar_tip_contract.Tests.Model.{model, model_maps, model_tokens}
use stellar_tip_contract.Tests.Scenario.{
  run, joined, paused, tipped, Reach-tipped, pause_returns, execute-tip_returns,
}

refused_panics_example :
    execute (Call.tip 4 3 7 (pos 400) []) paused ≡ panic (tip_error TipError.paused)
unfolding run get_admin is_paused
refused_panics_example =
    refused_panics (Call.tip 4 3 7 (pos 400) []) paused TipError.paused refl refl

admin_call_runs_example :
    (e' : Env model) × (execute (Call.unpause 1) paused
      ≡ (if true then ok (tt, e') else panic (tip_error TipError.invalid_input)))
    × (settings e' ≡ requested (Call.unpause 1) (settings paused))
    × (e'.pers ≡ paused.pers)
    × (e'.ledger ≡ paused.ledger)
unfolding run get_admin
admin_call_runs_example = admin_call_runs (Call.unpause 1) paused refl refl refl

settings_need_admin_example :
    (settings paused ≡ settings joined)
    ⊎ ((get_admin joined ≡ some 1)
        × (joined.authorized 1 ≡ true)
        × (settings paused ≡ requested (Call.pause 1) (settings joined)))
unfolding run get_admin
settings_need_admin_example = settings_need_admin (Call.pause 1) joined paused refl pause_returns

one_event_example :
    (payload : Payload) × (tipped.events
      ≡ (record { topic = "TIP"; subject = 4; payload = payload }) ∷ joined.events)
one_event_example = one_event (Call.tip 4 3 7 (pos 400) []) joined tipped execute-tip_returns

settings_in_range_example :
    let s = settings tipped in
    (s.fee_percentage ≤ max_fee_bps)
    × (pos 0 ≤ℤ s.min_tip_amount)
    × (s.fee_recipient ≢ some tipped.current_contract_address)
    × ((not (is_some s.admin) || is_some s.fee_recipient) ≡ true)
settings_in_range_example = settings_in_range model_maps model_tokens tipped Reach-tipped
