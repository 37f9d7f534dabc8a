-- ===== src/Tests/OrchestratorTests.antt =====
-- The theorems of `Orchestrator` at the scenario: supporter 4 tips through an orchestrator.
use stellar_tip_contract.Base.{pos, ◌≡◌, refl, false, [], ◌∷◌}
use stellar_tip_contract.Types.{unauthorized, tip_data, event_tip_sent}
use stellar_tip_contract.Env.{Env, ok, panic}
use stellar_tip_contract.Contract.{tip, get_tip_count, get_fee_percentage}
use stellar_tip_contract.Outcome.Tipping.{fee_amount}
use stellar_tip_contract.System.Reach.{Reach}
use stellar_tip_contract.Orchestrator.{World, submit_tip, register_creator, tip_payload, ◌>>=◌}
use stellar_tip_contract.Orchestrator.Forwarding.{stellar_tip_client, needs_both, submit_tip_steps}
use stellar_tip_contract.Tests.Model.{model, model_tokens}
use stellar_tip_contract.Tests.Scenario.{run, everyone, joined, tipped, Reach-joined}

abbrev before : World (Env model)
before = record { authorized = everyone; called = joined; events = [] }

abbrev after : World (Env model)
after = record {
  authorized = everyone;
  called = tipped;
  events = (record { topic = "ORCH_TIP"; subject = 4; payload = tip_payload 3 0 (pos 400) }) ∷ [];
}

-- The supporter has not authorized the orchestrator.
abbrev unsigned : World (Env model)
unsigned = record before { authorized = λ a. false }

submitted : submit_tip stellar_tip_client 4 0 3 7 (pos 400) [] before ≡ ok (0, after)
unfolding submit_tip run ◌>>=◌
submitted = refl

needs_both_example :
    (submit_tip stellar_tip_client 4 0 3 7 (pos 400) [] unsigned ≡ panic unauthorized)
    × (register_creator stellar_tip_client 4 0 11 (74 ∷ []) [] unsigned ≡ panic unauthorized)
needs_both_example = needs_both 4 0 3 7 (pos 400) [] 11 (74 ∷ []) [] unsigned refl

submit_tip_steps_example :
    let fee = fee_amount (pos 400) (get_fee_percentage joined) in
    (tip 4 3 7 (pos 400) [] joined ≡ ok (0, tipped))
    × (0 ≡ get_tip_count 3 joined)
    × Reach model_tokens tipped
    × (after.events
        ≡ (record { topic = "ORCH_TIP"; subject = 4; payload = tip_payload 3 0 (pos 400) }) ∷ [])
    × (tipped.events
        ≡ (record { topic = event_tip_sent; subject = 4; payload = tip_data 3 7 (pos 400) fee 0 })
          ∷ joined.events)
submit_tip_steps_example =
    submit_tip_steps model_tokens 4 0 3 7 (pos 400) [] before after 0 Reach-joined submitted
