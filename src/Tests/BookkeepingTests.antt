-- ===== src/Tests/BookkeepingTests.antt =====
-- The theorem of `Bookkeeping.Refinement` at the scenario.
use stellar_tip_contract.Base.{pos, ◌≡◌, refl, [], ◌∷◌}
use stellar_tip_contract.Env.{Env, ok}
use stellar_tip_contract.System.Reach.{Reach, next, call}
use stellar_tip_contract.Bookkeeping.Journal.{replay, AllAllowed, journal, replays}
use stellar_tip_contract.Bookkeeping.Ordering.{tips_commute}
use stellar_tip_contract.Contract.{Call, execute}
use stellar_tip_contract.Bookkeeping.Book.{Allowed, book, post}
use stellar_tip_contract.Bookkeeping.Refinement.{refines}
use stellar_tip_contract.Tests.Model.{model, model_maps, model_tokens}
use stellar_tip_contract.Tests.Scenario.{
  run, joined, tipped, drained, Reach-joined, Reach-drained, execute-tip_returns,
}

refines_example :
    let c = Call.tip 4 3 7 (pos 400) [] in
    Allowed c (book joined) × (book tipped ≡ post c joined.timestamp (book joined))
refines_example =
    refines model_maps model_tokens (Call.tip 4 3 7 (pos 400) []) joined tipped Reach-joined
      execute-tip_returns

replays_example :
    (book drained ≡ replay (journal model_maps model_tokens Reach-drained))
    × AllAllowed (journal model_maps model_tokens Reach-drained)
replays_example = replays model_maps model_tokens Reach-drained

-- A second creator, 5.
abbrev both_joined : Env model
both_joined = run (Call.register 5 13 (75 ∷ []) []) joined

Reach-both_joined : Reach model_tokens both_joined
unfolding run
Reach-both_joined = next Reach-joined (call (Call.register 5 13 (75 ∷ []) []) _ refl)

abbrev first_tip : Call
first_tip = Call.tip 4 3 7 (pos 400) []

abbrev second_tip : Call
second_tip = Call.tip 4 5 7 (pos 200) []

first_returns : execute first_tip both_joined ≡ ok (tt, run first_tip both_joined)
unfolding run
first_returns = refl

then_second_returns :
    execute second_tip (run first_tip both_joined)
    ≡ ok (tt, run second_tip (run first_tip both_joined))
unfolding run
then_second_returns = refl

second_returns : execute second_tip both_joined ≡ ok (tt, run second_tip both_joined)
unfolding run
second_returns = refl

then_first_returns :
    execute first_tip (run second_tip both_joined)
    ≡ ok (tt, run first_tip (run second_tip both_joined))
unfolding run
then_first_returns = refl

tips_commute_example :
    book (run second_tip (run first_tip both_joined))
    ≡ book (run first_tip (run second_tip both_joined))
tips_commute_example =
    tips_commute model_maps model_tokens 4 4 3 5 7 7 (pos 400) (pos 200) [] [] both_joined
      (run first_tip both_joined) (run second_tip (run first_tip both_joined))
      (run second_tip both_joined) (run first_tip (run second_tip both_joined)) Reach-both_joined
      refl first_returns then_second_returns second_returns then_first_returns
