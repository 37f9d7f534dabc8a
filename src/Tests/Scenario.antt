-- ===== src/Tests/Scenario.antt =====
-- The contract at address 0 with admin 1 and fee recipient 2; creator 3 and supporter 4 use token 7.
use stellar_tip_contract.Base.{
  pos, ◌+ℤ◌, ◌-ℤ◌, ◌*ℤ◌, ◌/ℤ◌, ◌==◌, ◌≡◌, refl, not, Bool, [], ◌∷◌, if◌then◌else◌, ◌&&◌, arith,
}
use stellar_tip_contract.Host.{Address}
use stellar_tip_contract.Env.{
  Env, ok, ◌>>=◌, fits_u32, fits_u64, fits_i128, check_initialized_and_not_paused, validate_input,
}
use stellar_tip_contract.Contract.{
  Call, execute, invoke, init, register, tip, withdraw, settle, fee_of, forward_fee, credit_balance,
  track_token, record_tip, store_remaining, untrack_token, unregister, drop_tokens, check_balances,
  get_balance, update_profile, pause,
}
use stellar_tip_contract.System.Reach.{Reach, start, next, call, deployed}
use stellar_tip_contract.Tests.Model.{Ledger, model, model_tokens}

abbrev pub everyone : Address → Bool
everyone a = not (a == 0)

abbrev pub coins : Ledger
coins t a = if t == 7 && a == 4 then pos 1000 else pos 0

abbrev pub blank : Env model
blank = deployed everyone 0 50 coins

-- A definition whose `unfolding` line opens every function that a run goes through.
unfoldable pub run : Call → Env model → Env model
unfolding invoke execute init register update_profile pause tip withdraw settle fee_of forward_fee
    credit_balance track_token record_tip store_remaining untrack_token unregister drop_tokens
    check_balances check_initialized_and_not_paused validate_input fits_u32 fits_u64 fits_i128 ◌>>=◌
    ◌+ℤ◌ ◌-ℤ◌ ◌*ℤ◌ ◌/ℤ◌
run = invoke

abbrev pub opened : Env model
opened = run (Call.init 1 2 250 10 10 (pos 1)) blank

abbrev pub joined : Env model
joined = run (Call.register 3 11 (74 ∷ []) []) opened

abbrev pub renamed : Env model
renamed = run (Call.update_profile 3 (75 ∷ []) (76 ∷ [])) joined

abbrev pub paused : Env model
paused = run (Call.pause 1) joined

abbrev pub rejoined : Env model
rejoined = run (Call.unregister 3) joined

abbrev pub tipped : Env model
tipped = run (Call.tip 4 3 7 (pos 400) []) joined

abbrev pub drained : Env model
drained = run (Call.withdraw 3 7 (pos 390)) tipped

abbrev pub left : Env model
left = run (Call.unregister 3) drained

abbrev pub back : Env model
back = run (Call.register 3 12 (74 ∷ []) []) left

tipped_balance : get_balance 3 7 tipped ≡ pos 390
unfolding run get_balance
tipped_balance = refl

pub Reach-opened : Reach model_tokens opened
unfolding run
Reach-opened =
    next (start everyone 0 50 coins refl (λ t. ground arith))
      (call (Call.init 1 2 250 10 10 (pos 1)) _ refl)

pub Reach-joined : Reach model_tokens joined
unfolding run
Reach-joined = next Reach-opened (call (Call.register 3 11 (74 ∷ []) []) _ refl)

pub Reach-tipped : Reach model_tokens tipped
unfolding run
Reach-tipped = next Reach-joined (call (Call.tip 4 3 7 (pos 400) []) _ refl)

pub Reach-drained : Reach model_tokens drained
unfolding run
Reach-drained = next Reach-tipped (call (Call.withdraw 3 7 (pos 390)) _ refl)

pub Reach-left : Reach model_tokens left
unfolding run
Reach-left = next Reach-drained (call (Call.unregister 3) _ refl)

pub register_returns : register 3 11 (74 ∷ []) [] opened ≡ ok (tt, joined)
unfolding run
register_returns = refl

pub tip_returns : tip 4 3 7 (pos 400) [] joined ≡ ok (0, tipped)
unfolding run
tip_returns = refl

pub withdraw_returns : withdraw 3 7 (pos 390) tipped ≡ ok (tt, drained)
unfolding run
withdraw_returns = refl

pub unregister_returns : unregister 3 drained ≡ ok (tt, left)
unfolding run
unregister_returns = refl

pub update_profile_returns : update_profile 3 (75 ∷ []) (76 ∷ []) joined ≡ ok (tt, renamed)
unfolding run
update_profile_returns = refl

pub rejoined_returns : unregister 3 joined ≡ ok (tt, rejoined)
unfolding run
rejoined_returns = refl

pub pause_returns : execute (Call.pause 1) joined ≡ ok (tt, paused)
unfolding run
pause_returns = refl

pub execute-tip_returns : execute (Call.tip 4 3 7 (pos 400) []) joined ≡ ok (tt, tipped)
unfolding run
execute-tip_returns = refl

pub execute-withdraw_returns : execute (Call.withdraw 3 7 (pos 390)) tipped ≡ ok (tt, drained)
unfolding run
execute-withdraw_returns = refl

pub back_returns : register 3 12 (74 ∷ []) [] left ≡ ok (tt, back)
unfolding run
back_returns = refl
