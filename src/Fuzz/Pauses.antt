-- ===== src/Fuzz/Pauses.antt =====
-- The property test that pauses the contract between random operations.
use stellar_tip_contract.Base.{
  ℕ, zero, suc, ◌+◌, ◌%◌, ◌==◌, leb, ℤ, pos, ◌+ℤ◌, ◌-ℤ◌, ltb_ℤ, not, ◌&&◌, [], ⊤, if◌then◌else◌,
}
use stellar_tip_contract.Host.{Host, Address}
use stellar_tip_contract.Contract.{register, tip, withdraw, pause, unpause, get_balance, is_paused}
use stellar_tip_contract.Fuzz.Random.{SimpleRng, new, next}
use stellar_tip_contract.Fuzz.Properties.{tip_fee}
use stellar_tip_contract.Fuzz.Batches.{
  c1_text, c2_text, fuzz_text, assert, attempt, checked_u64, as_u64, unreachable,
}
use stellar_tip_contract.Fuzz.Environment.{
  TestUtils, FuzzEnv, Test, pure, assert_eq, checked, call, view, generate, mint, balance, fuzz_env,
  ◌>>=◌, ◌>>◌,
}

-- The variables of the loop.
pub record Batch : Type 0 where
  pub rng : SimpleRng
  pub expected_balance1 : ℤ
  pub expected_balance2 : ℤ
  pub cumulative_fee : ℤ

-- What a tip changes of them, `expected_balance` being that of its creator.
pub record AfterTip : Type 0 where
  pub rng : SimpleRng
  pub expected_balance : ℤ
  pub cumulative_fee : ℤ

pub record AfterWithdrawal : Type 0 where
  pub rng : SimpleRng
  pub expected_balance : ℤ

module _ {h : Host} (sdk : TestUtils h) where
  -- The arms `2..=4` and `5..=7`.
  unfoldable pub tip_arm : FuzzEnv → ℕ → Address → AfterTip → Test h AfterTip
  tip_arm t fee_bps creator b = do
    paused ← view is_paused
    let drawn = next b.rng
    tip_amount ← checked (pos (drawn.0 % 10_000_000) +ℤ pos 1)
    tipper ← generate sdk
    mint sdk t.token_id tipper tip_amount
    result ← attempt (tip tipper creator t.token_id tip_amount fuzz_text)
    if result
        then (do
          assert (not paused)
          fee ← tip_fee sdk tip_amount fee_bps
          net ← checked (tip_amount -ℤ fee)
          expected ← checked (b.expected_balance +ℤ net)
          cumulative ← checked (b.cumulative_fee +ℤ fee)
          pure (record { rng = drawn.1; expected_balance = expected; cumulative_fee = cumulative }))
        else (do assert paused; pure (record b { rng = drawn.1 }))

  -- The arms `8` and `9`.
  unfoldable pub withdraw_arm : FuzzEnv → Address → AfterWithdrawal → Test h AfterWithdrawal
  withdraw_arm t creator b = do
    paused ← view is_paused
    if not paused && ltb_ℤ (pos 0) b.expected_balance
        then (do
          bound ← checked_u64 (as_u64 b.expected_balance + 1)
          let drawn = next b.rng
          let wd = pos (drawn.0 % bound)
          if ltb_ℤ (pos 0) wd
              then (do
                result ← attempt (withdraw creator t.token_id wd)
                if result
                    then (do
                      left ← checked (b.expected_balance -ℤ wd)
                      pure (record { rng = drawn.1; expected_balance = left }))
                    else pure (record b { rng = drawn.1 }))
              else pure (record b { rng = drawn.1 }))
        else pure b

  -- One round of the loop, once `op` is drawn.
  unfoldable pub run_arm : FuzzEnv → ℕ → Address → Address → ℕ → Batch → Test h Batch
  run_arm t fee_bps c1 c2 op b =
      if op == 0
      then (do call (pause t.admin); pure b)
      else (if op == 1
          then (do call (unpause t.admin); pure b)
          else (if leb 2 op && leb op 4
              then (do
                r ← tip_arm t fee_bps c1 (record {
                  rng = b.rng;
                  expected_balance = b.expected_balance1;
                  cumulative_fee = b.cumulative_fee;
                })
                pure (record b {
                  rng = r.rng;
                  expected_balance1 = r.expected_balance;
                  cumulative_fee = r.cumulative_fee;
                }))
              else (if leb 5 op && leb op 7
                  then (do
                    r ← tip_arm t fee_bps c2 (record {
                      rng = b.rng;
                      expected_balance = b.expected_balance2;
                      cumulative_fee = b.cumulative_fee;
                    })
                    pure (record b {
                      rng = r.rng;
                      expected_balance2 = r.expected_balance;
                      cumulative_fee = r.cumulative_fee;
                    }))
                  else (if op == 8
                      then (do
                        r ←
                            withdraw_arm t c1
                              (record { rng = b.rng; expected_balance = b.expected_balance1 })
                        pure (record b { rng = r.rng; expected_balance1 = r.expected_balance }))
                      else (if op == 9
                          then (do
                            r ←
                                withdraw_arm t c2
                                  (record { rng = b.rng; expected_balance = b.expected_balance2 })
                            pure (record b { rng = r.rng; expected_balance2 = r.expected_balance }))
                          else unreachable)))))

  unfoldable pub run_arms : FuzzEnv → ℕ → Address → Address → ℕ → Batch → Test h Batch
  run_arms t fee_bps c1 c2 zero b = pure b
  run_arms t fee_bps c1 c2 (suc rounds) b = do
    let drawn = next b.rng
    b' ← run_arm t fee_bps c1 c2 (drawn.0 % 10) (record b { rng = drawn.1 })
    run_arms t fee_bps c1 c2 rounds b'

  -- The assertions after the loop.
  unfoldable pub final_invariant : FuzzEnv → Address → Address → Batch → Test h ⊤
  final_invariant t c1 c2 b = do
    balance1 ← view (get_balance c1 t.token_id)
    assert_eq balance1 b.expected_balance1
    balance2 ← view (get_balance c2 t.token_id)
    assert_eq balance2 b.expected_balance2
    contract_balance ← balance sdk t.token_id t.contract_id
    sum ← checked (b.expected_balance1 +ℤ b.expected_balance2)
    assert_eq contract_balance sum
    fee_recipient_balance ← balance sdk t.token_id t.fee_recipient
    assert_eq fee_recipient_balance b.cumulative_fee

  unfoldable pub test_paused_mid_batch_no_state_corruption : ℕ → ℕ → ℕ → Test h ⊤
  test_paused_mid_batch_no_state_corruption seed num_ops fee_bps = do
    t ← fuzz_env sdk fee_bps
    c1 ← generate sdk
    c2 ← generate sdk
    call (register c1 (sdk.symbol "creator1") c1_text [])
    call (register c2 (sdk.symbol "creator2") c2_text [])
    b ← run_arms t fee_bps c1 c2 num_ops (record {
      rng = new seed;
      expected_balance1 = pos 0;
      expected_balance2 = pos 0;
      cumulative_fee = pos 0;
    })
    final_invariant t c1 c2 b
