-- ===== src/Fuzz/Ready/Withdrawals.antt =====
-- A withdrawal of the tests, on the contract's storage.
use stellar_tip_contract.Base.{
  ℕ, ◌≤◌, ◌<◌, ◌+◌, ◌-◌, ◌==◌, ==_iff, pos, ◌-ℤ◌, ◌≡◌, refl, ◌∙◌, ap, subst, update, false, some,
  none, unwrap_or, Bool-cases, inl, inr, arith,
}
use stellar_tip_contract.Host.{Host, MapLaws, Address, moved}
use stellar_tip_contract.Env.{Env, ok}
use stellar_tip_contract.Env.Decides.{first_panic}
use stellar_tip_contract.Contract.{Call, withdraw, get_admin, is_paused, get_balance, is_creator}
use stellar_tip_contract.Outcome.Withdrawal.{Withdrawn, withdraw_lem}
use stellar_tip_contract.System.Kind.{kind}
use stellar_tip_contract.System.Config.{Done-ConfigValid}
use stellar_tip_contract.System.Tokens.{Kind-TokensValid}
use stellar_tip_contract.System.Solvency.{stored_value, left_nonneg}
use stellar_tip_contract.Panics.Listed.{tests}
use stellar_tip_contract.Panics.Withdrawal.{withdraw-Decided}
use stellar_tip_contract.Fuzz.Environment.{TestUtils}
use stellar_tip_contract.Fuzz.Laws.{TestLaws, itself, returned_by}
use stellar_tip_contract.Fuzz.Shifts.{WithdrawalMoved, withdrawal_moved}
use stellar_tip_contract.Fuzz.Ready.{owner, Ready}
use stellar_tip_contract.Fuzz.Ready.Tips.{owner_apart}
use stellar_tip_contract.Fuzz.Amounts.{pos_add, pos_sub, small_fits}

module _ {h : Host} (maps : MapLaws h) (sdk : TestUtils h) (laws : TestLaws h sdk) (k fee_bps : ℕ)
    (held : ℕ → ℕ) (count : ℕ) (e : Env h) (s : Ready maps sdk k fee_bps false held count e) (i : ℕ)
    (among : i < k) (w : ℕ) (covered : w ≤ held i) where
  passes :
      (kept paid : ℕ)
      → sdk.balance e.ledger (sdk.address 4) (sdk.address 2) ≡ pos kept
      → sdk.balance e.ledger (sdk.address 4) (owner maps sdk i) ≡ pos paid
      → 1 ≤ w
      → w ≤ kept
      → paid + w ≤ 1_000_000_000_000_000
      → first_panic (tests (Call.withdraw (owner maps sdk i) (sdk.address 4) (pos w)) e) ≡ none
  unfolding get_admin is_paused get_balance is_creator
  passes kept paid contract_has creator_has positive enough room =
      let moves =
        laws.moves e.ledger (sdk.address 4) (sdk.address 2) (owner maps sdk i) w
          (laws.distinct 2 (5 + i) (ground arith)) (rw contract_has (ground (arith, enough)))
          (rw (creator_has, pos_add paid w) (small_fits (paid + w) room)) in
      rw
        (
          s.authorized (owner maps sdk i),
          s.admin_is,
          s.flag,
          s.registered i among,
          s.balance i among,
          s.contract_is,
          moves.1,
        )
        (ground (arith, positive, covered))

  Withdrawn-Ready :
      (e' : Env h)
      → Withdrawn (owner maps sdk i) (sdk.address 4) (pos w) e e'
      → Ready maps sdk k fee_bps false (update held i (held i - w)) count e'
  Withdrawn-Ready e' o =
      let token = sdk.address 4 in
      let c = Call.withdraw (owner maps sdk i) token (pos w) in
      let kept = stored_value _ (
        left_nonneg (unwrap_or (e.pers.balance (owner maps sdk i) token) (pos 0)) (pos w)
          o.covered) in
      record {
        authorized = λ a. rw o.result (s.authorized a);
        contract_is = rw o.result s.contract_is;
        admin_is = rw o.result s.admin_is;
        flag = rw o.result s.flag;
        rate = rw o.result s.rate;
        recipient = rw o.result s.recipient;
        minimum = rw o.result s.minimum;
        uncapped = rw o.result s.uncapped;
        registered = λ j p. rw o.result (s.registered j p);
        counted = λ j p. rw o.result (s.counted j p);
        balance = λ j p. elim (Bool-cases (j == i)) [
          | inl same ↦
              let here = (==_iff j i).0 same in
              rw (o.result, here, itself i, itself (owner maps sdk i), itself token)
                (kept ∙ ap (λ x. x -ℤ pos w) (s.balance i among) ∙ pos_sub (held i) w covered)
          | inr other ↦ rw (o.result, owner_apart maps sdk laws j i other, other) (s.balance j p)
        ];
        config = Done-ConfigValid c e e' o s.config;
        tracking = Kind-TokensValid maps e e' s.config.fee_range (kind c e e' o) s.tracking;
      }

  Withdrawn-balance :
      (e' : Env h)
      → Withdrawn (owner maps sdk i) (sdk.address 4) (pos w) e e'
      → (a : Address)
      → sdk.balance e'.ledger (sdk.address 4) a
        ≡ moved
            (sdk.balance e.ledger (sdk.address 4) a)
            (sdk.address 2)
            (owner maps sdk i)
            (pos w)
            a
  Withdrawn-balance e' o a =
      let token = sdk.address 4 in
      let payment =
        subst (λ b. h.transfer e.ledger token b (owner maps sdk i) (pos w) ≡ some o.paid_out)
          s.contract_is o.payment in
      rw o.result (
        laws.balance-transfer e.ledger o.paid_out token (sdk.address 2) (owner maps sdk i) (pos w)
          (laws.distinct 2 (5 + i) (ground arith)) payment token a
        ∙ rw (itself token) refl)

  -- The withdrawal returns, and has moved the tokens.
  pub withdraw_returns :
      (kept paid : ℕ)
      → sdk.balance e.ledger (sdk.address 4) (sdk.address 2) ≡ pos kept
      → sdk.balance e.ledger (sdk.address 4) (owner maps sdk i) ≡ pos paid
      → 1 ≤ w
      → w ≤ kept
      → paid + w ≤ 1_000_000_000_000_000
      → (e' : Env h) × (withdraw (owner maps sdk i) (sdk.address 4) (pos w) e ≡ ok (tt, e'))
        × Ready maps sdk k fee_bps false (update held i (held i - w)) count e'
        × WithdrawalMoved sdk e.ledger e'.ledger (owner maps sdk i) w kept paid
  withdraw_returns kept paid contract_has creator_has positive enough room =
      let (_, e', ran, o) =
        returned_by (withdraw (owner maps sdk i) (sdk.address 4) (pos w))
          (withdraw-Decided maps (owner maps sdk i) (sdk.address 4) (pos w) e s.tracking)
          (passes kept paid contract_has creator_has positive enough room)
          (withdraw_lem (owner maps sdk i) (sdk.address 4) (pos w) e) in
      (
        e',
        ran,
        Withdrawn-Ready e' o,
        withdrawal_moved sdk e.ledger e'.ledger laws (owner maps sdk i) w kept paid
            (laws.distinct 2 (5 + i) (ground arith)) contract_has creator_has enough
            (Withdrawn-balance e' o),
      )
