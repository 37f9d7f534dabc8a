-- ===== src/Fuzz/Interruption/Arms.antt =====
-- The arms of the loop: a tip, that goes through exactly when the contract is not paused, and a
-- withdrawal.
use stellar_tip_contract.Base.{
  ℕ, ◌≤◌, ◌<◌, ◌+◌, ◌-◌, ◌*◌, ◌%◌, pos, ◌+ℤ◌, ◌≡◌, refl, ◌∙◌, ap, Bool, true, false, update, arith,
}
use stellar_tip_contract.Host.{Host, MapLaws}
use stellar_tip_contract.Types.{Panic, max_fee_bps}
use stellar_tip_contract.Env.{Env, Action, ok, panic}
use stellar_tip_contract.Contract.{is_paused}
use stellar_tip_contract.Fees.{div_bound}
use stellar_tip_contract.Fuzz.Environment.{TestUtils, Sandbox, passed, generate, pure, view}
use stellar_tip_contract.Fuzz.Random.{SimpleRng, next}
use stellar_tip_contract.Fuzz.Batches.{fuzz_text, attempt, assert}
use stellar_tip_contract.Fuzz.Pauses.{tip_arm}
use stellar_tip_contract.Fuzz.Laws.{◌<|◌, TestLaws, on, on_mint}
use stellar_tip_contract.Fuzz.Amounts.{fee_due, quotient_is, pos_add, pos_sub}
use stellar_tip_contract.Fuzz.Charges.{fee_goes, checked_pos}
use stellar_tip_contract.Fuzz.Start.{fixture}
use stellar_tip_contract.Fuzz.Ready.{owner}
use stellar_tip_contract.Fuzz.Ready.Pausing.{paused_tip_panics}
use stellar_tip_contract.Fuzz.Crowd.{le-total, Crowd}
use stellar_tip_contract.Fuzz.Crowd.Moves.{mint_returns, tip_lands}

pub attempt_returns :
    {h : Host} {A : Type 0} (m : Action h A) (w : Sandbox h) {a : A} {e : Env h}
    → m w.env ≡ ok (a, e)
    → attempt m w ≡ passed (true, record w { env = e })
unfolding attempt
attempt_returns m w p = rw (p, attempt) refl

attempt_panics :
    {h : Host} {A : Type 0} (m : Action h A) (w : Sandbox h) {p : Panic}
    → m w.env ≡ panic p
    → attempt m w ≡ passed (false, w)
unfolding attempt
attempt_panics m w q = rw (q, attempt) refl

module _ {h : Host} (maps : MapLaws h) (sdk : TestUtils h) (laws : TestLaws h sdk)
    (k fee_bps : ℕ) where
  -- After `c` operations; `held` and `fees` are what the test expects.
  pub record Running (c : ℕ) (held : ℕ → ℕ) (fees : ℕ) (w : Sandbox h) : Type 0 where
    pub paused : Bool
    pub count : ℕ
    pub minted : ℕ
    pub crowd : Crowd maps sdk k w.generated fee_bps paused held fees count minted w.env
    pub few : count ≤ c
    pub supply : minted ≤ c * 10_000_000

  module _ (c : ℕ) (held : ℕ → ℕ) (fees : ℕ) (w : Sandbox h) (i : ℕ) (among : i < k)
      (range : fee_bps ≤ max_fee_bps) (early : c ≤ 100) (rng : SimpleRng) where
    -- What the draw tips.
    abbrev pub size : ℕ
    size = (next rng).0 % 10_000_000 + 1

    pub open_tip :
        (count minted : ℕ)
        → Crowd maps sdk k w.generated fee_bps false held fees count minted w.env
        → count ≤ c
        → minted ≤ c * 10_000_000
        → (w' : Sandbox h) × (tip_arm sdk
              (fixture sdk)
              fee_bps
              (owner maps sdk i)
              (record { rng = rng; expected_balance = pos (held i); cumulative_fee = pos fees })
              w
            ≡ passed (
              record {
                rng = (next rng).1;
                expected_balance = pos (held i + (size - fee_due size fee_bps));
                cumulative_fee = pos (fees + fee_due size fee_bps);
              },
              w',
            ))
          × Running
              (c + 1)
              (update held i (held i + (size - fee_due size fee_bps)))
              (fees + fee_due size fee_bps)
              w'
    unfolding tip_arm generate pure view is_paused assert
    open_tip count minted s few supply =
        let n = size in
        let f = fee_due n fee_bps in
        let below = div_bound n fee_bps range in
        let small : n ≤ 1_000_000_000_000 = omega arith in
        let part = le-total k held i among in
        let backed = s.backed in
        let amount : pos ((next rng).0 % 10_000_000) +ℤ pos 1 ≡ pos n = pos_add _ 1 in
        let (l, given, has, s₁) =
          mint_returns maps sdk laws k w.generated fee_bps false held fees count minted w.env s n
            small in
        let (index, e, ran, s₂) =
          tip_lands maps sdk laws k (w.generated + 1) fee_bps held fees count minted
            (record w.env { ledger = l }) s₁ i among (omega (arith, supply, early)) w.generated n
            fuzz_text range s.made (omega arith) has (omega arith) small
            (omega (arith, few, early)) in
        let w' : Sandbox h = record { env = e; generated = w.generated + 1 } in
        let charged =
          fee_goes sdk n fee_bps w' small range
          ∙ ap (λ x. passed (x, w')) (quotient_is n fee_bps) in
        (
          w',
          (on _ _ {a = false} {w' = w} (ap (λ p. passed (p, w)) s.ready.flag)
              <| on _ _ (checked_pos _ n w amount (omega arith))
              <| on _ _ refl
              <| on_mint sdk _ _ _ _ given
              <| on _ _ (attempt_returns _ _ ran)
              <| on _ _ refl
              <| on _ _ charged
              <| on _ _ (checked_pos _ (n - f) w' (pos_sub n f below) (omega arith))
              <| on _ _ (
                  checked_pos _ (held i + (n - f)) w' (pos_add (held i) (n - f))
                    (omega (arith, part, backed, supply, early)))
              <| on _ _
                  (checked_pos _ (fees + f) w' (pos_add fees f)
                    (omega (arith, below, backed, supply, early)))
                  (record { ends = refl })).ends,
          record {
            paused = false;
            count = count + 1;
            minted = minted + n;
            crowd = s₂;
            few = omega (arith, few);
            supply = omega (arith, supply);
          },
        )

    pub paused_tip :
        (count minted : ℕ)
        → Crowd maps sdk k w.generated fee_bps true held fees count minted w.env
        → count ≤ c
        → minted ≤ c * 10_000_000
        → (w' : Sandbox h) × (tip_arm sdk
              (fixture sdk)
              fee_bps
              (owner maps sdk i)
              (record { rng = rng; expected_balance = pos (held i); cumulative_fee = pos fees })
              w
            ≡ passed (
              record {
                rng = (next rng).1;
                expected_balance = pos (held i);
                cumulative_fee = pos fees;
              },
              w',
            ))
          × Running (c + 1) held fees w'
    unfolding tip_arm generate pure view is_paused assert
    paused_tip count minted s few supply =
        let n = size in
        let small : n ≤ 1_000_000_000_000 = omega arith in
        let amount : pos ((next rng).0 % 10_000_000) +ℤ pos 1 ≡ pos n = pos_add _ 1 in
        let (l, given, has, s₁) =
          mint_returns maps sdk laws k w.generated fee_bps true held fees count minted w.env s n
            small in
        let e : Env h = record w.env { ledger = l } in
        let w' : Sandbox h = record { env = e; generated = w.generated + 1 } in
        let stopped =
          paused_tip_panics maps sdk k fee_bps held count e (sdk.address w.generated)
            (owner maps sdk i) (sdk.address 4) n fuzz_text s₁.ready small in
        (
          w',
          (on _ _ {a = true} {w' = w} (ap (λ p. passed (p, w)) s.ready.flag)
              <| on _ _ (checked_pos _ n w amount (omega arith))
              <| on _ _ refl
              <| on_mint sdk _ _ _ _ given
              <| on _ _ (attempt_panics _ _ stopped)
              <| on _ _ refl (record { ends = refl })).ends,
          record {
            paused = true;
            count = count;
            minted = minted;
            crowd = s₁;
            few = omega (arith, few);
            supply = omega (arith, supply);
          },
        )
