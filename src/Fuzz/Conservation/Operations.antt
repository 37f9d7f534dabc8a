-- ===== src/Fuzz/Conservation/Operations.antt =====
-- The loop over the drawn operations runs to its end.
use stellar_tip_contract.Base.{
  ℕ, ◌≤◌, ◌<◌, ◌+◌, ◌*◌, ◌/◌, ◌%◌, ◌==◌, pos, ◌*ℤ◌, ◌/ℤ◌, ltb_ℤ, ◌≡◌, refl, false, subst, List, [],
  ◌∷◌, length, get_elem?, Bool-cases, inl, inr, true, some, suc, if◌then◌else◌, arith,
}
use stellar_tip_contract.Host.{Host, MapLaws}
use stellar_tip_contract.Types.{max_fee_bps}
use stellar_tip_contract.Env.{fits_i128}
use stellar_tip_contract.Contract.{get_balance}
use stellar_tip_contract.Fuzz.Environment.{TestUtils, Sandbox, passed, generate, pure, view}
use stellar_tip_contract.Fuzz.Batches.{
  Operation, max_amount, unwrap, tip_to, withdraw_share, run_operation, run_operations,
}
use stellar_tip_contract.Fuzz.Laws.{
  on_then, on_else, at_end, ◌<|◌, TestLaws, on, on_call, on_mint, on_checked, at_call,
}
use stellar_tip_contract.Fuzz.Start.{fixture}
use stellar_tip_contract.Fuzz.Ready.{owner}
use stellar_tip_contract.Fuzz.Crowd.{le-total, Crowd}
use stellar_tip_contract.Fuzz.Crowd.Moves.{mint_returns, tip_lands, withdrawal_lands}
use stellar_tip_contract.Fuzz.Conservation.Owners.{owners, length-owners, get_elem?-owners}

-- What proptest draws for an amount; any numbers serve for the other two.
pub record IsDrawn (o : Operation) : Type 0 where
  pub size : ℕ
  pub amount_is : o.amount ≡ pos size
  pub positive : 1 ≤ size
  pub small : size < 100_000_000

abbrev pub AllDrawn : List Operation → Type 0
AllDrawn [] = Unit
AllDrawn (o ∷ ops) = IsDrawn o × AllDrawn ops

-- What the test withdraws of a balance.
abbrev share_of : ℕ → ℕ → ℕ
share_of held n = if ltb_ℤ (pos 0) (pos (held * n / 100_000_000)) then held * n / 100_000_000 else 1

share_bound : (held n : ℕ) → n < 100_000_000 → held * n / 100_000_000 ≤ held
share_bound held n p = grind arith

product_fits :
    (held n : ℕ) → held ≤ 1_000_000_000_000 → n < 100_000_000 → fits_i128 (pos held *ℤ pos n) ≡ true
unfolding fits_i128 ◌*ℤ◌
product_fits held n p q =
    let bound : held * n ≤ 1_000_000_000_000 * 100_000_000 = grind arith in ground (arith, bound)

share_is :
    (held n : ℕ) → max_amount (pos held *ℤ pos n /ℤ pos 100_000_000) (pos 1) ≡ pos (share_of held n)
unfolding ◌*ℤ◌ ◌/ℤ◌
share_is held n = ground arith

module _ {h : Host} (maps : MapLaws h) (sdk : TestUtils h) (laws : TestLaws h sdk)
    (k fee_bps : ℕ) where
  -- After `c` operations.
  pub record Going (c : ℕ) (w : Sandbox h) : Type 0 where
    pub held : ℕ → ℕ
    pub fees : ℕ
    pub count : ℕ
    pub minted : ℕ
    pub crowd : Crowd maps sdk k w.generated fee_bps false held fees count minted w.env
    pub few : count ≤ c
    pub supply : minted ≤ c * 100_000_000

  module _ (c : ℕ) (w : Sandbox h) (s : Going c w) (range : fee_bps ≤ max_fee_bps) (early : c ≤ 10)
      (i : ℕ) (among : i < k) (n : ℕ) (positive : 1 ≤ n) (small : n < 100_000_000) where
    tip_runs :
        (w' : Sandbox h) × (tip_to sdk (fixture sdk) (owner maps sdk i) (pos n) w ≡ passed (tt, w'))
        × Going (c + 1) w'
    unfolding tip_to generate pure
    tip_runs =
        let (l, minted, has, crowd) =
          mint_returns maps sdk laws k w.generated fee_bps false s.held s.fees s.count s.minted
            w.env s.crowd n (omega (arith, small)) in
        let (index, e, ran, crowd') =
          tip_lands maps sdk laws k (w.generated + 1) fee_bps s.held s.fees s.count s.minted
            (record w.env { ledger = l }) crowd i among (omega (arith, s.supply, early)) w.generated
            n [] range s.crowd.made (omega arith) has positive (omega (arith, small))
            (omega (arith, s.few, early)) in
        let w' : Sandbox h = record { env = e; generated = w.generated + 1 } in
        (
          w',
          (on {r = passed (tt, w')} _ _ refl
              <| on_mint sdk _ _ _ _ minted
              <| on_call _ _ ran (record { ends = refl })).ends,
          record {
            held = _;
            fees = _;
            count = _;
            minted = _;
            crowd = crowd';
            few = omega (arith, s.few);
            supply = omega (arith, s.supply, small);
          },
        )

    withdrawal_runs :
        (w' : Sandbox h) × (withdraw_share sdk (fixture sdk) (owner maps sdk i) (pos n) w
          ≡ passed (tt, w'))
        × Going (c + 1) w'
    unfolding withdraw_share view pure get_balance
    withdrawal_runs =
        let b = s.held i in
        let has = s.crowd.ready.balance i among in
        elim (Bool-cases (ltb_ℤ (pos 0) (pos b))) [
          | inr nothing ↦ (
            w,
            (on _ _ {a = pos b} {w' = w} (rw has refl) <| on_else _ _ _ nothing <| at_end _ w).ends,
            record {
              held = s.held;
              fees = s.fees;
              count = s.count;
              minted = s.minted;
              crowd = s.crowd;
              few = omega (arith, s.few);
              supply = omega (arith, s.supply);
            },
          )
          | inl something ↦
              let x = share_of b n in
              let less = share_bound b n small in
              let (e, ran, crowd) =
                withdrawal_lands maps sdk laws k w.generated fee_bps s.held s.fees s.count s.minted
                  w.env s.crowd i among (omega (arith, s.supply, early)) x (ground arith)
                  (ground (arith, something, less)) in
              let w' : Sandbox h = record w { env = e } in
              (
                w',
                (on {r = passed (tt, w')} _ _ {a = pos b} {w' = w} (rw has refl)
                    <| on_then _ _ _ something
                    <| on_checked _ _
                        (product_fits b n
                          (omega
                            (arith, le-total k s.held i among, s.crowd.backed, s.supply, early))
                          small)
                        (record { ends = rw (share_is b n) (at_call _ w ran) })).ends,
                record {
                  held = _;
                  fees = _;
                  count = _;
                  minted = _;
                  crowd = crowd;
                  few = omega (arith, s.few);
                  supply = omega (arith, s.supply);
                },
              )
        ]

  module _ (c : ℕ) (w : Sandbox h) (s : Going c w) (range : fee_bps ≤ max_fee_bps) (early : c ≤ 10)
      (some_creators : 1 ≤ k) where
    operation_runs :
        (o : Operation)
        → IsDrawn o
        → (w' : Sandbox h) × (run_operation sdk (fixture sdk) (owners maps sdk k 0) o w
            ≡ passed (tt, w'))
          × Going (c + 1) w'
    unfolding run_operation unwrap
    operation_runs o d =
        let i = o.creator_index % k in
        let among : i < k = omega (arith, some_creators) in
        let found : get_elem? (owners maps sdk k 0) (o.creator_index % length (owners maps sdk k 0))
            ≡ some (owner maps sdk i) =
          let start : 0 + i ≡ i = omega arith in
          rw (length-owners maps sdk k 0) (rw start at (get_elem?-owners maps sdk k 0 i among)) in
        elim (Bool-cases (o.is_withdrawal == 0)) [
          | inl a_tip ↦
              let (w', ran, s') = tip_runs c w s range early i among d.size d.positive d.small in
              (
                w',
                (on _ _ {a = owner maps sdk i} {w' = w} (rw found refl)
                    (record { ends = rw (a_tip, d.amount_is) ran })).ends,
                s',
              )
          | inr a_withdrawal ↦
              let (w', ran, s') =
                withdrawal_runs c w s range early i among d.size d.positive d.small in
              (
                w',
                (on _ _ {a = owner maps sdk i} {w' = w} (rw found refl)
                    (record { ends = rw (a_withdrawal, d.amount_is) ran })).ends,
                s',
              )
        ]

  pub operations_run :
      (ops : List Operation) (c : ℕ) (w : Sandbox h)
      → Going c w
      → fee_bps ≤ max_fee_bps
      → 1 ≤ k
      → c + length ops ≤ 10
      → AllDrawn ops
      → (w' : Sandbox h) × (run_operations sdk (fixture sdk) (owners maps sdk k 0) ops w
          ≡ passed (tt, w'))
        × Going (c + length ops) w'
  unfolding run_operations pure
  operations_run [] c w s range some_creators early d =
      let same : c ≡ c + 0 = omega arith in (w, refl, subst (λ n. Going n w) same s)
  operations_run (o ∷ ops) c w s range some_creators early d =
      let (w₁, ran, s₁) = operation_runs c w s range (omega (arith, early)) some_creators o d.0 in
      let (w₂, rest, s₂) =
        operations_run ops (c + 1) w₁ s₁ range some_creators (omega (arith, early)) d.1 in
      let same : c + 1 + length ops ≡ c + suc (length ops) = omega arith in
      (w₂, (on _ _ ran (record { ends = rest })).ends, subst (λ n. Going n w₂) same s₂)
