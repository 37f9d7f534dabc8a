-- ===== src/Fuzz/Crowd/Moves.antt =====
-- How a mint, a tip and a withdrawal move the accounts.
use stellar_tip_contract.Base.{
  ℕ, ◌≤◌, ◌<◌, ◌+◌, ◌-◌, ◌==◌, ==_iff, ℤ, pos, ◌+ℤ◌, ◌≡◌, refl, ◌∙◌, ap, update, Bool, false, some,
  Bool-cases, inl, inr, arith, int_laws,
}
use stellar_tip_contract.Host.{Host, MapLaws, Text}
use stellar_tip_contract.Types.{max_fee_bps}
use stellar_tip_contract.Env.{Env, ok}
use stellar_tip_contract.Contract.{tip, withdraw}
use stellar_tip_contract.Fees.{div_bound}
use stellar_tip_contract.Fuzz.Environment.{TestUtils}
use stellar_tip_contract.Fuzz.Laws.{TestLaws, itself}
use stellar_tip_contract.Fuzz.Amounts.{fee_due, pos_add, small_fits}
use stellar_tip_contract.Fuzz.Ready.{owner, Ready-ledger}
use stellar_tip_contract.Fuzz.Ready.Tips.{tip_returns}
use stellar_tip_contract.Fuzz.Ready.Withdrawals.{withdraw_returns}
use stellar_tip_contract.Fuzz.Crowd.{total, total-update, le-total, Crowd}

unmoved : (x : ℤ) → x +ℤ pos 0 ≡ x
unmoved x = omega int_laws

module _ {h : Host} (maps : MapLaws h) (sdk : TestUtils h) (laws : TestLaws h sdk) (k g fee_bps : ℕ)
    (paused : Bool) (held : ℕ → ℕ) (fees count minted : ℕ) (e : Env h)
    (s : Crowd maps sdk k g fee_bps paused held fees count minted e) where
  -- A new tipper gets its tokens.
  pub mint_returns :
      (n : ℕ)
      → n ≤ 1_000_000_000_000
      → (l : h.Ledger) × (sdk.mint e.ledger (sdk.address 4) (sdk.address g) (pos n) ≡ some l)
        × (sdk.balance l (sdk.address 4) (sdk.address g) ≡ pos n)
        × Crowd maps sdk k (g + 1) fee_bps paused held fees count minted (record e { ledger = l })
  mint_returns n small =
      let token = sdk.address 4 in
      let made = s.made in
      let (l, done, at) =
        laws.mints e.ledger token (sdk.address g) n
          (rw (s.fresh g (omega arith), pos_add 0 n) (small_fits (0 + n) (omega (arith, small)))) in
      let other : (j : ℕ)
          → (j == g) ≡ false
          → sdk.balance l token (sdk.address j) ≡ sdk.balance e.ledger token (sdk.address j) =
        λ j apart.
          at token (sdk.address j) ∙ rw (itself token, laws.distinct j g apart) (unmoved _) in
      (
        l,
        done,
        at token (sdk.address g)
            ∙ rw (itself token, itself (sdk.address g), s.fresh g (omega arith))
                (pos_add 0 n ∙ ap pos (omega arith)),
        record {
          ready = Ready-ledger maps sdk k fee_bps paused held count e l s.ready;
          contract_holds = other 2 (ground (arith, made)) ∙ s.contract_holds;
          recipient_holds = other 1 (ground (arith, made)) ∙ s.recipient_holds;
          owners_hold = λ i p.
              let (paid, has, bound) = s.owners_hold i p in
              (paid, other (5 + i) (ground (arith, made, p)) ∙ has, bound);
          backed = s.backed;
          fresh = λ j p. other j (ground (arith, p)) ∙ s.fresh j (omega (arith, p));
          made = omega (arith, made);
        },
      )

module _ {h : Host} (maps : MapLaws h) (sdk : TestUtils h) (laws : TestLaws h sdk) (k g fee_bps : ℕ)
    (held : ℕ → ℕ) (fees count minted : ℕ) (e : Env h)
    (s : Crowd maps sdk k g fee_bps false held fees count minted e) (i : ℕ) (among : i < k)
    (bounded : minted ≤ 1_000_000_000_000) where
  -- A tip of all that a tipper has.
  pub tip_lands :
      (j n : ℕ) (message : Text)
      → fee_bps ≤ max_fee_bps
      → 5 + k ≤ j
      → j < g
      → sdk.balance e.ledger (sdk.address 4) (sdk.address j) ≡ pos n
      → 1 ≤ n
      → n ≤ 1_000_000_000_000
      → count ≤ 1000
      → (index : ℕ) × (e' : Env h) × (tip
            (sdk.address j)
            (owner maps sdk i)
            (sdk.address 4)
            (pos n)
            message
            e
          ≡ ok (index, e'))
        × Crowd maps sdk k g fee_bps false
            (update held i (held i + (n - fee_due n fee_bps)))
            (fees + fee_due n fee_bps)
            (count + 1)
            (minted + n)
            e'
  tip_lands j n message range later made has positive small few =
      let f = fee_due n fee_bps in
      let below = div_bound n fee_bps range in
      let backed = s.backed in
      let part = le-total k held i among in
      let sum = total-update k held i (held i + (n - f)) among in
      let (index, e', ran, ready, o) =
        tip_returns maps sdk laws k fee_bps held count e s.ready i among (sdk.address j) n message
          range n (total k held) fees (laws.distinct j 2 (ground (arith, later)))
          (laws.distinct 2 j (ground (arith, later))) (laws.distinct 1 j (ground (arith, later)))
          has s.contract_holds s.recipient_holds (omega arith) positive small
          (omega (arith, part, backed, bounded, small)) (omega (arith, backed, bounded, small))
          (omega (arith, backed, bounded, small)) few in
      (
        index,
        e',
        ran,
        record {
          ready = ready;
          contract_holds = o.contract_holds ∙ ap pos (omega (arith, sum));
          recipient_holds = o.recipient_holds;
          owners_hold = λ m p.
              let (paid, holds, bound) = s.owners_hold m p in
              (
                paid,
                o.others (owner maps sdk m) (laws.distinct (5 + m) j (ground (arith, later, p)))
                      (laws.distinct (5 + m) 2 (ground arith))
                      (laws.distinct (5 + m) 1 (ground arith))
                    ∙ holds,
                omega (arith, bound, sum, below),
              );
          backed = omega (arith, sum, below, backed);
          fresh = λ m p.
              o.others (sdk.address m) (laws.distinct m j (ground (arith, made, p)))
                (laws.distinct m 2 (ground (arith, s.made, p)))
                (laws.distinct m 1 (ground (arith, s.made, p)))
              ∙ s.fresh m p;
          made = s.made;
        },
      )

  -- A withdrawal of a part of what a creator has.
  pub withdrawal_lands :
      (w : ℕ)
      → 1 ≤ w
      → w ≤ held i
      → (e' : Env h) × (withdraw (owner maps sdk i) (sdk.address 4) (pos w) e ≡ ok (tt, e'))
        × Crowd maps sdk k g fee_bps false (update held i (held i - w)) fees count minted e'
  withdrawal_lands w positive covered =
      let part = le-total k held i among in
      let sum = total-update k held i (held i - w) among in
      let (paid, has, enough) = s.owners_hold i among in
      let (e', ran, ready, o) =
        withdraw_returns maps sdk laws k fee_bps held count e s.ready i among w covered
          (total k held) paid s.contract_holds has positive (omega (arith, part, covered))
          (omega (arith, enough, part, covered, bounded)) in
      (
        e',
        ran,
        record {
          ready = ready;
          contract_holds = o.contract_holds ∙ ap pos (omega (arith, sum, part, covered));
          recipient_holds =
              o.others (sdk.address 1) (laws.distinct 1 2 refl)
                (laws.distinct 1 (5 + i) (ground arith))
              ∙ s.recipient_holds;
          owners_hold = λ m p. elim (Bool-cases (m == i)) [
            | inl same ↦
                let here = (==_iff m i).0 same in
                (paid + w, rw here o.to_holds, omega (arith, enough, sum, covered))
            | inr apart ↦
                let (paid, holds, bound) = s.owners_hold m p in
                (
                  paid,
                  o.others (owner maps sdk m) (laws.distinct (5 + m) 2 (ground arith))
                        (laws.distinct (5 + m) (5 + i) (ground (arith, apart)))
                      ∙ holds,
                  omega (arith, bound, sum, covered),
                )
          ];
          backed = omega (arith, sum, covered, s.backed);
          fresh = λ m p.
              o.others (sdk.address m) (laws.distinct m 2 (ground (arith, s.made, p)))
                (laws.distinct m (5 + i) (ground (arith, s.made, p, among)))
              ∙ s.fresh m p;
          made = s.made;
        },
      )
