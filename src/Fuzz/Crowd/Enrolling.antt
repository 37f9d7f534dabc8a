-- ===== src/Fuzz/Crowd/Enrolling.antt =====
-- Creators register one after the other, in the order in which their addresses are made.
use stellar_tip_contract.Base.{
  ℕ, ◌≤◌, ◌+◌, ◌==◌, ==_iff, pos, ◌≡◌, refl, ◌∙◌, ap, sym, List, [], ◌∷◌, mem, true, false, is_some,
  unwrap_or, of_some, Bool-cases, inl, inr, arith,
}
use stellar_tip_contract.Host.{Host, MapLaws, Symbol, Text}
use stellar_tip_contract.Types.{max_fee_bps}
use stellar_tip_contract.Env.{Env, ok, fits_u32}
use stellar_tip_contract.Contract.{
  Call, register, get_admin, is_paused, get_max_creators, get_creator_count, is_creator,
  is_username_taken,
}
use stellar_tip_contract.Outcome.Registration.{Registered, register_lem}
use stellar_tip_contract.System.Kind.{kind}
use stellar_tip_contract.System.Config.{Done-ConfigValid}
use stellar_tip_contract.System.Tokens.{Kind-TokensValid, zero_fits}
use stellar_tip_contract.Panics.Listed.{too_long}
use stellar_tip_contract.Panics.Registration.{register-Decided}
use stellar_tip_contract.Fuzz.Environment.{TestUtils}
use stellar_tip_contract.Fuzz.Laws.{TestLaws, itself, returned_by}
use stellar_tip_contract.Fuzz.Start.{initialized}
use stellar_tip_contract.Fuzz.Ready.{owner, Ready}
use stellar_tip_contract.Fuzz.Crowd.{total-zero, Crowd}
use stellar_tip_contract.Fuzz.Ready.Tips.{owner_apart}

count_fits : (n : ℕ) → n ≤ 100 → fits_u32 (n + 1) ≡ true
unfolding fits_u32
count_fits n p = ground arith

module _ {h : Host} (maps : MapLaws h) (sdk : TestUtils h) where
  -- The first `k` owners are registered under the names, and no other; nobody has had a tip.
  pub record Enrolled (fee_bps k : ℕ) (names : List Symbol) (e : Env h) : Type 0 where
    pub ready : Ready maps sdk k fee_bps false (λ _. 0) 0 e
    pub unlimited : unwrap_or e.inst.max_creators 0 ≡ 0
    pub creators : unwrap_or e.inst.creator_count 0 ≡ k
    pub absent : (j : ℕ) → k ≤ j → is_some (e.inst.profile (owner maps sdk j)) ≡ false
    pub untaken :
        (u : Symbol) → mem u names ≡ false → is_some (e.inst.username_to_address u) ≡ false
    pub unpaid :
        (j : ℕ) → unwrap_or (e.pers.balance (owner maps sdk j) (sdk.address 4)) (pos 0) ≡ pos 0

module _ {h : Host} (maps : MapLaws h) (sdk : TestUtils h) (laws : TestLaws h sdk) where
  pub initialized-Enrolled :
      (fee_bps : ℕ) (l : h.Ledger)
      → fee_bps ≤ max_fee_bps
      → Enrolled maps sdk fee_bps 0 [] (initialized sdk fee_bps l)
  initialized-Enrolled fee_bps l range = record {
    ready = record {
      authorized = λ a. refl;
      contract_is = refl;
      admin_is = refl;
      flag = refl;
      rate = refl;
      recipient = refl;
      minimum = refl;
      uncapped = refl;
      registered = λ i p. absurd (omega arith);
      counted = λ i p. absurd (omega arith);
      balance = λ i p. refl;
      config = record {
        fee_range = range;
        minimum_range = omega arith;
        not_self = λ r q. rw (← of_some q) (laws.distinct 1 2 refl);
        complete = λ _. refl;
      };
      tracking = record {
        in_range = λ c t. zero_fits;
        nonneg = λ c t. omega arith;
        tracked = λ c t p. ground (arith, p);
        owned = λ c t p. ground (arith, p);
      };
    };
    unlimited = refl;
    creators = refl;
    absent = λ j p. refl;
    untaken = λ u p. refl;
    unpaid = λ j. refl;
  }

  module _ (fee_bps k : ℕ) (names : List Symbol) (e : Env h)
      (s : Enrolled maps sdk fee_bps k names e) (u : Symbol) (display_name bio : Text) where
    Registered-Enrolled :
        (e' : Env h)
        → Registered (owner maps sdk k) u display_name bio e e'
        → Enrolled maps sdk fee_bps (k + 1) (u ∷ names) e'
    Registered-Enrolled e' o =
        let c = Call.register (owner maps sdk k) u display_name bio in
        let r = s.ready in
        record {
          ready = record {
            authorized = λ a. rw o.result (r.authorized a);
            contract_is = rw o.result r.contract_is;
            admin_is = rw o.result r.admin_is;
            flag = rw o.result r.flag;
            rate = rw o.result r.rate;
            recipient = rw o.result r.recipient;
            minimum = rw o.result r.minimum;
            uncapped = rw o.result r.uncapped;
            registered = λ j p. elim (Bool-cases (j == k)) [
              | inl same ↦ rw (o.result, (==_iff j k).0 same, itself (owner maps sdk k)) refl
              | inr other ↦
                  rw (o.result, owner_apart maps sdk laws j k other)
                    (r.registered j (ground (arith, p, other)))
            ];
            counted = λ j p. elim (Bool-cases (j == k)) [
              | inl same ↦
                  rw (o.result, (==_iff j k).0 same, itself (owner maps sdk k)) (omega arith)
              | inr other ↦
                  rw (o.result, owner_apart maps sdk laws j k other)
                    (r.counted j (ground (arith, p, other)))
            ];
            balance = λ j p. rw o.result (s.unpaid j);
            config = Done-ConfigValid c e e' o r.config;
            tracking = Kind-TokensValid maps e e' r.config.fee_range (kind c e e' o) r.tracking;
          };
          unlimited = rw o.result s.unlimited;
          creators = rw (o.result, s.creators) refl;
          absent = λ j p.
              rw (o.result, owner_apart maps sdk laws j k (ground (arith, p)))
                (s.absent j (omega (arith, p)));
          untaken = λ v p.
              let apart : (v == u) ≡ false = ground (arith, p) in
              let others : mem v names ≡ false = ground (arith, p) in
              rw (o.result, apart) (s.untaken v others);
          unpaid = λ j. rw o.result (s.unpaid j);
        }

    -- The next owner registers under a new name.
    pub register_returns :
        mem u names ≡ false
        → too_long display_name bio ≡ false
        → k ≤ 100
        → (e' : Env h) × (register (owner maps sdk k) u display_name bio e ≡ ok (tt, e'))
          × Enrolled maps sdk fee_bps (k + 1) (u ∷ names) e'
          × (e'.ledger ≡ e.ledger)
    unfolding get_admin is_paused get_max_creators get_creator_count is_creator is_username_taken
    register_returns new short few =
        let r = s.ready in
        let (_, e', ran, o) =
          returned_by (register (owner maps sdk k) u display_name bio)
            (register-Decided (owner maps sdk k) u display_name bio e)
            (rw
              (
                r.authorized (owner maps sdk k),
                r.admin_is,
                r.flag,
                short,
                s.absent k (omega arith),
                s.untaken u new,
                s.unlimited,
                s.creators,
                count_fits k few,
              )
              refl)
            (register_lem (owner maps sdk k) u display_name bio e) in
        (e', ran, Registered-Enrolled e' o, rw o.result refl)

  -- Before the first tip.
  pub Enrolled-Crowd :
      (fee_bps k g : ℕ) (names : List Symbol) (e : Env h)
      → Enrolled maps sdk fee_bps k names e
      → ((a : ℕ) → (a == 0) ≡ false → sdk.balance e.ledger (sdk.address 4) (sdk.address a) ≡ pos 0)
      → 5 + k ≤ g
      → Crowd maps sdk k g fee_bps false (λ _. 0) 0 0 0 e
  Enrolled-Crowd fee_bps k g names e s nothing made =
      let empty = total-zero k in
      record {
        ready = s.ready;
        contract_holds = nothing 2 refl ∙ ap pos (sym empty);
        recipient_holds = nothing 1 refl;
        owners_hold = λ i p. (0, nothing (5 + i) (ground arith), omega (arith, empty));
        backed = omega (arith, empty);
        fresh = λ j p. nothing j (ground (arith, made, p));
        made = made;
      }
