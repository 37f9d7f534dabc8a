-- ===== src/Fuzz/Opening.antt =====
-- The creator of the tests that go straight through registers, and the tipper gets its tokens.
use stellar_tip_contract.Base.{
  ℕ, ◌≤◌, ℤ, pos, ◌+ℤ◌, ◌==◌, ◌&&◌, ◌≡◌, refl, ◌∙◌, [], Bool, true, false, some, if◌then◌else◌,
  arith, int_laws,
}
use stellar_tip_contract.Host.{Host, MapLaws, Address}
use stellar_tip_contract.Types.{max_fee_bps}
use stellar_tip_contract.Env.{Env, fits_i128}
use stellar_tip_contract.Contract.{register}
use stellar_tip_contract.Fuzz.Environment.{
  TestUtils, Sandbox, FuzzEnv, Test, TestResult, call, generate, sandbox, fuzz_env, ◌>>=◌,
}
use stellar_tip_contract.Fuzz.Properties.{creator_text, bio_text}
use stellar_tip_contract.Fuzz.Laws.{◌<|◌, TestLaws, Goes, itself, on, on_call}
use stellar_tip_contract.Fuzz.Start.{fixture, the_creator, the_tipper, initialized, begins}
use stellar_tip_contract.Fuzz.Ready.{Ready, Ready-ledger}
use stellar_tip_contract.Fuzz.Crowd.Enrolling.{initialized-Enrolled, register_returns}
use stellar_tip_contract.Fuzz.Amounts.{small_fits}
use stellar_tip_contract.Fuzz.Standing.{Standing}

zero_add : {x : ℤ} → pos 0 +ℤ x ≡ x
zero_add = omega int_laws

added_to_zero :
    (y : ℤ) (b c : Bool)
    → b ≡ true
    → pos 0 +ℤ (if b && c then y else pos 0) ≡ (if c then y else pos 0)
added_to_zero y b true p = rw p (omega int_laws)
added_to_zero y b false p = rw p (omega int_laws)

module _ {h : Host} (maps : MapLaws h) (sdk : TestUtils h) (laws : TestLaws h sdk) where
  -- What each holder has when the tipper has got its tokens.
  abbrev Funded : ℕ → h.Ledger → Type 0
  Funded n l =
      (a : Address)
      → (a == sdk.address 0) ≡ false
      → sdk.balance l (sdk.address 4) a ≡ (if a == sdk.address 6 then pos n else pos 0)

  -- The first steps of the tests that go straight through.
  registers :
      {B : Type 0} (fee_bps : ℕ) (k : FuzzEnv → Address → Address → Test h B)
      → fee_bps ≤ max_fee_bps
      → (e : Env h) × Ready maps sdk 1 fee_bps false (λ _. 0) 0 e
        × ((a : Address)
            → (a == sdk.address 0) ≡ false
            → sdk.balance e.ledger (sdk.address 4) a ≡ pos 0)
        × ((r : TestResult (B × Sandbox h))
            → Goes
                (k (fixture sdk) (the_creator sdk) (the_tipper sdk))
                (record { env = e; generated = 7 })
                r
            → Goes
                (fuzz_env sdk fee_bps >>= λ t. generate sdk >>= λ creator.
                  call (register creator (sdk.symbol "creator") creator_text bio_text) >>= λ _.
                  generate sdk >>= λ tipper. k t creator tipper)
                (sandbox sdk)
                r)
  unfolding generate
  registers fee_bps k p =
      let (l, zeroed, begin) = begins sdk laws fee_bps _ p in
      let (e, ran, s, same) =
        register_returns maps sdk laws fee_bps 0 [] (initialized sdk fee_bps l)
          (initialized-Enrolled maps sdk laws fee_bps l p) (sdk.symbol "creator") creator_text
          bio_text refl refl (omega arith) in
      (
        e,
        s.ready,
        (λ a other. rw same (zeroed a other)),
        λ r g. begin r <| on _ _ refl <| on_call _ _ ran <| on _ _ refl g,
      )

  -- The tipper gets its tokens.
  funds :
      (n : ℕ) (l : h.Ledger)
      → ((a : Address) → (a == sdk.address 0) ≡ false → sdk.balance l (sdk.address 4) a ≡ pos 0)
      → fits_i128 (pos n) ≡ true
      → (l' : h.Ledger) × (sdk.mint l (sdk.address 4) (sdk.address 6) (pos n) ≡ some l')
        × Funded n l'
  funds n l before fits =
      let token = sdk.address 4 in
      let nothing = before (sdk.address 6) (laws.distinct 6 0 refl) in
      let minted = laws.mints l token (sdk.address 6) n (rw (nothing, zero_add) fits) in
      (
        minted.0,
        minted.1,
        λ a other.
            minted.2 token a
            ∙ rw (before a other) (added_to_zero (pos n) (token == token) _ (ground arith)),
      )

  opened-Standing :
      (n fee_bps : ℕ) (l : h.Ledger) (e : Env h)
      → Ready maps sdk 1 fee_bps false (λ _. 0) 0 e
      → Funded n l
      → Standing maps sdk fee_bps n 0 0 0 0 (record e { ledger = l })
  opened-Standing n fee_bps l e s funded = record {
    ready = Ready-ledger maps sdk 1 fee_bps false (λ _. 0) 0 e l s;
    contract_holds =
        funded (sdk.address 2) (laws.distinct 2 0 refl) ∙ rw (laws.distinct 2 6 refl) refl;
    recipient_holds =
        funded (sdk.address 1) (laws.distinct 1 0 refl) ∙ rw (laws.distinct 1 6 refl) refl;
    creator_holds =
        funded (sdk.address 5) (laws.distinct 5 0 refl) ∙ rw (laws.distinct 5 6 refl) refl;
    tipper_holds =
        funded (sdk.address 6) (laws.distinct 6 0 refl) ∙ rw (itself (sdk.address 6)) refl;
  }

  -- Both, with what the accounts are then.
  pub starts :
      {B : Type 0} (n fee_bps : ℕ) (k : FuzzEnv → Address → Address → Test h B)
      → fee_bps ≤ max_fee_bps
      → n ≤ 1_000_000_000_000_000
      → (e : Env h) × (l : h.Ledger) × (sdk.mint e.ledger (sdk.address 4) (sdk.address 6) (pos n)
          ≡ some l)
        × Standing maps sdk fee_bps n 0 0 0 0 (record e { ledger = l })
        × ((r : TestResult (B × Sandbox h))
            → Goes
                (k (fixture sdk) (the_creator sdk) (the_tipper sdk))
                (record { env = e; generated = 7 })
                r
            → Goes
                (fuzz_env sdk fee_bps >>= λ t. generate sdk >>= λ creator.
                  call (register creator (sdk.symbol "creator") creator_text bio_text) >>= λ _.
                  generate sdk >>= λ tipper. k t creator tipper)
                (sandbox sdk)
                r)
  starts n fee_bps k rate small =
      let (e, ready, zeroed, begin) = registers fee_bps k rate in
      let (l, minted, funded) = funds n e.ledger zeroed (small_fits n small) in
      (e, l, minted, opened-Standing n fee_bps l e ready funded, begin)
