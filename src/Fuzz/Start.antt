-- ===== src/Fuzz/Start.antt =====
-- How the tests begin: the contract is initialized.
use stellar_tip_contract.Base.{
  ℕ, ◌≤◌, ℤ, pos, ◌+ℤ◌, ◌==◌, ◌&&◌, ◌≡◌, refl, ◌∙◌, Bool, true, false, some, if◌then◌else◌, arith,
  int_laws,
}
use stellar_tip_contract.Host.{Host, Address}
use stellar_tip_contract.Types.{event_init, init_data, max_fee_bps}
use stellar_tip_contract.Env.{Env, ok, fits_i128}
use stellar_tip_contract.Contract.{init, get_admin}
use stellar_tip_contract.Outcome.Admin.{after_change}
use stellar_tip_contract.Outcome.Initialization.{initial, init_lem}
use stellar_tip_contract.System.Reach.{deployed}
use stellar_tip_contract.Panics.Admin.{init-Decided}
use stellar_tip_contract.Fuzz.Environment.{
  TestUtils, Sandbox, FuzzEnv, Test, TestResult, passed, pure, generate, register_contract, sandbox,
  fuzz_env, ◌>>=◌,
}
use stellar_tip_contract.Fuzz.Laws.{◌<|◌, TestLaws, Goes, on, on_call, on_mint, returned_by}

module _ {h : Host} (sdk : TestUtils h) where
  abbrev pub fixture : FuzzEnv
  fixture = record {
    admin = sdk.address 0;
    fee_recipient = sdk.address 1;
    contract_id = sdk.address 2;
    token_id = sdk.address 4;
  }

  abbrev pub the_creator : Address
  the_creator = sdk.address 5

  abbrev pub the_tipper : Address
  the_tipper = sdk.address 6

  abbrev pub initialized : ℕ → h.Ledger → Env h
  initialized fee_bps l =
      let e = deployed (λ a. true) (sdk.address 2) 1000 l in
      after_change (sdk.address 0)
        (initial (sdk.address 0) (sdk.address 1) fee_bps 0 0 (pos 0) e.inst) event_init
        (init_data (sdk.address 1) fee_bps) e

nothing_added : (y : ℤ) (b c : Bool) → c ≡ false → pos 0 +ℤ (if b && c then y else pos 0) ≡ pos 0
nothing_added y true c p = rw p (omega int_laws)
nothing_added y false c p = omega int_laws

first_mint_fits : fits_i128 (pos 0 +ℤ pos 1_000_000_000_000_000_000) ≡ true
unfolding fits_i128 ◌+ℤ◌
first_mint_fits = refl

module _ {h : Host} (sdk : TestUtils h) (laws : TestLaws h sdk) where
  init_returns :
      (fee_bps : ℕ) (l : h.Ledger)
      → fee_bps ≤ max_fee_bps
      → init
          (sdk.address 0)
          (sdk.address 1)
          fee_bps
          0
          0
          (pos 0)
          (deployed (λ a. true) (sdk.address 2) 1000 l)
        ≡ ok (tt, initialized sdk fee_bps l)
  unfolding get_admin
  init_returns fee_bps l p =
      let e : Env h = deployed (λ a. true) (sdk.address 2) 1000 l in
      let ran =
        returned_by (init (sdk.address 0) (sdk.address 1) fee_bps 0 0 (pos 0))
          (init-Decided (sdk.address 0) (sdk.address 1) fee_bps 0 0 (pos 0) e)
          (ground (arith, p, laws.distinct 1 2 refl))
          (init_lem (sdk.address 0) (sdk.address 1) fee_bps 0 0 (pos 0) e) in
      rw (← ran.3.result) ran.2

  fuzz_env_lem :
      (fee_bps : ℕ) (l : h.Ledger)
      → fee_bps ≤ max_fee_bps
      → sdk.mint sdk.ledger (sdk.address 4) (sdk.address 0) (pos 1_000_000_000_000_000_000) ≡ some l
      → fuzz_env sdk fee_bps (sandbox sdk)
        ≡ passed (fixture sdk, record { env = initialized sdk fee_bps l; generated = 5 })
  unfolding fuzz_env register_contract generate pure
  fuzz_env_lem fee_bps l p minted =
      (on _ _ refl
        <| on _ _ refl
        <| on _ _ refl
        <| on _ _ refl
        <| on _ _ refl
        <| on_mint sdk _ _ _ _ minted
        <| on_call _ _ (init_returns fee_bps l p) (record { ends = refl })).ends

  -- Every test begins with the fixture, whose token nobody but the admin holds.
  pub begins :
      {B : Type 0} (fee_bps : ℕ) (k : FuzzEnv → Test h B)
      → fee_bps ≤ max_fee_bps
      → (l : h.Ledger) × ((a : Address)
          → (a == sdk.address 0) ≡ false
          → sdk.balance l (sdk.address 4) a ≡ pos 0)
        × ((r : TestResult (B × Sandbox h))
            → Goes (k (fixture sdk)) (record { env = initialized sdk fee_bps l; generated = 5 }) r
            → Goes (fuzz_env sdk fee_bps >>= k) (sandbox sdk) r)
  begins fee_bps k p =
      let token = sdk.address 4 in
      let first =
        laws.mints sdk.ledger (sdk.address 4) (sdk.address 0) 1_000_000_000_000_000_000
          (rw (laws.empty (sdk.address 4) (sdk.address 0)) first_mint_fits) in
      let l = first.0 in
      (
        l,
        (λ a other. first.2 token a ∙ rw (laws.empty token a) (nothing_added _ _ _ other)),
        λ r g. on _ _ (fuzz_env_lem fee_bps l p first.1) g,
      )
