-- ===== src/Fuzz/Environment.antt =====
-- `FuzzEnv`, and what its functions and the tests call: the SDK's test environment is a parameter,
-- and a test is an action on the environment that all of them share.
use stellar_tip_contract.Base.{
  ℕ, ◌+◌, ℤ, pos, leb_ℤ, ◌&&◌, Bool, true, Option, none, some, ⊤, String, if◌then◌else◌,
}
use stellar_tip_contract.Host.{Host, Address, Symbol}
use stellar_tip_contract.Types.{Panic, overflow, token_error}
use stellar_tip_contract.Env.{Env, Action, ok, panic, fits_i128}
use stellar_tip_contract.Contract.{init}
use stellar_tip_contract.System.Reach.{deployed}

-- The SDK's test utilities.
pub record TestUtils (h : Host) : Type 0 where
  -- the address that `Address::generate`, or the registration of a contract, makes as its n-th
  pub address : ℕ → Address
  -- `Symbol::new`
  pub symbol : String → Symbol
  -- the token contracts of `Env::default()`, and `StellarAssetClient::mint` and
  -- `token::Client::balance` on them
  pub ledger : h.Ledger
  pub mint : h.Ledger → Address → Address → ℤ → Option h.Ledger
  pub balance : h.Ledger → Address → Address → ℤ

-- The shared `Env` of a test, and the number of addresses that it has made.
pub record Sandbox (h : Host) : Type 0 where
  pub env : Env h
  pub generated : ℕ

-- `panicked` is a call that panics, `rejected` a failed `prop_assume!`, and `failed` a failed
-- assertion or `unwrap`, or an index out of range.
pub data TestResult (A : Type 0) : Type 0 where
  passed : A → TestResult A
  panicked : Panic → TestResult A
  rejected failed : TestResult A

abbrev pub Test : Host → Type 0 → Type 0
Test h A = Sandbox h → TestResult (A × Sandbox h)

pub record FuzzEnv : Type 0 where
  pub contract_id : Address
  pub admin : Address
  pub fee_recipient : Address
  pub token_id : Address

module _ {h : Host} where
  unfoldable pub pure : {A : Type 0} → A → Test h A
  pure a w = passed (a, w)

  unfoldable pub assume : Bool → Test h ⊤
  assume test w = if test then passed (tt, w) else rejected

  unfoldable pub assert_eq : ℤ → ℤ → Test h ⊤
  assert_eq x y w = if leb_ℤ x y && leb_ℤ y x then passed (tt, w) else failed

  -- Arithmetic is checked in tests too.
  unfoldable pub checked : ℤ → Test h ℤ
  checked x w = if fits_i128 x then passed (x, w) else panicked overflow

  -- A function of the contract's client.
  unfoldable pub call : {A : Type 0} → Action h A → Test h A
  call m w = elim (m w.env) [ ok (a, e) ↦ passed (a, record w { env = e }) | panic p ↦ panicked p ]

  unfoldable pub view : {A : Type 0} → (Env h → A) → Test h A
  view f w = passed (f w.env, w)

infixl 5 ◌>>=◌ ◌>>◌
-- Opening this opens the actions above too.
unfoldable pub ◌>>=◌ : {h : Host} {A B : Type 0} → Test h A → (A → Test h B) → Test h B
unfolding pure assume assert_eq checked call view
◌>>=◌ m f w = elim (m w) [
  | passed (a, w') ↦ f a w'
  | panicked p ↦ panicked p
  | rejected ↦ rejected
  | failed ↦ failed
]

abbrev pub ◌>>◌ : {h : Host} {A B : Type 0} → Test h A → Test h B → Test h B
m >> k = m >>= λ _. k

module _ {h : Host} (sdk : TestUtils h) where
  unfoldable pub generate : Test h Address
  generate w = passed (sdk.address w.generated, record w { generated = w.generated + 1 })

  -- `env.register_contract(None, TipContract)`
  unfoldable pub register_contract : Test h Address
  register_contract w =
      let contract = sdk.address w.generated in
      passed (
        contract,
        record w {
          env = record w.env { current_contract_address = contract };
          generated = w.generated + 1;
        },
      )

  unfoldable pub mint : Address → Address → ℤ → Test h ⊤
  mint token to amount w = elim (sdk.mint w.env.ledger token to amount) [
    | none ↦ panicked token_error
    | some l ↦ passed (tt, record w { env = record w.env { ledger = l } })
  ]

  unfoldable pub balance : Address → Address → Test h ℤ
  balance token holder w = passed (sdk.balance w.env.ledger token holder, w)

  -- `Env::default()` with all authorizations mocked and the ledger's time set; the contract's address
  -- stands in it once the contract is registered.
  abbrev pub sandbox : Sandbox h
  sandbox = record { env = deployed (λ a. true) 0 1000 sdk.ledger; generated = 0 }

  unfoldable pub fuzz_env : ℕ → Test h FuzzEnv
  fuzz_env fee_bps = do
    admin ← generate
    fee_recipient ← generate
    contract_id ← register_contract
    token_admin ← generate
    token_id ← generate
    mint token_id admin (pos 1_000_000_000_000_000_000)
    call (init admin fee_recipient fee_bps 0 0 (pos 0))
    pure (record {
      contract_id = contract_id;
      admin = admin;
      fee_recipient = fee_recipient;
      token_id = token_id;
    })
