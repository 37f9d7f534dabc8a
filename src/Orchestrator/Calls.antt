-- ===== src/Orchestrator/Calls.antt =====
-- The orchestrator's two functions. `contractimport!` generates the client that they call StellarTip
-- through, so the client is a parameter: its two methods on the state of the called contracts.
use stellar_tip_contract.Base.{ℕ, ℤ, Bool, List, ◌∷◌, ⊤, String, if◌then◌else◌}
use stellar_tip_contract.Host.{Address, Symbol, Text}
use stellar_tip_contract.Types.{unauthorized}
use stellar_tip_contract.Env.{Result, ok, panic}

pub record TipClient (State : Type 0) : Type 0 where
  pub tip : Address → Address → Address → ℤ → Text → State → Result (ℕ × State)
  pub register : Address → Symbol → Text → Text → State → Result (⊤ × State)

pub data OrchestratorPayload : Type 0 where
  tip_payload : Address → ℕ → ℤ → OrchestratorPayload
  name_payload : Symbol → OrchestratorPayload

pub record OrchestratorEvent : Type 0 where
  pub topic : String
  pub subject : Address
  pub payload : OrchestratorPayload

-- The environment of the orchestrator's invocation.
pub record World (State : Type 0) : Type 0 where
  -- the addresses whose `require_auth` succeeds in the orchestrator itself
  pub authorized : Address → Bool
  -- the contracts that it calls
  pub called : State
  -- the orchestrator's own events, oldest last
  pub events : List OrchestratorEvent

abbrev pub Forward : Type 0 → Type 0 → Type 0
Forward State A = World State → Result (A × World State)

module _ {State : Type 0} where
  unfoldable pub pure : {A : Type 0} → A → Forward State A
  pure a w = ok (a, w)

  unfoldable pub require_auth : Address → Forward State ⊤
  require_auth a w = if w.authorized a then ok (tt, w) else panic unauthorized

  -- A cross-contract call: a panic in it ends the orchestrator's invocation too.
  unfoldable pub call : {A : Type 0} → (State → Result (A × State)) → Forward State A
  call m w = elim (m w.called) [ ok (a, s) ↦ ok (a, record w { called = s }) | panic p ↦ panic p ]

  unfoldable pub publish : String → Address → OrchestratorPayload → Forward State ⊤
  publish topic subject payload w = ok (
    tt,
    record w {
      events = (record { topic = topic; subject = subject; payload = payload }) ∷ w.events;
    },
  )

infixl 5 ◌>>=◌ ◌>>◌
-- Opening this opens the actions above too.
unfoldable pub ◌>>=◌ :
    {State A B : Type 0} → Forward State A → (A → Forward State B) → Forward State B
unfolding pure require_auth call publish
◌>>=◌ m f w = elim (m w) [ ok (a, w') ↦ f a w' | panic p ↦ panic p ]

abbrev pub ◌>>◌ : {State A B : Type 0} → Forward State A → Forward State B → Forward State B
m >> k = m >>= λ _. k

-- `client` is `stellar_tip::Client::new(&env, _)`.
module _ {State : Type 0} (client : Address → TipClient State) where
  unfoldable pub submit_tip : Address → Address → Address → Address → ℤ → Text → Forward State ℕ
  submit_tip from stellar_tip creator token amount message = do
    require_auth from
    let tip = client stellar_tip
    index ← call (tip.tip from creator token amount message)
    publish "ORCH_TIP" from (tip_payload creator index amount)
    pure index

  unfoldable pub register_creator : Address → Address → Symbol → Text → Text → Forward State ⊤
  register_creator caller stellar_tip username display_name bio = do
    require_auth caller
    let tip = client stellar_tip
    call (tip.register caller username display_name bio)
    publish "ORCH_REG" caller (name_payload username)
