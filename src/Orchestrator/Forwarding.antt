-- ===== src/Orchestrator/Forwarding.antt =====
-- The orchestrator in front of `TipContract` of src/lib.rs.
use stellar_tip_contract.Base.{
  ℕ, ℤ, ◌≡◌, refl, ◌∙◌, sym, Bool-cases, inl, inr, false, ◌&&◌, ◌∷◌, ⊤, if◌then◌else◌, arith,
}
use stellar_tip_contract.Host.{Host, TokenLaws, Address, Symbol, Text}
use stellar_tip_contract.Types.{Panic, unauthorized, tip_data, event_tip_sent}
use stellar_tip_contract.Env.{Env, Result, ok, panic}
use stellar_tip_contract.Env.Ensures.{returned}
use stellar_tip_contract.Env.Runs.{go_on, ends_pure}
use stellar_tip_contract.Contract.{Call, execute, tip, register, get_tip_count, get_fee_percentage}
use stellar_tip_contract.Outcome.Tipping.{fee_amount, tip_lem}
use stellar_tip_contract.Access.{tip_unauthorized, unauthorized_panics}
use stellar_tip_contract.Orchestrator.Calls.{
  TipClient, World, Forward, call, require_auth, publish, tip_payload, name_payload, submit_tip,
  register_creator, ◌>>=◌,
}
use stellar_tip_contract.System.Reach
use stellar_tip_contract.System.Reach.{Reach, next}

-- What goes on from the result of a call.
relay : {State A B : Type 0} → Result (A × State) → (A → State → Result B) → Result B
relay r k = elim r [ ok (a, s) ↦ k a s | panic p ↦ panic p ]

relay-ok :
    {State A B : Type 0} (r : Result (A × State)) (k : A → State → Result B) (b : B)
    → relay r k ≡ ok b
    → (a : A) × (s : State) × (r ≡ ok (a, s)) × (k a s ≡ ok b)
unfolding relay
relay-ok (ok (a, s)) k b p = (a, s, refl, p)
relay-ok (panic q) k b p = cc p

relay-panic :
    {State A B : Type 0} (r : Result (A × State)) (k : A → State → Result B) (q : Panic)
    → r ≡ panic q
    → relay r k ≡ panic q
unfolding relay
relay-panic r k q p = rw (p, relay) refl

of_pair :
    {A B : Type 0} {a a' : A} {b b' : B}
    → ◌≡◌ {A = Result (A × B)} (ok (a, b)) (ok (a', b'))
    → (a ≡ a') × (b ≡ b')
of_pair p = (cc p, cc p)

module _ {State B : Type 0} where
  then_auth :
      (a : Address) (f : ⊤ → Forward State B) (w : World State)
      → (require_auth a >>= f) w ≡ (if w.authorized a then f tt w else panic unauthorized)
  unfolding ◌>>=◌
  then_auth a f w = elim (Bool-cases (w.authorized a)) [
    | inl does ↦ rw (does, ◌>>=◌) refl
    | inr does_not ↦ rw (does_not, ◌>>=◌) refl
  ]

  then_call :
      {A : Type 0} (m : State → Result (A × State)) (f : A → Forward State B) (w : World State)
      → (call m >>= f) w ≡ relay (m w.called) (λ a s. f a (record w { called = s }))
  unfolding ◌>>=◌ relay
  then_call {A} m f w = go (m w.called)
    where
      go :
          (r : Result (A × State))
          → relay (relay r (λ a s. ok (a, record w { called = s }))) f
            ≡ relay r (λ a s. f a (record w { called = s }))
      go (ok (a, s)) = refl
      go (panic p) = refl

module _ {h : Host} where
  -- The client of `TipContract`.
  abbrev pub stellar_tip_client : Address → TipClient (Env h)
  stellar_tip_client address = record { tip = tip; register = register }

  submit_tip_lem :
      (from stellar_tip creator token : Address) (amount : ℤ) (message : Text) (w : World (Env h))
      → submit_tip stellar_tip_client from stellar_tip creator token amount message w ≡ (
          if w.authorized from
          then relay (tip from creator token amount message w.called) (λ index e. ok (
            index,
            record w {
              called = e;
              events =
                  (record {
                    topic = "ORCH_TIP";
                    subject = from;
                    payload = tip_payload creator index amount;
                  })
                  ∷ w.events;
            },
          ))
          else panic unauthorized)
  unfolding submit_tip
  submit_tip_lem from stellar_tip creator token amount message w =
      simp (then_auth, then_call) (unfold ◌>>=◌ in refl)

  register_creator_lem :
      (caller stellar_tip : Address) (username : Symbol) (display_name bio : Text)
      (w : World (Env h))
      → register_creator stellar_tip_client caller stellar_tip username display_name bio w ≡ (
          if w.authorized caller
          then relay (register caller username display_name bio w.called) (λ _ e. ok (
            tt,
            record w {
              called = e;
              events =
                  (record { topic = "ORCH_REG"; subject = caller; payload = name_payload username })
                  ∷ w.events;
            },
          ))
          else panic unauthorized)
  unfolding register_creator
  register_creator_lem caller stellar_tip username display_name bio w =
      simp (then_auth, then_call) (unfold publish in refl)

  -- The orchestrator forwards a tip only if the supporter has authorized both its own invocation and
  -- the one of StellarTip below it, and a registration only if the creator has; otherwise the call
  -- panics.
  pub needs_both :
      (from stellar_tip creator token : Address) (amount : ℤ) (message : Text) (username : Symbol)
      (display_name bio : Text) (w : World (Env h))
      → (w.authorized from && w.called.authorized from) ≡ false
      → (submit_tip stellar_tip_client from stellar_tip creator token amount message w
          ≡ panic unauthorized)
        × (register_creator stellar_tip_client from stellar_tip username display_name bio w
            ≡ panic unauthorized)
  unfolding execute
  needs_both from stellar_tip creator token amount message username display_name bio w p =
      elim (Bool-cases (w.authorized from)) [
        | inr outside ↦ (
          submit_tip_lem from stellar_tip creator token amount message w ∙ rw outside refl,
          register_creator_lem from stellar_tip username display_name bio w ∙ rw outside refl,
        )
        | inl given ↦
            let inside : w.called.authorized from ≡ false = ground (arith, p, given) in
            (
              submit_tip_lem from stellar_tip creator token amount message w
                  ∙ rw given (
                      relay-panic _ _ unauthorized
                        (tip_unauthorized from creator token amount message w.called inside).ends),
              register_creator_lem from stellar_tip username display_name bio w
                  ∙ rw given (
                      relay-panic _ _ unauthorized (
                        unauthorized_panics (Call.register from username display_name bio) w.called
                          inside)),
            )
      ]

  -- What a forwarded tip that returns has done.
  submit_tip_inv :
      (from stellar_tip creator token : Address) (amount : ℤ) (message : Text)
      (w w' : World (Env h)) (index : ℕ)
      → submit_tip stellar_tip_client from stellar_tip creator token amount message w
        ≡ ok (index, w')
      → (e' : Env h) × (tip from creator token amount message w.called ≡ ok (index, e'))
        × (w' ≡ record w {
          called = e';
          events =
              (record {
                topic = "ORCH_TIP";
                subject = from;
                payload = tip_payload creator index amount;
              })
              ∷ w.events;
        })
  submit_tip_inv from stellar_tip creator token amount message w w' index p =
      let q = sym (submit_tip_lem from stellar_tip creator token amount message w) ∙ p in
      elim (Bool-cases (w.authorized from)) [
        | inr does_not ↦ cc (rw does_not at q)
        | inl does ↦
            let (i, e', ran, done) = relay-ok _ _ _ (rw does at q) in
            let (same_index, same_world) = of_pair done in
            (e', rw (← same_index) ran, rw (← same_world, ← same_index) refl)
      ]

module _ {h : Host} (tokens : TokenLaws h) where
  -- When the orchestrator's `submit_tip` returns in a world where StellarTip is in a reachable state,
  -- StellarTip has made the same tip with the same index, the creator's tip count before it, and is
  -- in a reachable state again; each of the two contracts has published one event, with the same
  -- supporter, creator, amount and index.
  pub submit_tip_steps :
      (from stellar_tip creator token : Address) (amount : ℤ) (message : Text)
      (w w' : World (Env h)) (index : ℕ)
      → Reach tokens w.called
      → submit_tip stellar_tip_client from stellar_tip creator token amount message w
        ≡ ok (index, w')
      → let fee = fee_amount amount (get_fee_percentage w.called) in
        (tip from creator token amount message w.called ≡ ok (index, w'.called))
        × (index ≡ get_tip_count creator w.called)
        × Reach tokens w'.called
        × (w'.events
            ≡ (record {
              topic = "ORCH_TIP";
              subject = from;
              payload = tip_payload creator index amount;
            })
              ∷ w.events)
        × (w'.called.events
            ≡ (record {
              topic = event_tip_sent;
              subject = from;
              payload = tip_data creator token amount fee index;
            })
              ∷ w.called.events)
  unfolding execute get_tip_count get_fee_percentage
  submit_tip_steps from stellar_tip creator token amount message w w' index r p =
      let (e', ran, same) =
        submit_tip_inv from stellar_tip creator token amount message w w' index p in
      let o = returned _ (tip_lem from creator token amount message w.called) index e' ran in
      let step = next r (
        Reach.call (Call.tip from creator token amount message) e'
          (go_on _ _ (record { ends = ran }) (ends_pure tt)).ends) in
      rw same (ran, o.index_is, step, refl, rw (o.result, ← o.fee_is) refl)
