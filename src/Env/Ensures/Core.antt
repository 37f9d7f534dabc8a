-- ===== src/Env/Ensures/Core.antt =====
-- What holds whenever an action returns, and of what it returned.
use stellar_tip_contract.Base.{
  ◌≡◌, refl, subst, Bool, true, false, Option, none, some, ◌∷◌, ⊤, String, if◌then◌else◌,
}
use stellar_tip_contract.Host.{Host, Address}
use stellar_tip_contract.Types.{token_error, Payload}
use stellar_tip_contract.Env.State.{Env}
use stellar_tip_contract.Env.Effects.{Result, ok, panic, Action, pure, publish}

abbrev pub Holds : {h : Host} {A : Type 0} → Result (A × Env h) → (A → Env h → Type 0) → Type 0
Holds (ok (a, e)) Q = Q a e
Holds (panic _) Q = ⊤

pub record Ensures {h : Host} {A : Type 0} (m : Action h A) (e : Env h) (Q : A → Env h → Type 0)
    : Type 0 where
  pub holds : Holds (m e) Q

pub Holds-if :
    {h : Host} {A : Type 0} (b : Bool) (r s : Result (A × Env h)) (Q : A → Env h → Type 0)
    → (b ≡ true → Holds r Q)
    → (b ≡ false → Holds s Q)
    → Holds (if b then r else s) Q
Holds-if true r s Q k l = k refl
Holds-if false r s Q k l = l refl

-- What goes on from a result.
abbrev pub continue :
    {h : Host} {A B : Type 0} → Result (A × Env h) → (A → Action h B) → Result (B × Env h)
continue r f = elim r [ ok (a, e) ↦ f a e | panic p ↦ panic p ]

pub Holds-continue :
    {h : Host} {A B : Type 0} (r : Result (A × Env h)) (f : A → Action h B) (P : A → Env h → Type 0)
    (Q : B → Env h → Type 0)
    → Holds r P
    → ((a : A) (e : Env h) → P a e → Holds (f a e) Q)
    → Holds (continue r f) Q
Holds-continue (ok (a, e)) f P Q p k = k a e p
Holds-continue (panic _) f P Q p k = tt

pub Holds-transferred :
    {h : Host} (e : Env h) (o : Option h.Ledger)
    → Holds
        (elim o [ none ↦ panic token_error | some l ↦ ok (tt, record e { ledger = l }) ])
        (λ (u : ⊤) e'. (l : h.Ledger) × (o ≡ some l) × (e' ≡ record e { ledger = l }))
Holds-transferred e none = tt
Holds-transferred e (some l) = (l, refl, refl)

module _ {h : Host} {A : Type 0} where
  -- What an action ensures holds of the result that it returns.
  pub returned :
      (m : Action h A) {e : Env h} {Q : A → Env h → Type 0}
      → Ensures m e Q
      → (a : A) (e' : Env h) → m e ≡ ok (a, e')
      → Q a e'
  returned m {Q = Q} c a e' p = subst (λ r. Holds r Q) p c.holds

module _ {h : Host} {A : Type 0} {e : Env h} {Q : A → Env h → Type 0} where
  pub by_pure : (a : A) → Q a e → Ensures (pure a) e Q
  unfolding pure
  by_pure a q = record { holds = q }

module _ {h : Host} {e : Env h} {Q : ⊤ → Env h → Type 0} where
  pub by_publish :
      (topic : String) (subject : Address) (payload : Payload)
      → Q tt (record e {
        events = (record { topic = topic; subject = subject; payload = payload }) ∷ e.events;
      })
      → Ensures (publish topic subject payload) e Q
  unfolding publish
  by_publish topic subject payload q = record { holds = q }
