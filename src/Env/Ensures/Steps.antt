-- ===== src/Env/Ensures/Steps.antt =====
-- The rule for each way in which a function goes on.
use stellar_tip_contract.Base.{
  ℤ, ◌≡◌, refl, Bool, true, false, Option, none, some, ◌∷◌, ⊤, String, if◌then◌else◌,
}
use stellar_tip_contract.Host.{Host, Address}
use stellar_tip_contract.Types.{TipError, DataKey, Payload, ttl_threshold, ttl_extend}
use stellar_tip_contract.Env.State.{Env, InstanceStorage, PersistentStorage, of_instance, of_entry}
use stellar_tip_contract.Env.Effects.{
  Action, pure, gets, or_panic, panic_if, checked, require_auth, modify_instance, modify_persistent,
  publish, token_transfer, extend_instance_ttl, extend_persistent_ttl, has_entry, ◌>>=◌,
}
use stellar_tip_contract.Env.Ensures.Core.{Ensures, Holds-if, Holds-continue, Holds-transferred}

module _ {h : Host} {A B : Type 0} {e : Env h} {Q : B → Env h → Type 0} where
  -- A part that has a rule of its own.
  pub after :
      (m : Action h A) {f : A → Action h B} {P : A → Env h → Type 0}
      → Ensures m e P
      → ((a : A) (e' : Env h) → P a e' → Ensures (f a) e' Q)
      → Ensures (m >>= f) e Q
  unfolding ◌>>=◌
  after m {f} {P} c k = record {
    holds = Holds-continue (m e) f P Q c.holds (λ a e' p. (k a e' p).holds);
  }

  pub after_gets :
      (g : Env h → A) (f : A → Action h B) → Ensures (f (g e)) e Q → Ensures (gets g >>= f) e Q
  unfolding ◌>>=◌
  after_gets g f c = record { holds = c.holds }

  pub after_pure : (a : A) (f : A → Action h B) → Ensures (f a) e Q → Ensures (pure a >>= f) e Q
  unfolding ◌>>=◌
  after_pure a f c = record { holds = c.holds }

  pub after_or_panic :
      (o : Option A) (error : TipError) (f : A → Action h B)
      → ((a : A) → o ≡ some a → Ensures (f a) e Q)
      → Ensures (or_panic o error >>= f) e Q
  unfolding ◌>>=◌
  after_or_panic none error f k = record { holds = tt }
  after_or_panic (some a) error f k = record { holds = (k a refl).holds }

  pub after_checked :
      (fits : A → Bool) (a : A) (f : A → Action h B)
      → (fits a ≡ true → Ensures (f a) e Q)
      → Ensures (checked fits a >>= f) e Q
  after_checked fits a f k =
      after (checked fits a) {P = λ b e'. (b ≡ a) × (e' ≡ e) × (fits a ≡ true)}
        (record {
          holds = unfold checked in Holds-if (fits a) _ _ _ (λ p. (refl, refl, p)) (λ _. tt);
        })
        (λ b e' p. rw (p.0, p.1) (k p.2))

  -- A branch goes on with the rest of the function.
  pub after_if :
      (b : Bool) (m n : Action h A) (f : A → Action h B)
      → (b ≡ true → Ensures (m >>= f) e Q)
      → (b ≡ false → Ensures (n >>= f) e Q)
      → Ensures ((if b then m else n) >>= f) e Q
  after_if true m n f k l = k refl
  after_if false m n f k l = l refl

module _ {h : Host} {B : Type 0} {e : Env h} {Q : B → Env h → Type 0} where
  pub after_panic_if :
      (b : Bool) (error : TipError) (f : ⊤ → Action h B)
      → (b ≡ false → Ensures (f tt) e Q)
      → Ensures (panic_if b error >>= f) e Q
  unfolding ◌>>=◌
  after_panic_if true error f k = record { holds = tt }
  after_panic_if false error f k = record { holds = (k refl).holds }

  pub after_auth :
      (a : Address) (f : ⊤ → Action h B)
      → (e.authorized a ≡ true → Ensures (f tt) e Q)
      → Ensures (require_auth a >>= f) e Q
  after_auth a f k =
      after (require_auth a) {P = λ u e'. (e' ≡ e) × (e.authorized a ≡ true)}
        (record {
          holds = unfold require_auth in Holds-if (e.authorized a) _ _ _ (λ p. (refl, p)) (λ _. tt);
        })
        (λ u e' p. rw p.0 (k p.1))

  pub after_instance :
      (g : InstanceStorage → InstanceStorage) (f : ⊤ → Action h B)
      → Ensures (f tt) (record e { inst = g e.inst }) Q
      → Ensures (modify_instance g >>= f) e Q
  unfolding ◌>>=◌
  after_instance g f c = record { holds = c.holds }

  pub after_persistent :
      (g : PersistentStorage h.TokenSet → PersistentStorage h.TokenSet) (f : ⊤ → Action h B)
      → Ensures (f tt) (record e { pers = g e.pers }) Q
      → Ensures (modify_persistent g >>= f) e Q
  unfolding ◌>>=◌
  after_persistent g f c = record { holds = c.holds }

  pub after_publish :
      (topic : String) (subject : Address) (payload : Payload) (f : ⊤ → Action h B)
      → Ensures
          (f tt)
          (record e {
            events = (record { topic = topic; subject = subject; payload = payload }) ∷ e.events;
          })
          Q
      → Ensures (publish topic subject payload >>= f) e Q
  unfolding ◌>>=◌
  after_publish topic subject payload f c = record { holds = c.holds }

  pub after_extend_instance :
      (f : ⊤ → Action h B)
      → Ensures
          (f tt)
          (record e { extensions = of_instance ttl_threshold ttl_extend ∷ e.extensions })
          Q
      → Ensures (extend_instance_ttl >>= f) e Q
  unfolding ◌>>=◌
  after_extend_instance f c = record { holds = c.holds }

  pub after_extend :
      (key : DataKey) (f : ⊤ → Action h B)
      → (has_entry e.pers key ≡ true
          → Ensures
              (f tt)
              (record e { extensions = of_entry key ttl_threshold ttl_extend ∷ e.extensions })
              Q)
      → Ensures (extend_persistent_ttl key >>= f) e Q
  after_extend key f k =
      after (extend_persistent_ttl key)
        {P = λ u e'.
          (e' ≡ record e { extensions = of_entry key ttl_threshold ttl_extend ∷ e.extensions })
          × (has_entry e.pers key ≡ true)}
        (record {
          holds =
              unfold extend_persistent_ttl in
              Holds-if (has_entry e.pers key) _ _ _ (λ p. (refl, p)) (λ _. tt);
        })
        (λ u e' p. rw p.0 (k p.1))

  pub after_transfer :
      (token from to : Address) (amount : ℤ) (f : ⊤ → Action h B)
      → ((l : h.Ledger)
          → h.transfer e.ledger token from to amount ≡ some l
          → Ensures (f tt) (record e { ledger = l }) Q)
      → Ensures (token_transfer token from to amount >>= f) e Q
  after_transfer token from to amount f k =
      after (token_transfer token from to amount)
        {P = λ u e'.
          (l : h.Ledger) × (h.transfer e.ledger token from to amount ≡ some l)
          × (e' ≡ record e { ledger = l })}
        (record {
          holds =
              unfold token_transfer in
              Holds-transferred e (h.transfer e.ledger token from to amount);
        })
        (λ u e' p. rw p.2 (k p.0 p.1))

-- The rules for an action that stands last.
