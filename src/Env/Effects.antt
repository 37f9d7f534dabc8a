-- ===== src/Env/Effects.antt =====
-- A contract function: it reads and writes the environment, and returns or panics. The host undoes
-- what a panicking invocation wrote, so a panic carries no environment.
use stellar_tip_contract.Base.{
  ℕ, ◌^◌, ℤ, pos_part, neg_part, ltb, leb, Bool, false, ◌&&◌, Option, none, some, ◌∷◌, ⊤, String,
  is_some, if◌then◌else◌,
}
use stellar_tip_contract.Host.{Host, Address}
use stellar_tip_contract.Types.{
  TipError, Panic, tip_error, unauthorized, overflow, token_error, missing_entry, Payload, DataKey,
  ttl_threshold, ttl_extend,
}
use stellar_tip_contract.Env.State.{Env, InstanceStorage, PersistentStorage, of_instance, of_entry}

pub data Result {ℓ} (A : Type ℓ) : Type ℓ where
  ok : A → Result A
  panic : Panic → Result A

abbrev pub Action : Host → Type 0 → Type 0
Action h A = Env h → Result (A × Env h)

-- Whether a persistent entry exists under the key.
abbrev pub has_entry : {TokenSet : Type 0} → PersistentStorage TokenSet → DataKey → Bool
has_entry p (DataKey.balance creator token) = is_some (p.balance creator token)
has_entry p (DataKey.tip_count creator) = is_some (p.tip_count creator)
has_entry p (DataKey.tip creator index) = is_some (p.tip creator index)
has_entry p (DataKey.creator_tokens creator) = is_some (p.creator_tokens creator)
has_entry p _ = false

module _ {h : Host} {A : Type 0} where
  unfoldable pub pure : A → Action h A
  pure a e = ok (a, e)

  unfoldable pub gets : (Env h → A) → Action h A
  gets f e = ok (f e, e)

  -- `unwrap_or_else(|| panic_with_error!(env, error))`
  unfoldable pub or_panic : Option A → TipError → Action h A
  or_panic none error e = panic (tip_error error)
  or_panic (some a) error e = ok (a, e)

module _ {h : Host} where
  -- `if test { panic_with_error!(env, error) }`
  unfoldable pub panic_if : Bool → TipError → Action h ⊤
  panic_if test error e = if test then panic (tip_error error) else ok (tt, e)

  -- Arithmetic is checked: a result out of the type's range is a panic.
  unfoldable pub checked : {A : Type 0} → (A → Bool) → A → Action h A
  checked fits a e = if fits a then ok (a, e) else panic overflow

  unfoldable pub require_auth : Address → Action h ⊤
  require_auth a e = if e.authorized a then ok (tt, e) else panic unauthorized

  unfoldable pub modify_instance : (InstanceStorage → InstanceStorage) → Action h ⊤
  modify_instance f e = ok (tt, record e { inst = f e.inst })

  unfoldable pub modify_persistent :
      (PersistentStorage h.TokenSet → PersistentStorage h.TokenSet) → Action h ⊤
  modify_persistent f e = ok (tt, record e { pers = f e.pers })

  unfoldable pub publish : String → Address → Payload → Action h ⊤
  publish topic subject payload e = ok (
    tt,
    record e {
      events = (record { topic = topic; subject = subject; payload = payload }) ∷ e.events;
    },
  )

  -- `token::Client::new(&env, &token).transfer(&from, &to, &amount)`
  unfoldable pub token_transfer : Address → Address → Address → ℤ → Action h ⊤
  token_transfer token from to amount e = elim (h.transfer e.ledger token from to amount) [
    | none ↦ panic token_error
    | some l ↦ ok (tt, record e { ledger = l })
  ]

  unfoldable pub extend_instance_ttl : Action h ⊤
  extend_instance_ttl e =
      ok (tt, record e { extensions = of_instance ttl_threshold ttl_extend ∷ e.extensions })

  unfoldable pub extend_persistent_ttl : DataKey → Action h ⊤
  extend_persistent_ttl key e =
      if has_entry e.pers key
      then ok (tt, record e { extensions = of_entry key ttl_threshold ttl_extend ∷ e.extensions })
      else panic missing_entry

infixl 5 ◌>>=◌ ◌>>◌
-- Opening this opens the actions above too.
unfoldable pub ◌>>=◌ : {h : Host} {A B : Type 0} → Action h A → (A → Action h B) → Action h B
unfolding pure gets or_panic panic_if checked require_auth modify_instance modify_persistent publish
    token_transfer extend_instance_ttl extend_persistent_ttl
◌>>=◌ m f e = elim (m e) [ ok (a, e') ↦ f a e' | panic p ↦ panic p ]

abbrev pub ◌>>◌ : {h : Host} {A B : Type 0} → Action h A → Action h B → Action h B
m >> k = m >>= λ _. k

unfoldable pub fits_u32 : ℕ → Bool
fits_u32 n = ltb n (2 ^ 32)

unfoldable pub fits_u64 : ℕ → Bool
fits_u64 n = ltb n (2 ^ 64)

unfoldable pub fits_i128 : ℤ → Bool
fits_i128 x = ltb (pos_part x) (2 ^ 127) && leb (neg_part x) (2 ^ 127)
