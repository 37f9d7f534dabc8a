-- ===== src/Rebasing/Steps.antt =====
-- An equation for each way in which a method of `RebasingToken` goes on.
use stellar_tip_contract.Base.{ℤ, ◌≡◌, refl, Bool, true, false, ⊤, if◌then◌else◌}
use stellar_tip_contract.Host.{Address}
use stellar_tip_contract.Env.{fits_i128}
use stellar_tip_contract.Rebasing.State.{
  RebasingTokenError, RebasingStorage, TokenEnv, TokenResult, TokenAction, returns, fails,
  token_error, unauthorized, overflow, pure, reads, writes, panic_if, require_auth, checked, ◌>>=◌,
}

-- What goes on from a result.
abbrev continue :
    {A B : Type 0} → TokenResult (A × TokenEnv) → (A → TokenAction B) → TokenResult (B × TokenEnv)
continue r f = elim r [ returns (a, e) ↦ f a e | fails p ↦ fails p ]

continue-if :
    {A B : Type 0} (b : Bool) (r s : TokenResult (A × TokenEnv)) (f : A → TokenAction B)
    → continue (if b then r else s) f ≡ (if b then continue r f else continue s f)
continue-if true r s f = refl
continue-if false r s f = refl

module _ {A : Type 0} where
  pub then_reads :
      {B : Type 0} (g : RebasingStorage → B) (f : B → TokenAction A) (e : TokenEnv)
      → (reads g >>= f) e ≡ f (g e.storage) e
  unfolding ◌>>=◌
  then_reads g f e = refl

  pub then_pure :
      {B : Type 0} (b : B) (f : B → TokenAction A) (e : TokenEnv) → (pure b >>= f) e ≡ f b e
  unfolding ◌>>=◌
  then_pure b f e = refl

  pub then_writes :
      (g : RebasingStorage → RebasingStorage) (f : ⊤ → TokenAction A) (e : TokenEnv)
      → (writes g >>= f) e ≡ f tt (record e { storage = g e.storage })
  unfolding ◌>>=◌
  then_writes g f e = refl

  pub then_auth :
      (a : Address) (f : ⊤ → TokenAction A) (e : TokenEnv)
      → (require_auth a >>= f) e ≡ (if e.authorized a then f tt e else fails unauthorized)
  unfolding ◌>>=◌
  then_auth a f e = continue-if (e.authorized a) (returns (tt, e)) (fails unauthorized) f

  pub then_panic_if :
      (test : Bool) (error : RebasingTokenError) (f : ⊤ → TokenAction A) (e : TokenEnv)
      → (panic_if test error >>= f) e ≡ (if test then fails (token_error error) else f tt e)
  unfolding ◌>>=◌
  then_panic_if test error f e = continue-if test (fails (token_error error)) (returns (tt, e)) f

  pub then_checked :
      (x : ℤ) (f : ℤ → TokenAction A) (e : TokenEnv)
      → (checked x >>= f) e ≡ (if fits_i128 x then f x e else fails overflow)
  unfolding ◌>>=◌
  then_checked x f e = continue-if (fits_i128 x) (returns (x, e)) (fails overflow) f

  pub then_bind :
      {B C : Type 0} (m : TokenAction B) (g : B → TokenAction C) (f : C → TokenAction A)
      (e : TokenEnv)
      → ((m >>= g) >>= f) e ≡ (m >>= λ b. g b >>= f) e
  unfolding ◌>>=◌
  then_bind {B} {C} m g f e = go (m e)
    where
      go :
          (r : TokenResult (B × TokenEnv)) → continue (continue r g) f ≡ continue r (λ b. g b >>= f)
      go (returns (b, e')) = refl
      go (fails p) = refl

pub ends_writes :
    (g : RebasingStorage → RebasingStorage) (e : TokenEnv)
    → writes g e ≡ returns (tt, record e { storage = g e.storage })
unfolding writes
ends_writes g e = refl

pub ends_checked :
    (x : ℤ) (e : TokenEnv) → checked x e ≡ (if fits_i128 x then returns (x, e) else fails overflow)
unfolding checked
ends_checked x e = refl

pub ruleset steps = (
  then_pure, ends_writes, ends_checked, then_reads, then_writes, then_auth, then_panic_if,
  then_checked, then_bind,
)
