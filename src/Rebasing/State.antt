-- ===== src/Rebasing/State.antt =====
-- The keys, the errors and the storage of `RebasingToken`, and the actions on them.
use stellar_tip_contract.Base.{ℕ, ℤ, Bool, Option, ⊤, if◌then◌else◌}
use stellar_tip_contract.Host.{Address}
use stellar_tip_contract.Env.{fits_i128}

pub data RebasingKey : Type 0 where
  shares : Address → RebasingKey
  num den : RebasingKey

pub data RebasingTokenError : Type 0 where
  insufficient_balance not_supported invalid_rebase_factor : RebasingTokenError

unfoldable pub error_code : RebasingTokenError → ℕ
error_code RebasingTokenError.insufficient_balance = 900
error_code RebasingTokenError.not_supported = 901
error_code RebasingTokenError.invalid_rebase_factor = 902

-- Shares are persistent entries, the factor is in instance storage; `none` is an absent key.
pub record RebasingStorage : Type 0 where
  pub shares : Address → Option ℤ
  pub num : Option ℤ
  pub den : Option ℤ

pub record TokenEnv : Type 0 where
  -- the addresses whose `require_auth` succeeds in this call
  pub authorized : Address → Bool
  pub storage : RebasingStorage

-- `token_error` is `panic_with_error!`; the others are raised below the source.
pub data TokenPanic : Type 0 where
  token_error : RebasingTokenError → TokenPanic
  unauthorized overflow : TokenPanic

pub data TokenResult (A : Type 0) : Type 0 where
  returns : A → TokenResult A
  fails : TokenPanic → TokenResult A

abbrev pub TokenAction : Type 0 → Type 0
TokenAction A = TokenEnv → TokenResult (A × TokenEnv)

unfoldable pub pure : {A : Type 0} → A → TokenAction A
pure a e = returns (a, e)

unfoldable pub reads : {A : Type 0} → (RebasingStorage → A) → TokenAction A
reads f e = returns (f e.storage, e)

unfoldable pub writes : (RebasingStorage → RebasingStorage) → TokenAction ⊤
writes f e = returns (tt, record e { storage = f e.storage })

unfoldable pub panic_with_error : {A : Type 0} → RebasingTokenError → TokenAction A
panic_with_error error e = fails (token_error error)

unfoldable pub panic_if : Bool → RebasingTokenError → TokenAction ⊤
panic_if test error e = if test then fails (token_error error) else returns (tt, e)

unfoldable pub require_auth : Address → TokenAction ⊤
require_auth a e = if e.authorized a then returns (tt, e) else fails unauthorized

-- Arithmetic is checked: a result out of range is a panic.
unfoldable pub checked : ℤ → TokenAction ℤ
checked x e = if fits_i128 x then returns (x, e) else fails overflow

infixl 5 ◌>>=◌ ◌>>◌
-- Opening this opens the actions above too.
unfoldable pub ◌>>=◌ : {A B : Type 0} → TokenAction A → (A → TokenAction B) → TokenAction B
unfolding pure reads writes panic_with_error panic_if require_auth checked
◌>>=◌ m f e = elim (m e) [ returns (a, e') ↦ f a e' | fails p ↦ fails p ]

abbrev pub ◌>>◌ : {A B : Type 0} → TokenAction A → TokenAction B → TokenAction B
m >> k = m >>= λ _. k
