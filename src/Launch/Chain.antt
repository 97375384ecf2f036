-- ===== src/Launch/Chain.antt =====
-- What the launch program uses of the chain: the clock, the rent, the accounts' owners, data and
-- lamports, the address of an associated token account, the parsers of the token program's accounts, and
-- the calls of the system, token and associated-token programs. `W` is the state of everything outside
-- the launch's own configuration. A call that fails aborts the transaction.
use launchpad.Prelude.{ℕ, ℤ, Bool, Option, unwrap_option, if◌then◌else◌, ok, abort}
use launchpad.Bytes.{Bytes}
use launchpad.Launch.Error.{Outcome}

-- What the program reads of a mint of the token program, and of a token account.
pub record Mint : Type 0 where
  pub supply : ℕ
  pub decimals : ℕ
  pub mint_authority : Option Bytes
  pub freeze_authority : Option Bytes

pub record TokenAccount : Type 0 where
  pub owner : Bytes
  pub mint : Bytes
  pub amount : ℕ
  pub delegate : Option Bytes
  pub close_authority : Option Bytes

pub record LaunchRuntime (W : Type 0) : Type 0 where
  pub unix_timestamp : W → ℤ
  pub minimum_balance : W → ℕ → ℕ
  pub owner_of : W → Bytes → Bytes
  pub data_of : W → Bytes → Bytes
  pub is_executable : W → Bytes → Bool
  pub lamports_of : W → Bytes → ℕ
  pub system_program_id : Bytes
  pub spl_token_program_id : Bytes
  -- owner, mint, token program
  pub associated_token_address : Bytes → Bytes → Bytes → Bytes
  pub buffer_authority : Bytes
  -- `spl_token::state::Mint::LEN`
  pub mint_space : ℕ
  pub parse_mint : Bytes → Option Mint
  pub parse_token_account : Bytes → Option TokenAccount
  -- from, to, lamports, space, owner
  pub create_account : W → Bytes → Bytes → ℕ → ℕ → Bytes → Option W
  -- from, to, lamports
  pub system_transfer : W → Bytes → Bytes → ℕ → Option W
  pub allocate : W → Bytes → ℕ → Option W
  pub assign : W → Bytes → Bytes → Option W
  -- mint, decimals, mint authority, with no freeze authority
  pub initialize_mint2 : W → Bytes → ℕ → Bytes → Option W
  -- payer, address, owner, mint
  pub create_associated : W → Bytes → Bytes → Bytes → Bytes → Option W
  pub create_associated_idempotent : W → Bytes → Bytes → Bytes → Bytes → Option W
  -- mint, to, authority, amount
  pub mint_to : W → Bytes → Bytes → Bytes → ℕ → Option W
  -- mint, current authority: `AuthorityType::MintTokens` becomes `None`
  pub revoke_mint_authority : W → Bytes → Bytes → Option W

-- The result of a call, or of a parser of Anchor's, propagated with `?`.
abbrev pub invoke {ℓ} : {A : Type ℓ} → Option A → Outcome A
invoke = unwrap_option

-- A constraint of an accounts struct that has no error of the program's own.
abbrev pub constraint : Bool → Outcome (Unit {0})
constraint b = if b then ok tt else abort
