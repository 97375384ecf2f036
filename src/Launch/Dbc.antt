-- ===== src/Launch/Dbc.antt =====
-- programs/hybrid_launch/src/dbc.rs: the readers of the bonding curve's accounts, at fixed offsets.
use launchpad.Prelude.{
  ℕ, ◌+◌, [], ◌∷◌, Bool, not, ◌&&◌, ◌||◌, Option, none, some, ◌==◌, if◌then◌else◌, take, get_or,
  length,
}
use launchpad.Bytes.{Bytes, slice, from_le_bytes, bytes_eq}

abbrev pub dbc_config_discriminator : Bytes
dbc_config_discriminator = 26 ∷ 108 ∷ 14 ∷ 123 ∷ 116 ∷ 230 ∷ 129 ∷ 43 ∷ []

abbrev pub dbc_pool_discriminator : Bytes
dbc_pool_discriminator = 213 ∷ 224 ∷ 5 ∷ 209 ∷ 98 ∷ 69 ∷ 119 ∷ 92 ∷ []

abbrev pub dbc_config_len : ℕ
dbc_config_len = 8 + 1040

abbrev pub dbc_pool_len : ℕ
dbc_pool_len = 8 + 416

abbrev pub dbc_migration_created_pool : ℕ
dbc_migration_created_pool = 3

-- dbcij3LWUppWqq96dh6gJWwBifmcGfLSB5D4DuSMaqN
abbrev pub dbc_program_id : Bytes
dbc_program_id =
    9 ∷ 96 ∷ 12 ∷ 165 ∷ 36 ∷ 247 ∷ 177 ∷ 183 ∷ 214 ∷ 204 ∷ 177 ∷ 195 ∷ 151 ∷ 58 ∷ 160 ∷ 51 ∷ 13 ∷ 25
    ∷ 3 ∷ 218 ∷ 96 ∷ 28 ∷ 201 ∷ 181 ∷ 222 ∷ 227 ∷ 198 ∷ 98 ∷ 180 ∷ 202 ∷ 209 ∷ 73 ∷ []

-- FhVo3mqL8PW5pH5U2CN4XE33DokiyZnUwuGpH2hmHLuM
abbrev pub dbc_pool_authority : Bytes
dbc_pool_authority =
    218 ∷ 99 ∷ 104 ∷ 31 ∷ 114 ∷ 134 ∷ 188 ∷ 200 ∷ 6 ∷ 113 ∷ 158 ∷ 44 ∷ 43 ∷ 80 ∷ 162 ∷ 1 ∷ 87 ∷ 36
    ∷ 59 ∷ 252 ∷ 150 ∷ 104 ∷ 177 ∷ 21 ∷ 32 ∷ 188 ∷ 83 ∷ 132 ∷ 62 ∷ 220 ∷ 219 ∷ 8 ∷ []

-- So11111111111111111111111111111111111111112
abbrev pub wrapped_sol_mint : Bytes
wrapped_sol_mint =
    6 ∷ 155 ∷ 136 ∷ 87 ∷ 254 ∷ 171 ∷ 129 ∷ 132 ∷ 251 ∷ 104 ∷ 127 ∷ 99 ∷ 70 ∷ 24 ∷ 192 ∷ 53 ∷ 218
    ∷ 196 ∷ 57 ∷ 220 ∷ 26 ∷ 235 ∷ 59 ∷ 85 ∷ 152 ∷ 160 ∷ 240 ∷ 0 ∷ 0 ∷ 0 ∷ 0 ∷ 1 ∷ []

abbrev pub dbc_token_type_spl : ℕ
dbc_token_type_spl = 0

abbrev pub dbc_token_authority_immutable : ℕ
dbc_token_authority_immutable = 1

pub record DbcConfig : Type 0 where
  pub quote_mint : Bytes
  pub leftover_receiver : Bytes
  pub token_decimal : ℕ
  pub token_type : ℕ
  pub fixed_token_supply : Bool
  pub token_update_authority : ℕ
  pub migration_quote_threshold : ℕ
  pub pre_migration_token_supply : ℕ
  pub post_migration_token_supply : ℕ

pub record DbcPool : Type 0 where
  pub config : Bytes
  pub creator : Bytes
  pub base_mint : Bytes
  pub base_vault : Bytes
  pub pool_type : ℕ
  pub is_migrated : Bool
  pub migration_progress : ℕ

unfoldable pub graduated : DbcPool → Bool
graduated p = p.is_migrated && (p.migration_progress == dbc_migration_created_pool)

abbrev pub pk : Bytes → ℕ → Bytes
pk d off = slice d off 32

abbrev pub u64_at : Bytes → ℕ → ℕ
u64_at d off = from_le_bytes (slice d off 8)

unfoldable pub parse_config : Bytes → Option DbcConfig
parse_config d =
    if not (length d == dbc_config_len) || not (bytes_eq (take 8 d) dbc_config_discriminator)
    then none
    else some (record {
      quote_mint = pk d 8;
      leftover_receiver = pk d 72;
      token_decimal = get_or d 235 0;
      token_type = get_or d 237 0;
      fixed_token_supply = get_or d 244 0 == 1;
      token_update_authority = get_or d 246 0;
      migration_quote_threshold = u64_at d 264;
      pre_migration_token_supply = u64_at d 344;
      post_migration_token_supply = u64_at d 352;
    })

unfoldable pub parse_pool : Bytes → Option DbcPool
parse_pool d =
    if not (length d == dbc_pool_len) || not (bytes_eq (take 8 d) dbc_pool_discriminator)
    then none
    else some (record {
      config = pk d 72;
      creator = pk d 104;
      base_mint = pk d 136;
      base_vault = pk d 168;
      pool_type = get_or d 304 0;
      is_migrated = get_or d 305 0 == 1;
      migration_progress = get_or d 308 0;
    })

-- The owner's key and the id of the curve's program come with the account's bytes.
unfoldable pub load_config : Bytes → Bytes → Bytes → Option DbcConfig
load_config dbc_program_id owner d =
    if not (bytes_eq owner dbc_program_id) then none else parse_config d

unfoldable pub load_pool : Bytes → Bytes → Bytes → Option DbcPool
load_pool dbc_program_id owner d =
    if not (bytes_eq owner dbc_program_id) then none else parse_pool d
