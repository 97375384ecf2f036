-- ===== src/Lib.antt =====
-- A verification library of Launchpad's Solana programs: hybrid_vault, which swaps the tokens of a launch
-- for the NFTs of its collection and back, and hybrid_launch, which creates or registers a launch.
--
-- The programs and their models. Paths are from the repository's root.
--   Prelude, Bytes   words, results, lists and byte buffers that the models share.
--   Launch           programs/hybrid_launch/src: Launch.Constants and Launch.Fees (constants.rs,
--                    needs_barton.rs and the fee functions of validation.rs), Launch.Validation
--                    (validate), Launch.State (state.rs, with the bytes of the account in the
--                    struct's order), Launch.Dbc (dbc.rs), Launch.Create
--                    (instructions/launch.rs), Launch.Register (instructions/register_dbc.rs), with
--                    Launch.Chain for what they use of the chain.
--   Vault.Pool       programs/hybrid_vault/src/pool.rs. A PoolView is the account's bytes and its
--                    capacity, and each method is a function of that name which returns the new view.
--                    Its children prove each operation against two lists: the drawable assets and the
--                    assets that wait.
--   Vault.Selection  selection.rs, the draw of a position from a random value.
--   Vault.State, Vault.Invariants, Vault.Config   state.rs, invariants.rs and config.rs.
--   Vault.Chain      what the programs use of the chain, as a parameter (below).
--   Vault.Accounts   the constraints that the accounts structs share, with the seeds of constants.rs.
--   Vault.Assets     asset_source.rs, core_cpi.rs and instructions/vault_token_ops.rs.
--   Vault.Merkle     merkle.rs and the leaf check of asset_source.rs; Vault.Merkle.Tree has build.
--   Vault.Requests   instructions/request.rs: the guard, the escrow and the writes of a request;
--                    Vault.Requests.Handlers has the two handlers.
--   Vault.Draws, Vault.Settle   instructions/settle.rs: the selection, then the handler.
--   Vault.Expire     instructions/expire.rs: expire_one and the single handler; Vault.Expire.Batch
--                    has the batch handler.
--   Vault.Release    instructions/unwrap.rs.
--   Vault.Opening    graduation.rs and instructions/open_vault.rs.
--   Vault.Setup      instructions/init_vault.rs.
--   Vault.Merging    instructions/admin.rs, the merge of returned assets.
--   Vault.Oracles    select_oracle_in of randomness.rs.
--   Vault.Randomness      the rest of randomness.rs: reading, commit, reveal and initialisation.
--   Vault.RandomnessIx    instructions/randomness_ix.rs; Vault.RandomnessIx.Attempts has the runs of
--                         reveals and new commits of one request.
--   Vault.Sound      the states of a vault and its pool between two instructions.
--   Vault.Lifecycle  a step relation with one constructor per instruction that changes the vault, and
--                    one for what happens outside the program, and the states that steps reach.
--   Vault.FromLaunch the two programs together: the configurations that the launch program writes, as
--                    the vault program reads them.
--
-- How they interact. A handler is a function from a Ledger (the vault account, the bytes of its pool
-- account, and the state W of everything else) to a result: the new Ledger, an error of the program,
-- or an abort. It is composed of the models of the functions that the source calls, in the source's
-- order; the counters that a handler changes are a function of their own (count_settle, count_expire,
-- count_unwrap, count_request), as is a block of guards. The constraints of an accounts struct are a
-- function that the handler calls first. A handler that creates or changes a request returns it too.
-- The final check of a handler reads the vault's tokens in the world that its calls left where the source
-- reloads the account (capture, expiry, release), and in the world of the instruction's start where it does not
-- (settlement, re-roll).
--
-- Parameters. Code that the repository does not hold is the record Runtime of Vault.Chain: the clock,
-- rent, the owners, data and lamports of accounts, the parsers of Core and Switchboard accounts, the
-- derivation of addresses with and without a bump, the program's own id, and the calls of the token,
-- system and Core programs. SHA-256 is the parameter hashv, with no law assumed. The ids of other
-- programs are parameters too, but for the bonding curve's, which the source holds, as it does the
-- platform's wallet. Switchboard's layouts and calls are the record Switchboard of Vault.Randomness,
-- what Anchor and the token program tell of the accounts of a batch is OwnAccounts of
-- Vault.Expire.Batch, and what the launch program uses is LaunchRuntime of Launch.Chain. These
-- records have no law: a call can return any state of the world, or fail.
-- The hypothesis that a token amount is below 2^64 is the width of the field. The theorems about whole
-- lives also assume that the launch's account always reads as its configuration, which the launch
-- program writes once, and the laws of Vault.Lifecycle.Quiet: a transfer or creation of an asset, a
-- transfer of lamports and a commit of randomness do not take tokens out of the vault's token account,
-- for which only the vault's authority can sign. An event outside the program does not either, as the step says.
--
-- Bounds and fuel. Integers are natural numbers; each checked operation of the source tests its own
-- width. A pool's capacity is at most 2^31, far above the 10,000 of a launch, so that its unchecked
-- offsets stay within a word. The resampling loop of uniform_below runs on fuel, the number of blocks
-- that a transaction can pay for; Vault.Selection.Uniform says which fuel is enough. depth_for needs
-- at most 32 rounds for a size of 32 bits, build as many as there are leaves, since each level is
-- shorter than the one before, and an index has at most ten digits.
--
-- Not modelled: the creation and closing of accounts, which Anchor does (but for the closings of a batch
-- of expiries, which the source writes); the seeds in the accounts structs of initialisation, merge
-- and instructions/randomness_ix.rs; the entries of both lib.rs, which call one handler each; the
-- events; minted_popcount, which only the tests call; the test-only graduation verifier; the constants
-- of the mainnet and devnet-e2e builds; the tests, the scripts and the shelved programs.
pub mod Prelude
pub mod Bytes
pub mod Launch
pub mod Vault
