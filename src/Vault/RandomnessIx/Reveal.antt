-- ===== src/Vault/RandomnessIx/Reveal.antt =====
-- programs/hybrid_vault/src/instructions/randomness_ix.rs: a reveal records Switchboard's value, once.
use launchpad.Prelude.{
  [], ◌∷◌, ◌≡◌, refl, subst, true, false, not, ok, >>=-eq-ok, ok-injective, require-eq-ok, not-true,
}
use launchpad.Bytes.{Bytes}
use launchpad.Vault.Error.{randomness_already_revealed, randomness_not_revealed}
use launchpad.Vault.State.{Vault, Request, RandLock}
use launchpad.Vault.Chain.{Runtime, RandomnessSnapshot}
use launchpad.Vault.Randomness.{Switchboard, RevealArgs, is_revealed, read, reveal}
use launchpad.Vault.RandomnessIx.{
  RevealRandomness, reveal_constraints, check_pending, handle_reveal_randomness,
}

-- What a reveal that succeeds has done.
pub record Revealed {W : Type 0} (rt : Runtime W) (randomness : Bytes) (request request' : Request)
    (w' : W) : Type 0 where
  pub was_unrevealed : request.revealed ≡ false
  pub snap : RandomnessSnapshot
  pub reads : read rt w' randomness ≡ ok snap
  pub for_this_commit : is_revealed snap request.seed_slot ≡ true
  pub recorded : request' ≡ record request { revealed = true; value = snap.value }

module _ {W : Type 0} (rt : Runtime W) (sb : Switchboard W) where
  -- A reveal that succeeds was the request's first. It changes nothing of the request but to record
  -- that it is revealed, and the value that the randomness account then holds; the account is revealed
  -- for the seed slot of the request's last commit.
  pub handle_reveal_randomness_lem :
      (a : RevealRandomness) (v : Vault) (lock : RandLock) (request : Request) (w : W)
      (args : RevealArgs) (out : Request × W)
      → handle_reveal_randomness rt sb a v lock request w args ≡ ok out
      → Revealed rt a.randomness request out.0 out.1
  unfolding handle_reveal_randomness
  handle_reveal_randomness_lem a v lock request w args out h0 =
      let (u1, e1, h1) = >>=-eq-ok (reveal_constraints rt sb a v lock request) _ h0 in
      let (fresh, h2) = require-eq-ok (not request.revealed) randomness_already_revealed _ h1 in
      let (u3, e3, h3) = >>=-eq-ok (check_pending rt sb w a.randomness request.seed_slot) _ h2 in
      let (w1, e4, h4) =
        >>=-eq-ok
          (reveal rt sb w
            (a.randomness ∷ a.sb_oracle ∷ a.sb_queue ∷ a.sb_stats ∷ a.randomness_authority ∷ a.payer
              ∷ a.slot_hashes ∷ a.system_program ∷ a.sb_reward_escrow ∷ a.token_program
              ∷ a.wrapped_sol_mint ∷ a.sb_program_state ∷ [])
            args a.switchboard_program)
          _ h3 in
      let (snap, e5, h5) = >>=-eq-ok (read rt w1 a.randomness) _ h4 in
      let (done, h6) =
        require-eq-ok (is_revealed snap request.seed_slot) randomness_not_revealed _ h5 in
      subst (λ (o : Request × W). Revealed rt a.randomness request o.0 o.1) (ok-injective h6)
        (record {
          was_unrevealed = not-true request.revealed fresh;
          snap = snap;
          reads = e5;
          for_this_commit = done;
          recorded = refl;
        })
