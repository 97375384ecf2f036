-- ===== src/Vault/RandomnessIx/Attempts.antt =====
-- programs/hybrid_vault/src/instructions/randomness_ix.rs: the randomness of one request, over any number
-- of reveals and new commits.
use launchpad.Prelude.{
  ◌≤◌, ◌≡◌, refl, sym, ap, subst, ◌∙◌, Bool, Bool-cases, inl, inr, true, false, List, [], ◌∷◌, ok,
  ◌>>◌, >>=-eq-ok, arith,
}
use mathlib.Core.List.{Memᴰ}
use launchpad.Bytes.{Bytes, bytes_eq}
use launchpad.Bytes.Laws.{bytes_eq_sound}
use launchpad.Vault.Error.{Outcome}
use launchpad.Vault.State.{Vault, Request, RandLock}
use launchpad.Vault.Chain.{Runtime, RandomnessSnapshot, constraint}
use launchpad.Vault.Randomness.{CommitAccounts, Switchboard, RevealArgs, is_revealed, read}
use launchpad.Vault.Expire.{ExpireOne, ExpireShared, expire_one}
use launchpad.Vault.Expire.Effect.{expire_one_lem}
use launchpad.Vault.RandomnessIx.{
  RevealRandomness, Retried, reveal_constraints, handle_reveal_randomness,
  handle_recommit_randomness,
}
use launchpad.Vault.RandomnessIx.Reveal.{handle_reveal_randomness_lem}
use launchpad.Vault.RandomnessIx.Retry.{Tried, handle_recommit_randomness-Tried}

module _ {W : Type 0} (rt : Runtime W) (sb : Switchboard W) where
  -- One successful reveal or new commit, with any accounts, or any change of the world.
  pub data Attempt : Request → W → Request → W → Type 0 where
    revealed_by :
        {r r' : Request} {w w' : W} (a : RevealRandomness) (v : Vault) (lock : RandLock)
        (args : RevealArgs) (out : Request × W)
        → handle_reveal_randomness rt sb a v lock r w args ≡ ok out
        → out.0 ≡ r'
        → out.1 ≡ w'
        → Attempt r w r' w'
    recommitted :
        {r r' : Request} {w w' : W} (a : CommitAccounts) (key : Bytes) (v : Vault) (out : Retried W)
        → handle_recommit_randomness rt sb a key v r w ≡ ok out
        → out.request ≡ r'
        → out.world ≡ w'
        → Attempt r w r' w'
    elapsed : {r : Request} {w w' : W} → Attempt r w r w'

  -- A run of attempts, with the worlds that they left, the last one first.
  pub data Attempts : Request → W → Request → W → List W → Type 0 where
    no_attempt : {r : Request} {w : W} → Attempts r w r w []
    and_next :
        {r m r' : Request} {w u w' : W} {ws : List W}
        → Attempts r w m u ws
        → Attempt m u r' w'
        → Attempts r w r' w' (w' ∷ ws)

module _ {W : Type 0} (rt : Runtime W) where
  -- The value of a request is the one that its randomness account held in one of the given worlds,
  -- revealed for the last commit.
  pub record Recorded (r : Request) (ws : List W) : Type 0 where
    pub at : W
    pub one_of_them : Memᴰ at ws
    pub snap : RandomnessSnapshot
    pub reads : read rt at r.randomness ≡ ok snap
    pub for_last_commit : is_revealed snap r.seed_slot ≡ true
    pub value : r.value ≡ snap.value

  -- What attempts can do to a request, when they leave the given worlds.
  pub record Final (r r' : Request) (ws : List W) : Type 0 where
    pub same_claim : r' ≡ record r {
      seed_slot = r'.seed_slot;
      deadline_slot = r'.deadline_slot;
      commits = r'.commits;
      oracles = r'.oracles;
      revealed = r'.revealed;
      value = r'.value;
    }
    pub more : r.commits ≤ r'.commits
    pub tried : Tried r → Tried r'
    pub kept : r.revealed ≡ true → r' ≡ r
    pub recorded : r.revealed ≡ false → r'.revealed ≡ true → Recorded r' ws
    pub never_expires :
        (sh : ExpireShared) (e : ExpireOne) (v : Vault) (w : W) (out : Vault × W)
        → r.revealed ≡ true
        → e.request ≡ r'
        → expire_one rt w sh e v ≡ ok out
        → ⊥

  no_both : {P : Type 0} (b : Bool) → b ≡ false → b ≡ true → P
  no_both b f t = cc

  expire_one-revealed :
      (r : Request) (sh : ExpireShared) (e : ExpireOne) (v : Vault) (w : W) (out : Vault × W)
      → r.revealed ≡ true
      → e.request ≡ r
      → expire_one rt w sh e v ≡ ok out
      → ⊥
  expire_one-revealed r sh e v w out h same runs =
      no_both e.request.revealed (expire_one_lem rt w sh e v out runs).0.unrevealed
        (subst (λ (x : Request). x.revealed ≡ true) (sym same) h)

  Final-refl : (r : Request) (ws : List W) → Final r r ws
  Final-refl r ws = record {
    same_claim = refl;
    more = omega arith;
    tried = λ t. t;
    kept = λ h. refl;
    recorded = λ f t. no_both r.revealed f t;
    never_expires = λ sh e v w out h same runs. expire_one-revealed r sh e v w out h same runs;
  }

  Recorded-later : (r : Request) (w : W) (ws : List W) → Recorded r ws → Recorded r (w ∷ ws)
  Recorded-later r w ws x = record {
    at = x.at;
    snap = x.snap;
    one_of_them = Memᴰ.tail x.one_of_them;
    reads = x.reads;
    for_last_commit = x.for_last_commit;
    value = x.value;
  }

  Final-trans :
      (r m r' : Request) (w : W) (ws : List W)
      → Final r m ws
      → Final m r' (w ∷ ws)
      → Final r r' (w ∷ ws)
  Final-trans r m r' w ws a b = record {
    same_claim =
        subst
          (λ (x : Request). r' ≡ record x {
            seed_slot = r'.seed_slot;
            deadline_slot = r'.deadline_slot;
            commits = r'.commits;
            oracles = r'.oracles;
            revealed = r'.revealed;
            value = r'.value;
          })
          a.same_claim b.same_claim;
    more = omega (arith, a.more, b.more);
    tried = λ t. b.tried (a.tried t);
    kept = λ h. b.kept (through h) ∙ a.kept h;
    recorded = λ f t. elim (Bool-cases m.revealed) [
      | inl now ↦
          subst (λ (x : Request). Recorded x (w ∷ ws)) (sym (b.kept now))
            (Recorded-later m w ws (a.recorded f now))
      | inr later ↦ b.recorded later t
    ];
    never_expires = λ sh e v u out h same runs. b.never_expires sh e v u out (through h) same runs;
  }
    where
      through : r.revealed ≡ true → m.revealed ≡ true
      through h = subst (λ (x : Request). x.revealed ≡ true) (sym (a.kept h)) h

second_test :
    (a b : Bool) (rest : Outcome (Unit {0}))
    → (constraint a >> (constraint b >> rest)) ≡ ok tt
    → b ≡ true
second_test a b rest h = ground arith

module _ {W : Type 0} (rt : Runtime W) (sb : Switchboard W) where
  reveal_constraints-randomness :
      (a : RevealRandomness) (v : Vault) (lock : RandLock) (r : Request)
      → reveal_constraints rt sb a v lock r ≡ ok tt
      → r.randomness ≡ a.randomness
  unfolding reveal_constraints
  reveal_constraints-randomness a v lock r h =
      bytes_eq_sound r.randomness a.randomness
        (second_test (bytes_eq r.vault a.vault_key) (bytes_eq r.randomness a.randomness) _ h)

  handle_reveal_randomness-constraints :
      (a : RevealRandomness) (v : Vault) (lock : RandLock) (r : Request) (w : W) (args : RevealArgs)
      (out : Request × W)
      → handle_reveal_randomness rt sb a v lock r w args ≡ ok out
      → r.randomness ≡ a.randomness
  unfolding handle_reveal_randomness
  handle_reveal_randomness-constraints a v lock r w args out h =
      let (u, e, rest) = >>=-eq-ok (reveal_constraints rt sb a v lock r) _ h in
      reveal_constraints-randomness a v lock r e

  reveal-Final :
      (a : RevealRandomness) (v : Vault) (lock : RandLock) (r : Request) (w : W) (args : RevealArgs)
      (out : Request × W) (ws : List W)
      → handle_reveal_randomness rt sb a v lock r w args ≡ ok out
      → Final rt r out.0 (out.1 ∷ ws)
  reveal-Final a v lock r w args out ws h =
      let x = handle_reveal_randomness_lem rt sb a v lock r w args out h in
      let same = handle_reveal_randomness-constraints a v lock r w args out h in
      subst (λ (y : Request). Final rt r y (out.1 ∷ ws)) (sym x.recorded)
        (record {
          same_claim = refl;
          more = omega arith;
          tried = λ t. record {
            room = t.room;
            some_commit = t.some_commit;
            few = t.few;
            distinct = t.distinct;
          };
          kept = λ t. no_both rt r.revealed x.was_unrevealed t;
          recorded = λ f t. record {
            at = out.1;
            snap = x.snap;
            one_of_them = Memᴰ.head refl;
            reads = subst (λ k. read rt out.1 k ≡ ok x.snap) (sym same) x.reads;
            for_last_commit = x.for_this_commit;
            value = refl;
          };
          never_expires = λ sh e v w out t same runs. no_both rt r.revealed x.was_unrevealed t;
        })

  recommit-Final :
      (a : CommitAccounts) (key : Bytes) (v : Vault) (r : Request) (w : W) (out : Retried W)
      (ws : List W)
      → Tried r
      → handle_recommit_randomness rt sb a key v r w ≡ ok out
      → Final rt r out.request ws
  recommit-Final a key v r w out ws t h =
      let (tried, unrevealed, late, few, (seed, m, c)) =
        handle_recommit_randomness-Tried rt sb a key v r w out t h in
      let new = m.same_request in
      let still : out.request.revealed ≡ false =
        ap (λ (x : Request). x.revealed) new ∙ unrevealed in
      record {
        same_claim =
            subst
              (λ (x : Request). x ≡ record r {
                seed_slot = x.seed_slot;
                deadline_slot = x.deadline_slot;
                commits = x.commits;
                oracles = x.oracles;
                revealed = x.revealed;
                value = x.value;
              })
              (sym new) refl;
        more = omega (arith, ap (λ (x : Request). x.commits) new);
        tried = λ t'. tried;
        kept = λ now. no_both rt r.revealed unrevealed now;
        recorded = λ f now. no_both rt out.request.revealed still now;
        never_expires = λ sh e v' w' o now same runs. no_both rt r.revealed unrevealed now;
      }

  Attempt-Final :
      {r r' : Request} {w w' : W} (ws : List W)
      → Tried r
      → Attempt rt sb r w r' w'
      → Final rt r r' (w' ∷ ws)
  Attempt-Final {r} {r'} {w} ws t (revealed_by a v lock args out h e e') =
      subst (λ (u : W). Final rt r r' (u ∷ ws)) e'
        (subst (λ (x : Request). Final rt r x (out.1 ∷ ws)) e
          (reveal-Final a v lock r w args out ws h))
  Attempt-Final {r} {w} {w'} ws t (recommitted a key v out h e e') =
      subst (λ (x : Request). Final rt r x (w' ∷ ws)) e
        (recommit-Final a key v r w out (w' ∷ ws) t h)
  Attempt-Final {r} {w'} ws t elapsed = Final-refl rt r (w' ∷ ws)

  -- Start from a request with at most four distinct oracles, as a new one has, and let any number of
  -- reveals and new commits succeed, with any accounts, and the world change in between. The request is
  -- then the same claim: only the fields of its randomness can differ. Its commits have not become
  -- fewer, and its oracles are again distinct and at most four. If it was not revealed and now is, then
  -- its value is the one that its randomness account held, in a world that one of these attempts left,
  -- revealed for the seed slot of its last commit. If it was revealed, then it has not changed at all,
  -- and no expiry of it succeeds in any state.
  pub Attempts-Final :
      {r r' : Request} {w w' : W} {ws : List W}
      → Attempts rt sb r w r' w' ws
      → Tried r
      → Final rt r r' ws
  Attempts-Final {r} no_attempt t = Final-refl rt r []
  Attempts-Final {r} {r'} {w'} (and_next {m} {ws} before last) t =
      let a = Attempts-Final before t in
      Final-trans rt r m r' w' ws a (Attempt-Final ws (a.tried t) last)
