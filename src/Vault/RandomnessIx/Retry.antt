-- ===== src/Vault/RandomnessIx/Retry.antt =====
-- programs/hybrid_vault/src/instructions/randomness_ix.rs: a request is committed again a bounded number
-- of times, each time with another oracle.
use launchpad.Prelude.{
  ℕ, zero, suc, ◌+◌, ◌≤◌, ◌<◌, ◌≡◌, refl, sym, ap, subst, ◌∙◌, List, [], ◌∷◌, ◌++◌, Bool, true,
  false, not, ok, require, ◌>>◌, >>=-eq-ok, ok-injective, ltb, leb, length, length-set, take, set,
  arith, Bool-cases, inl, inr,
}
use launchpad.Bytes.{Bytes, bytes_eq, has_key}
use launchpad.Bytes.Laws.{bytes_eq_sound, bytes_eq_refl}
use launchpad.Vault.Error.{
  Outcome, randomness_already_revealed, deadline_not_reached, recommits_exhausted, oracle_reused,
}
use launchpad.Vault.State.{Vault, Request, max_recommits, reveal_timeout_slots}
use launchpad.Vault.Chain.{Runtime}
use launchpad.Vault.Randomness.{CommitAccounts, Switchboard, commit_for_request}
use launchpad.Vault.Randomness.Commit.{Committed, commit_for_request-Committed}
use launchpad.Vault.Requests.{NewRequest, Taken, finish_request}
use launchpad.Vault.RandomnessIx.{
  Retried, record_commit, recommit_constraints, check_retry, handle_recommit_randomness,
}

-- No key occurs twice.
abbrev pub Distinct : List Bytes → Type 0
Distinct [] = Unit
Distinct (k ∷ keys) = (has_key keys k ≡ false) × Distinct keys

-- The commits of a request are at most four, each with an oracle of its own.
pub record Tried (r : Request) : Type 0 where
  pub room : length r.oracles ≡ 4
  pub some_commit : 1 ≤ r.commits
  pub few : r.commits ≤ max_recommits + 1
  pub distinct : Distinct (take r.commits r.oracles)

has_key-append :
    (xs : List Bytes) (o x : Bytes)
    → has_key xs x ≡ false
    → bytes_eq o x ≡ false
    → has_key (xs ++ o ∷ []) x ≡ false
unfolding has_key
has_key-append [] o x a b = rw b
has_key-append (y ∷ xs) o x a b = elim (Bool-cases (bytes_eq y x)) [
  | inl e ↦ clash (rw e at a)
  | inr e ↦ rw e (has_key-append xs o x (rw e at a) b)
]
  where
    clash : {P : Type 0} → true ≡ false → P
    clash e = cc

bytes_eq-false_comm : (a b : Bytes) → bytes_eq a b ≡ false → bytes_eq b a ≡ false
bytes_eq-false_comm a b h = elim (Bool-cases (bytes_eq b a)) [
  | inl e ↦ absurd (clash (sym (bytes_eq_refl b) ∙ ap (bytes_eq b) (bytes_eq_sound b a e)) e)
  | inr e ↦ e
]
  where
    same : bytes_eq b a ≡ true → bytes_eq a b ≡ true
    same e = subst (λ x. bytes_eq a x ≡ true) (sym (bytes_eq_sound b a e)) (bytes_eq_refl a)

    clash : true ≡ bytes_eq b a → bytes_eq b a ≡ true → ⊥
    clash _ e = differ (sym (same e) ∙ h)
      where
        differ : true ≡ false → ⊥
        differ d = cc

Distinct-append :
    (xs : List Bytes) (o : Bytes) → Distinct xs → has_key xs o ≡ false → Distinct (xs ++ o ∷ [])
unfolding has_key
Distinct-append [] o d h = (refl, tt)
Distinct-append (x ∷ xs) o d h = elim (Bool-cases (bytes_eq x o)) [
  | inl e ↦ clash (rw e at h)
  | inr e ↦
      (has_key-append xs o x d.0 (bytes_eq-false_comm x o e), Distinct-append xs o d.1 (rw e at h))
]
  where
    clash : {P : Type 0} → true ≡ false → P
    clash e = cc

-- Writing the next item of a list extends the part before it.
take-set :
    (xs : List Bytes) (k : ℕ) (o : Bytes)
    → k < length xs
    → take (suc k) (set xs k o) ≡ take k xs ++ o ∷ []
take-set [] k o h = absurd (omega arith)
take-set (x ∷ xs) zero o h = refl
take-set (x ∷ xs) (suc k) o h = ap (λ l. x ∷ l) (take-set xs k o (omega arith))

-- What a new commit changes of the request and of the vault.
pub record Recommitted (v : Vault) (r : Request) (slot seed_slot : ℕ) (oracle : Bytes) (v' : Vault)
    (r' : Request) : Type 0 where
  pub same_vault : v' ≡ record v { total_recommits = v.total_recommits + 1 }
  pub same_request : r' ≡ record r {
    seed_slot = seed_slot;
    deadline_slot = slot + reveal_timeout_slots;
    oracles = set r.oracles r.commits oracle;
    commits = r.commits + 1;
  }

pub record_commit-Recommitted :
    (v : Vault) (r : Request) (slot seed_slot : ℕ) (oracle : Bytes) (out : Vault × Request)
    → record_commit v r slot seed_slot oracle ≡ ok out
    → Recommitted v r slot seed_slot oracle out.0 out.1
unfolding record_commit
record_commit-Recommitted v r slot seed_slot oracle out h = ground arith

Tried-next :
    (v v' : Vault) (r r' : Request) (slot seed_slot : ℕ) (oracle : Bytes)
    → Tried r
    → r.commits ≤ max_recommits
    → has_key (take r.commits r.oracles) oracle ≡ false
    → Recommitted v r slot seed_slot oracle v' r'
    → Tried r'
Tried-next v v' r r' slot seed_slot oracle t few unused c =
    subst Tried (sym c.same_request) (record {
      room = length-set r.oracles r.commits oracle ∙ t.room;
      some_commit = omega arith;
      few = omega arith;
      distinct =
          subst Distinct (sym (written r.commits (omega (arith, t.room))))
            (Distinct-append (take r.commits r.oracles) oracle t.distinct unused);
    })
  where
    written :
        (k : ℕ)
        → k < length r.oracles
        → take (k + 1) (set r.oracles k oracle) ≡ take k r.oracles ++ oracle ∷ []
    written k h = let e : k + 1 ≡ suc k = omega arith in rw e (take-set r.oracles k oracle h)

retry_guards :
    (later : Outcome (Unit {0})) (revealed : Bool) (deadline slot commits : ℕ) (reused : Bool)
    → (require (not revealed) randomness_already_revealed
        >> (require (ltb deadline slot) deadline_not_reached
            >> (require (leb commits max_recommits) recommits_exhausted
                >> (require (not reused) oracle_reused >> later))))
      ≡ ok tt
    → (revealed ≡ false) × (deadline < slot) × (commits ≤ max_recommits)
retry_guards later revealed deadline slot commits reused h = ground arith

module _ {W : Type 0} (rt : Runtime W) (sb : Switchboard W) where
  check_retry-guards :
      (a : CommitAccounts) (r : Request) (w : W)
      → check_retry rt sb a r w ≡ ok tt
      → (r.revealed ≡ false) × (r.deadline_slot < rt.slot w) × (r.commits ≤ max_recommits)
  unfolding check_retry
  check_retry-guards a r w h =
      retry_guards _ r.revealed r.deadline_slot (rt.slot w) r.commits
        (has_key (take r.commits r.oracles) a.oracle) h

  -- A new commit that succeeds comes after the deadline of a request that is not revealed and has been
  -- committed at most three times. It changes nothing of the vault but the count of such commits, and
  -- nothing of the request but its seed slot, its deadline, its number of commits and the list of their
  -- oracles, which gets the new one. If the oracles of the earlier commits were distinct, and at most
  -- four, then so are all with the new one.
  pub handle_recommit_randomness-Tried :
      (a : CommitAccounts) (vault_key : Bytes) (v : Vault) (r : Request) (w : W) (out : Retried W)
      → Tried r
      → handle_recommit_randomness rt sb a vault_key v r w ≡ ok out
      → Tried out.request
        × (r.revealed ≡ false)
        × (r.deadline_slot < rt.slot w)
        × (r.commits ≤ max_recommits)
        × ((seed_slot : ℕ) × Recommitted v r (rt.slot w) seed_slot a.oracle out.vault out.request
            × Committed rt sb a v.sb_queue (take r.commits r.oracles) w seed_slot out.world)
  unfolding handle_recommit_randomness
  handle_recommit_randomness-Tried a vault_key v r w out t h0 =
      let (u1, e1, h1) = >>=-eq-ok (recommit_constraints rt sb a vault_key r) _ h0 in
      let (u2, e2, h2) = >>=-eq-ok (check_retry rt sb a r w) _ h1 in
      let used = take r.commits r.oracles in
      let (c, e3, h3) =
        >>=-eq-ok (commit_for_request rt sb w a v.sb_queue vault_key r.seq used) _ h2 in
      let (x, e4, h4) = >>=-eq-ok (record_commit v r (rt.slot w) c.0 a.oracle) _ h3 in
      let g = check_retry-guards a r w e2 in
      let k : Committed rt sb a v.sb_queue used w c.0 c.1 =
        commit_for_request-Committed rt sb w a v.sb_queue vault_key r.seq used c e3 in
      let m = record_commit-Recommitted v r (rt.slot w) c.0 a.oracle x e4 in
      subst
        (λ (o : Retried W).
          Tried o.request
          × (r.revealed ≡ false)
          × (r.deadline_slot < rt.slot w)
          × (r.commits ≤ max_recommits)
          × ((seed_slot : ℕ) × Recommitted v r (rt.slot w) seed_slot a.oracle o.vault o.request
              × Committed rt sb a v.sb_queue used w seed_slot o.world))
        (ok-injective h4)
        (
          Tried-next v x.0 r x.1 (rt.slot w) c.0 a.oracle t g.2 k.checked.unused m,
          g.0,
          g.1,
          g.2,
          (c.0, m, k),
        )

-- A request begins with one commit.
pub finish_request-Tried :
    (v : Vault) (r : NewRequest) (slot escrow : ℕ) (t : Taken)
    → finish_request v r slot escrow ≡ ok t
    → Tried t.request
unfolding finish_request has_key
finish_request-Tried v r slot escrow t h = ground arith
