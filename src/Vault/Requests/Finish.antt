-- ===== src/Vault/Requests/Finish.antt =====
-- programs/hybrid_vault/src/instructions/request.rs: what a request leaves in the accounts.
use launchpad.Prelude.{
  ℕ, ◌+◌, ◌-◌, ◌^◌, ◌≤◌, ◌<◌, ◌≡◌, refl, false, true, Bool-cases, inl, inr, ok, ◌∷◌, replicate,
  lt→ltb, leb-true, ◌==◌, arith, if◌then◌else◌,
}
use launchpad.Vault.State.{Vault, request_kind_capture, reveal_timeout_slots}
use launchpad.Vault.Requests.{NewRequest, Taken, count_request, finish_request}
use launchpad.Vault.Settle.Counts.{owed_units}

-- What a new request of a kind does to the accounts.
pub record Requested (v : Vault) (r : NewRequest) (slot : ℕ) (t : Taken) : Type 0 where
  pub number : t.request.seq ≡ v.next_seq
  pub lock_number : t.rand_lock.seq ≡ t.request.seq
  pub next : t.vault.next_seq ≡ v.next_seq + 1
  pub same_queue_front : t.vault.next_settle_seq ≡ v.next_settle_seq
  pub unrevealed : t.request.revealed ≡ false
  pub deadline : t.request.deadline_slot ≡ slot + reveal_timeout_slots
  pub one_more_pending :
      t.vault.pending_captures + t.vault.pending_rerolls
      ≡ v.pending_captures + v.pending_rerolls + 1
  pub owed : owed_units t.vault ≡ owed_units v + (if r.kind == request_kind_capture then 1 else 0)
  pub fees : t.vault.total_fee_lamports ≡ v.total_fee_lamports + r.sol_fee_lamports

module _ (v : Vault) (r : NewRequest) (slot escrow : ℕ) (h1 : slot + reveal_timeout_slots < 2 ^ 64)
    (h2 : v.next_seq + 1 < 2 ^ 64) (h3 : v.total_fee_lamports + r.sol_fee_lamports < 2 ^ 64)
    (h4 : v.pending_captures + 1 < 2 ^ 64) (h5 : v.pending_rerolls + 1 < 2 ^ 64)
    (h6 : (r.kind == request_kind_capture) ≡ false → 1 ≤ v.assets_outside) where
  abbrev base : Vault
  base = record v {
    next_seq = v.next_seq + 1;
    total_fee_lamports = v.total_fee_lamports + r.sol_fee_lamports;
  }

  abbrev taken : Vault → Taken
  taken counted = record {
    vault = counted;
    request = record {
      bump = r.request_bump;
      kind = r.kind;
      vault = r.vault_key;
      seq = v.next_seq;
      user = r.user;
      randomness = r.randomness;
      seed_slot = r.seed_slot;
      deadline_slot = slot + reveal_timeout_slots;
      commits = 1;
      oracles = r.oracle ∷ replicate 3 (replicate 32 0);
      revealed = false;
      value = replicate 32 0;
      handed_in_index = r.handed_in_index;
      mint_escrow_lamports = escrow;
    };
    rand_lock = record { bump = r.lock_bump; vault = r.vault_key; seq = v.next_seq };
  }

  finish_runs :
      (counted : Vault)
      → count_request base r.kind ≡ ok counted
      → finish_request v r slot escrow ≡ ok (taken counted)
  unfolding finish_request
  finish_runs counted e = rw (
    lt→ltb (slot + reveal_timeout_slots) (2 ^ 64) h1,
    lt→ltb (v.next_seq + 1) (2 ^ 64) h2,
    lt→ltb (v.total_fee_lamports + r.sol_fee_lamports) (2 ^ 64) h3,
    e,
  )

  abbrev captured : Vault
  captured = record base { pending_captures = v.pending_captures + 1 }

  abbrev rerolled : Vault
  rerolled = record base {
    pending_rerolls = v.pending_rerolls + 1;
    assets_outside = v.assets_outside - 1;
  }

  count_capture : (r.kind == request_kind_capture) ≡ true → count_request base r.kind ≡ ok captured
  unfolding count_request
  count_capture e = rw (e, lt→ltb (v.pending_captures + 1) (2 ^ 64) h4)

  count_reroll : (r.kind == request_kind_capture) ≡ false → count_request base r.kind ≡ ok rerolled
  unfolding count_request
  count_reroll e =
      rw (e, lt→ltb (v.pending_rerolls + 1) (2 ^ 64) h5, leb-true 1 v.assets_outside (h6 e))

  requested :
      (counted : Vault)
      → counted.next_seq ≡ v.next_seq + 1
      → counted.next_settle_seq ≡ v.next_settle_seq
      → counted.pending_captures + counted.pending_rerolls
        ≡ v.pending_captures + v.pending_rerolls + 1
      → owed_units counted ≡ owed_units v + (if r.kind == request_kind_capture then 1 else 0)
      → counted.total_fee_lamports ≡ v.total_fee_lamports + r.sol_fee_lamports
      → Requested v r slot (taken counted)
  requested counted a b c d e = record {
    number = refl;
    lock_number = refl;
    next = a;
    same_queue_front = b;
    unrevealed = refl;
    deadline = refl;
    one_more_pending = c;
    owed = d;
    fees = e;
  }

  -- If no counter is at the end of its width, and an asset is out where the request is no capture, then
  -- the request is taken: it stands last in the queue, unrevealed, with its lock, and one more draw is
  -- pending. A capture is owed one unit more; a re-roll keeps the unit that it hands in.
  pub finish_request_lem :
      (t : Taken) × (finish_request v r slot escrow ≡ ok t) × Requested v r slot t
  finish_request_lem = elim (Bool-cases (r.kind == request_kind_capture)) [
    | inl capture ↦ (
      taken captured,
      finish_runs captured (count_capture capture),
      requested captured refl refl (omega arith) (rw capture (omega arith)) refl,
    )
    | inr reroll ↦ (
      taken rerolled,
      finish_runs rerolled (count_reroll reroll),
      requested rerolled refl refl (omega arith) (rw reroll (omega (arith, h6 reroll))) refl,
    )
  ]
