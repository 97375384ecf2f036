-- ===== src/Vault/Draws/Keeps.antt =====
-- programs/hybrid_vault/src/instructions/settle.rs: a selection or a mint that goes through leaves a valid
-- pool, whatever it was given.
use launchpad.Prelude.{
  ℕ, ◌+◌, ◌<◌, ◌≡◌, refl, sym, subst, ◌∙◌, List, All, Bool-cases, inl, inr, false, not, ok,
  >>=-eq-ok, ok-injective, require-eq-ok, not-true, ltb, ltb→lt, ◌==◌,
}
use launchpad.Bytes.{Bytes}
use launchpad.Vault.Error.{
  no_asset_available, asset_accounting_broken, index_out_of_range, already_minted,
}
use launchpad.Vault.State.{max_merge_per_ix, request_kind_reroll}
use launchpad.Vault.Pool.{
  PoolView, merge, pool_len, incoming_len, pool_swap_remove, pool_push, is_minted, mark_minted,
  total,
}
use launchpad.Vault.Pool.View.{IsValid, incoming}
use launchpad.Vault.Pool.Draw.{total-IsValid, pool_push_lem, pool_swap_remove_lem}
use launchpad.Vault.Pool.Merge.{left_waiting-All, merge_lem}
use launchpad.Vault.Pool.Bitmap.{mark_minted_lem}
use launchpad.Vault.Selection.{request_randomness, uniform_below}
use launchpad.Vault.Draws.{check_backlog, return_hand_in, pick}

-- A valid pool of the same size in which no other asset waits than before.
pub record Kept (p p' : PoolView) : Type 1 where
  pub valid : IsValid p'
  pub cap_same : p'.cap ≡ p.cap
  pub waiting : (P : ℕ × ℕ → Type 0) → All P (incoming p) → All P (incoming p')

pub Kept-trans : (p q r : PoolView) → Kept p q → Kept q r → Kept p r
Kept-trans p q r a b = record {
  valid = b.valid;
  cap_same = b.cap_same ∙ a.cap_same;
  waiting = λ P h. b.waiting P (a.waiting P h);
}

pool_push-room :
    (p : PoolView) (a : ℕ) (p' : PoolView)
    → IsValid p
    → pool_push p a ≡ ok p'
    → (pool_len p + incoming_len p < p.cap) × (a < p.cap)
unfolding pool_push
pool_push-room p a p' w h0 =
    let (t, e1, h1) = >>=-eq-ok (total p) _ h0 in
    let (room, h2) = require-eq-ok (ltb t p.cap) asset_accounting_broken _ h1 in
    let (fits, h3) = require-eq-ok (ltb a p.cap) index_out_of_range _ h2 in
    let same : t ≡ pool_len p + incoming_len p = ok-injective (sym e1 ∙ total-IsValid p w) in
    (subst (λ n. n < p.cap) same (ltb→lt t p.cap room), ltb→lt a p.cap fits)

pool_push-Kept :
    (p : PoolView) (a : ℕ) (p' : PoolView) → IsValid p → pool_push p a ≡ ok p' → Kept p p'
pool_push-Kept p a p' w h =
    let room = pool_push-room p a p' w h in
    let (q, runs, x) = pool_push_lem p w a room.0 room.1 in
    subst (Kept p) (ok-injective (sym runs ∙ h)) (record {
      valid = x.valid;
      cap_same = x.cap_same;
      waiting = λ P k. subst (All P) (sym x.waiting) k;
    })

merge-Kept :
    (p : PoolView) (max_tag max : ℕ) (out : ℕ × PoolView)
    → IsValid p
    → merge p max_tag max ≡ ok out
    → Kept p out.1
merge-Kept p max_tag max out w h =
    let (q, runs, x) = merge_lem p max_tag max w in
    subst (λ (o : ℕ × PoolView). Kept p o.1) (ok-injective (sym runs ∙ h))
      (record {
        valid = x.valid;
        cap_same = x.cap_same;
        waiting =
            λ P k. subst (All P) (sym x.waiting) (left_waiting-All P max max_tag (incoming p) k);
      })

swap_remove-in :
    (p : PoolView) (i : ℕ) (out : ℕ × PoolView) → pool_swap_remove p i ≡ ok out → i < pool_len p
unfolding pool_swap_remove
swap_remove-in p i out h =
    let (small, h1) = require-eq-ok (ltb i (pool_len p)) no_asset_available _ h in
    ltb→lt i (pool_len p) small

pool_swap_remove-Kept :
    (p : PoolView) (i : ℕ) (out : ℕ × PoolView)
    → IsValid p
    → pool_swap_remove p i ≡ ok out
    → Kept p out.1
pool_swap_remove-Kept p i out w h =
    let (q, runs, x) = pool_swap_remove_lem p i w (swap_remove-in p i out h) in
    subst (λ (o : ℕ × PoolView). Kept p o.1) (ok-injective (sym runs ∙ h))
      (record {
        valid = x.valid;
        cap_same = x.cap_same;
        waiting = λ P k. subst (All P) (sym x.waiting) k;
      })

return_hand_in-Kept :
    (p : PoolView) (kind handed_in : ℕ) (p' : PoolView)
    → IsValid p
    → return_hand_in p kind handed_in ≡ ok p'
    → Kept p p'
unfolding return_hand_in
return_hand_in-Kept p kind handed_in p' w h = elim (Bool-cases (kind == request_kind_reroll)) [
  | inl reroll ↦ pool_push-Kept p handed_in p' w (rw reroll at h)
  | inr capture ↦
      subst (Kept p) (ok-injective (rw capture at h))
        (record { valid = w; cap_same = refl; waiting = λ P k. k })
]

pub pick-Kept :
    (hashv : List Bytes → Bytes) (fuel : ℕ) (p : PoolView) (value key : Bytes)
    (seq kind handed_in : ℕ) (out : ℕ × PoolView)
    → IsValid p
    → pick hashv fuel p value key seq kind handed_in ≡ ok out
    → Kept p out.1
unfolding pick
pick-Kept hashv fuel p value key seq kind handed_in out w h0 =
    let (m, e1, h1) = >>=-eq-ok (merge p seq max_merge_per_ix) _ h0 in
    let (u2, e2, h2) = >>=-eq-ok (check_backlog m.1 seq) _ h1 in
    let (u3, h3) = require-eq-ok (ltb 0 (pool_len m.1)) no_asset_available _ h2 in
    let (pos, e4, h4) =
      >>=-eq-ok (uniform_below hashv fuel (request_randomness hashv value key seq) (pool_len m.1)) _
        h3 in
    let (removed, e5, h5) = >>=-eq-ok (pool_swap_remove m.1 pos) _ h4 in
    let (back, e6, h6) = >>=-eq-ok (return_hand_in removed.1 kind handed_in) _ h5 in
    let a = merge-Kept p seq max_merge_per_ix m w e1 in
    let b = pool_swap_remove-Kept m.1 pos removed a.valid e5 in
    let c = return_hand_in-Kept removed.1 kind handed_in back b.valid e6 in
    subst (λ (o : ℕ × PoolView). Kept p o.1) (ok-injective h6)
      (Kept-trans p m.1 back a (Kept-trans m.1 removed.1 back b c))

mark_minted-guards :
    (p : PoolView) (index : ℕ) (p' : PoolView)
    → mark_minted p index ≡ ok p'
    → (index < p.cap) × (is_minted p index ≡ false)
unfolding mark_minted
mark_minted-guards p index p' h0 =
    let (fits, h1) = require-eq-ok (ltb index p.cap) index_out_of_range _ h0 in
    let (never, h2) = require-eq-ok (not (is_minted p index)) already_minted _ h1 in
    (ltb→lt index p.cap fits, not-true (is_minted p index) never)

pub mark_minted-Kept :
    (p : PoolView) (index : ℕ) (p' : PoolView) → IsValid p → mark_minted p index ≡ ok p' → Kept p p'
mark_minted-Kept p index p' w h =
    let guards = mark_minted-guards p index p' h in
    let (q, runs, x) = mark_minted_lem p index w guards.0 guards.1 in
    subst (Kept p) (ok-injective (sym runs ∙ h)) (record {
      valid = x.valid;
      cap_same = x.cap_same;
      waiting = λ P k. subst (All P) (sym x.waiting) k;
    })
