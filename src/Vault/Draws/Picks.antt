-- ===== src/Vault/Draws/Picks.antt =====
-- programs/hybrid_vault/src/instructions/settle.rs: what the selection picks, and what it leaves.
use launchpad.Prelude.{
  ℕ, ◌+◌, ◌<◌, ◌≡◌, refl, ap, sym, subst, ◌∙◌, List, [], ◌∷◌, ◌++◌, map, length, length-tabulate,
  All, true, Bool-cases, inl, inr, ok, lt→ltb, ◌==◌, if◌then◌else◌, arith,
}
use mathlib.Core.List.{Perm}
use launchpad.Bytes.{Bytes}
use launchpad.Vault.State.{max_merge_per_ix, request_kind_reroll}
use launchpad.Vault.Pool.{PoolView, pool_len, incoming_len, pool_get, pool_swap_remove, is_minted}
use launchpad.Vault.Pool.View.{IsValid, drawable, incoming}
use launchpad.Vault.Pool.Draw.{Removed, pool_swap_remove_lem, pool_push_lem}
use launchpad.Vault.Pool.Merge.{
  Merged, merge_lem, eligible, left_waiting, front_tag_none, front_tag_some,
}
use launchpad.Vault.Selection.{request_randomness, uniform_below}
use launchpad.Vault.Selection.Uniform.{uniform_below-lt}
use launchpad.Vault.Draws.{check_backlog, return_hand_in, pick}

-- The indices that a request may be given: those in the pool, and the waiting ones that came back
-- before it.
abbrev pub candidates : PoolView → ℕ → List ℕ
candidates p seq =
    drawable p ++ map (λ (e : ℕ × ℕ). e.0) (eligible max_merge_per_ix seq (incoming p))

abbrev pub with_hand_in : List ℕ → ℕ → ℕ → List ℕ
with_hand_in rest kind handed_in =
    if kind == request_kind_reroll then rest ++ (handed_in ∷ []) else rest

-- What the selection for request `seq` does. The hand-in joins the pool after the pick.
pub record Picked (p : PoolView) (seq kind handed_in picked : ℕ) (p' : PoolView) : Type 0 where
  pub rest : List ℕ
  pub valid : IsValid p'
  pub cap_same : p'.cap ≡ p.cap
  pub chosen : Perm (candidates p seq) (picked ∷ rest)
  pub drawn : drawable p' ≡ with_hand_in rest kind handed_in
  pub waiting : incoming p' ≡ left_waiting max_merge_per_ix seq (incoming p)
  pub minted : (k : ℕ) → is_minted p' k ≡ is_minted p k

check_backlog-All :
    (p : PoolView) (seq : ℕ)
    → IsValid p
    → All (λ (e : ℕ × ℕ). seq < e.1) (incoming p)
    → check_backlog p seq ≡ ok tt
unfolding check_backlog
check_backlog-All p seq w h = by_entries (incoming p) refl h
  where
    by_entries :
        (xs : List (ℕ × ℕ))
        → incoming p ≡ xs
        → All (λ (e : ℕ × ℕ). seq < e.1) xs
        → check_backlog p seq ≡ ok tt
    by_entries [] e h = rw (check_backlog, front_tag_none p e)
    by_entries (x ∷ xs) e h = rw (check_backlog, front_tag_some p w x xs e, lt→ltb seq x.1 h.0)

-- Every valid pool has counts that are the lengths of its lists.
count : (p : PoolView) → length (drawable p) ≡ pool_len p
count p = length-tabulate _ (pool_len p)

count_waiting : (p : PoolView) → length (incoming p) ≡ incoming_len p
count_waiting p = length-tabulate _ (incoming_len p)

-- After a removal there is room for the hand-in.
return_hand_in_lem :
    (p : PoolView) (kind handed_in : ℕ)
    → IsValid p
    → pool_len p + incoming_len p < p.cap
    → ((kind == request_kind_reroll) ≡ true → handed_in < p.cap)
    → (p' : PoolView) × (return_hand_in p kind handed_in ≡ ok p')
      × IsValid p'
      × (p'.cap ≡ p.cap)
      × (drawable p' ≡ with_hand_in (drawable p) kind handed_in)
      × (incoming p' ≡ incoming p)
      × ((k : ℕ) → is_minted p' k ≡ is_minted p k)
unfolding return_hand_in
return_hand_in_lem p kind handed_in w room hi = elim (Bool-cases (kind == request_kind_reroll)) [
  | inl reroll ↦
      let q = pool_push_lem p w handed_in room (hi reroll) in
      (q.0, rw reroll q.1, q.2.valid, q.2.cap_same, rw reroll q.2.drawn, q.2.waiting, q.2.minted)
  | inr capture ↦ (p, rw capture refl, w, refl, rw capture refl, refl, λ k. refl)
]

module _ (hashv : List Bytes → Bytes) (fuel : ℕ) (p : PoolView) (value key : Bytes)
    (seq kind handed_in pos : ℕ) (w : IsValid p)
    (hi : (kind == request_kind_reroll) ≡ true → handed_in < p.cap)
    (some_candidate : 0 < length (candidates p seq))
    (later : All (λ (e : ℕ × ℕ). seq < e.1) (left_waiting max_merge_per_ix seq (incoming p)))
    (draw : uniform_below hashv fuel
        (request_randomness hashv value key seq)
        (length (candidates p seq))
      ≡ ok pos) where
  abbrev p1 : PoolView
  p1 = (merge_lem p seq max_merge_per_ix w).0

  m :
      Merged p
        (eligible max_merge_per_ix seq (incoming p))
        (left_waiting max_merge_per_ix seq (incoming p))
        p1
  m = (merge_lem p seq max_merge_per_ix w).2

  len : length (candidates p seq) ≡ pool_len p1
  len = ap length (sym m.drawn) ∙ count p1

  pos_in : pos < pool_len p1
  pos_in = subst (λ n. pos < n) len (uniform_below-lt hashv fuel _ _ pos draw)

  abbrev removal :
      (q : PoolView) × (pool_swap_remove p1 pos ≡ ok (pool_get p1 pos, q))
      × Removed p1 (pool_get p1 pos) q
  removal = pool_swap_remove_lem p1 pos m.valid pos_in

  same_cap : removal.0.cap ≡ p.cap
  same_cap = removal.2.cap_same ∙ m.cap_same

  room : pool_len removal.0 + incoming_len removal.0 < removal.0.cap
  room = omega (
    arith,
    removal.2.count,
    removal.2.cap_same,
    m.valid.counted,
    sym (count_waiting removal.0) ∙ ap length removal.2.waiting ∙ count_waiting p1,
  )

  abbrev final :
      (p' : PoolView) × (return_hand_in removal.0 kind handed_in ≡ ok p')
      × IsValid p'
      × (p'.cap ≡ removal.0.cap)
      × (drawable p' ≡ with_hand_in (drawable removal.0) kind handed_in)
      × (incoming p' ≡ incoming removal.0)
      × ((k : ℕ) → is_minted p' k ≡ is_minted removal.0 k)
  final =
      return_hand_in_lem removal.0 kind handed_in removal.2.valid room
        (λ r. omega (arith, same_cap, hi r))

  -- On a valid pool with a candidate, and no eligible asset left waiting by the merge, the selection
  -- succeeds for each draw of the sampling. It picks one of the candidates, which are the assets in
  -- the pool and the waiting ones tagged at most `seq`. The others are drawable after it, followed
  -- by the hand-in of a re-roll, which joins only after the pick; the later assets still wait, and
  -- the minted bits are the same.
  pub pick_lem :
      (picked : ℕ) × (p' : PoolView) × (pick hashv fuel p value key seq kind handed_in
        ≡ ok (picked, p'))
      × Picked p seq kind handed_in picked p'
  unfolding pick
  pick_lem = (
    pool_get p1 pos,
    final.0,
    rw (
      (merge_lem p seq max_merge_per_ix w).1,
      check_backlog-All p1 seq m.valid
          (subst (All (λ (e : ℕ × ℕ). seq < e.1)) (sym m.waiting) later),
      lt→ltb 0 (pool_len p1) (omega (arith, pos_in)),
      subst (λ n. uniform_below hashv fuel (request_randomness hashv value key seq) n ≡ ok pos) len
          draw,
      removal.1,
      final.1,
    ),
    record {
      rest = drawable removal.0;
      valid = final.2;
      cap_same = final.3 ∙ same_cap;
      chosen = subst (λ xs. Perm xs (pool_get p1 pos ∷ drawable removal.0)) m.drawn removal.2.drawn;
      drawn = final.4;
      waiting = final.5 ∙ removal.2.waiting ∙ m.waiting;
      minted = λ k. final.6 k ∙ removal.2.minted k ∙ m.minted k;
    },
  )
