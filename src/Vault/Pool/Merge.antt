-- ===== src/Vault/Pool/Merge.antt =====
-- programs/hybrid_vault/src/pool.rs: `merge` against a specification on lists.
use native.Mathlib.Nat.{mod-lt, mod-eq_of_lt, mod-add-mod, add-zero}
use mathlib.Core.List.{append-nil, append_assoc}
use launchpad.Prelude.{
  ℕ, zero, suc, ◌+◌, ◌-◌, ◌*◌, ◌%◌, ◌≤◌, ◌<◌, ◌≡◌, ◌⊎◌, inl, inr, refl, ap, sym, subst, ◌∙◌, List,
  [], ◌∷◌, ◌++◌, map, none, some, length, tabulate, tabulate-congr, tabulate-cons, All,
  length-tabulate, arith, false, ok, leb, ◌==◌, if◌then◌else◌, Bool-cases,
}
use launchpad.Bytes.{Bytes}
use launchpad.Vault.Pool.Words.{
  wr_u32, wr_u32-AreBytes, length-wr_u32, rd_u32-wr_u32, rd_u32-wr_u32_self,
}
use launchpad.Vault.Pool.View.{
  IsValid, Agrees, Agrees-trans, drawable, incoming, ring_get, pool_len-Agrees, pool_get-Agrees,
  ring_get-Agrees, is_minted-Agrees, drawable-Agrees,
}
use launchpad.Vault.Pool.Draw.{Agrees-wr_u32, pool_push_lem}
use launchpad.Vault.Pool.{
  PoolView, pool_len, incoming_len, incoming_head, pool_get, incoming_front_tag, merge_one,
  merge_loop, merge, pool_push, is_minted, write_u32,
}

-- The oldest waiting entry leaves the ring: the two writes of `merge` before its `pool_push`.
abbrev popped : PoolView → PoolView
popped p = write_u32 (write_u32 p 48 ((incoming_head p + 1) % p.cap)) 52 (incoming_len p - 1)

module _ (p : PoolView) (w : IsValid p) (n : ℕ) (e : incoming_len p ≡ suc n) where
  d1 : Bytes
  d1 = wr_u32 p.d 48 ((incoming_head p + 1) % p.cap)

  d2 : Bytes
  unfolding d1
  d2 = wr_u32 d1 52 (incoming_len p - 1)

  untouched : (lo h : ℕ) → (h ≤ 48) ⊎ (56 ≤ lo) → Agrees lo h p.d d2
  unfolding d2
  untouched lo h (inl q) =
      Agrees-trans lo h p.d d1 d2 (Agrees-wr_u32 lo h p.d 48 _ (inl q))
        (Agrees-wr_u32 lo h d1 52 _ (inl (omega arith)))
  untouched lo h (inr q) =
      Agrees-trans lo h p.d d1 d2 (Agrees-wr_u32 lo h p.d 48 _ (inr (omega arith)))
        (Agrees-wr_u32 lo h d1 52 _ (inr (omega arith)))

  size-popped : length (popped p).d ≡ length p.d
  size-popped = length-wr_u32 _ 52 _ ∙ length-wr_u32 p.d 48 _

  next_in : (incoming_head p + 1) % p.cap < p.cap
  next_in = mod-lt _ w.positive

  less_one : incoming_len p - 1 ≡ n
  less_one = omega (arith, e)

  incoming_len-popped : incoming_len (popped p) ≡ n
  unfolding incoming_len d2
  incoming_len-popped =
      rd_u32-wr_u32_self d1 52 _
        (omega (arith, length-wr_u32 p.d 48 ((incoming_head p + 1) % p.cap), w.size))
        (omega (arith, w.counted, w.small, e))
      ∙ less_one

  incoming_head-popped : incoming_head (popped p) ≡ (incoming_head p + 1) % p.cap
  unfolding incoming_head d2
  incoming_head-popped =
      rd_u32-wr_u32 d1 48 52 _ (inl (omega arith))
      ∙ rd_u32-wr_u32_self p.d 48 _ (omega (arith, w.size)) (omega (arith, next_in, w.small))

  pool_len-popped : pool_len (popped p) ≡ pool_len p
  unfolding d2
  pool_len-popped = pool_len-Agrees p.cap p.d d2 (untouched 44 48 (inl (omega arith)))

  drawable-popped : drawable (popped p) ≡ drawable p
  unfolding d2
  drawable-popped =
      drawable-Agrees p.cap p.d d2 (untouched 44 48 (inl (omega arith)))
        (untouched 64 (64 + 4 * p.cap) (inr (omega arith))) (omega (arith, w.counted))

  is_minted-popped : (k : ℕ) → is_minted (popped p) k ≡ is_minted p k
  unfolding d2
  is_minted-popped k = is_minted-Agrees p.cap p.d d2 k (untouched _ _ (inr (omega arith)))

  pool_get-popped : (i : ℕ) → pool_get (popped p) i ≡ pool_get p i
  unfolding d2
  pool_get-popped i = pool_get-Agrees p.cap p.d d2 i (untouched _ _ (inr (omega arith)))

  ring_get-popped : (j : ℕ) → ring_get (popped p) j ≡ ring_get p j
  unfolding d2
  ring_get-popped j = ring_get-Agrees p.cap p.d d2 j (untouched _ _ (inr (omega arith)))

  -- The entries behind the oldest one.
  abbrev rest : List (ℕ × ℕ)
  rest = tabulate (λ k. ring_get p ((incoming_head p + suc k) % p.cap)) n

  incoming-front : incoming p ≡ ring_get p (incoming_head p) ∷ rest
  incoming-front =
      ap (tabulate (λ k. ring_get p ((incoming_head p + k) % p.cap))) e
      ∙ tabulate-cons (λ k. ring_get p ((incoming_head p + k) % p.cap)) n
      ∙ ap (λ j. ring_get p j ∷ rest) at_head
    where
      at_head : (incoming_head p + 0) % p.cap ≡ incoming_head p
      at_head = rw (add-zero (incoming_head p)) (mod-eq_of_lt w.head_in)

  entry-popped :
      (k : ℕ)
      → ring_get (popped p) ((incoming_head (popped p) + k) % p.cap)
        ≡ ring_get p ((incoming_head p + suc k) % p.cap)
  entry-popped k =
      ring_get-popped ((incoming_head (popped p) + k) % p.cap)
      ∙ ap (ring_get p) (
          ap (λ h. (h + k) % p.cap) incoming_head-popped
          ∙ mod-add-mod (incoming_head p + 1) p.cap k
          ∙ ap (λ x. x % p.cap) shift)
    where
      shift : incoming_head p + 1 + k ≡ incoming_head p + suc k
      shift = omega arith

  incoming-popped : incoming (popped p) ≡ rest
  incoming-popped =
      ap (tabulate (λ k. ring_get (popped p) ((incoming_head (popped p) + k) % p.cap)))
        incoming_len-popped
      ∙ tabulate-congr _ (λ k. ring_get p ((incoming_head p + suc k) % p.cap)) n
          (λ k _. entry-popped k)

  ring_in-front : All (λ (x : ℕ × ℕ). x.0 < p.cap) (ring_get p (incoming_head p) ∷ rest)
  ring_in-front = subst (All (λ (x : ℕ × ℕ). x.0 < p.cap)) incoming-front w.ring_in

  popped-IsValid : IsValid (popped p)
  popped-IsValid = record {
    size = size-popped ∙ w.size;
    bytes = wr_u32-AreBytes _ 52 _ (wr_u32-AreBytes p.d 48 _ w.bytes);
    positive = w.positive;
    small = w.small;
    counted = omega (arith, incoming_len-popped, pool_len-popped, w.counted, e);
    head_in = omega (arith, incoming_head-popped, next_in);
    slots_in = λ i lt. rw (pool_get-popped i) (w.slots_in i (omega (arith, pool_len-popped)));
    ring_in = subst (All (λ (x : ℕ × ℕ). x.0 < p.cap)) (sym incoming-popped) ring_in-front.1;
  }

-- The specification of `merge` on the waiting entries: those that it takes, oldest first, while
-- their tags are at most `max_tag`, and those that it leaves.
unfoldable pub eligible : ℕ → ℕ → List (ℕ × ℕ) → List (ℕ × ℕ)
eligible zero max_tag xs = []
eligible (suc max) max_tag [] = []
eligible (suc max) max_tag (x ∷ xs) = if leb x.1 max_tag then x ∷ eligible max max_tag xs else []

unfoldable pub left_waiting : ℕ → ℕ → List (ℕ × ℕ) → List (ℕ × ℕ)
left_waiting zero max_tag xs = xs
left_waiting (suc max) max_tag [] = []
left_waiting (suc max) max_tag (x ∷ xs) =
    if leb x.1 max_tag then left_waiting max max_tag xs else x ∷ xs

-- What stays waiting was waiting.
pub left_waiting-All :
    (P : ℕ × ℕ → Type 0) (rounds max_tag : ℕ) (xs : List (ℕ × ℕ))
    → All P xs
    → All P (left_waiting rounds max_tag xs)
unfolding left_waiting
left_waiting-All P zero max_tag xs h = h
left_waiting-All P (suc rounds) max_tag [] h = h
left_waiting-All P (suc rounds) max_tag (x ∷ xs) h = elim (Bool-cases (leb x.1 max_tag)) [
  | inl e ↦ rw e (left_waiting-All P rounds max_tag xs h.1)
  | inr e ↦ rw e h
]

-- What moving the entries `moved` to the pool does, with `left` still waiting.
pub record Merged (p : PoolView) (moved left : List (ℕ × ℕ)) (p' : PoolView) : Type 0 where
  pub valid : IsValid p'
  pub cap_same : p'.cap ≡ p.cap
  pub drawn : drawable p' ≡ drawable p ++ map (λ (x : ℕ × ℕ). x.0) moved
  pub waiting : incoming p' ≡ left
  pub minted : (k : ℕ) → is_minted p' k ≡ is_minted p k
  pub header : Agrees 0 44 p.d p'.d

Merged-none : (p : PoolView) → IsValid p → Merged p [] (incoming p) p
Merged-none p w = record {
  valid = w;
  cap_same = refl;
  drawn = sym (append-nil (drawable p));
  waiting = refl;
  minted = λ k. refl;
  header = λ o n l h. refl;
}

Merged-trans :
    (p q r : PoolView) (x : ℕ × ℕ) (xs ys zs : List (ℕ × ℕ))
    → Merged p (x ∷ []) ys q
    → Merged q xs zs r
    → Merged p (x ∷ xs) zs r
Merged-trans p q r x xs ys zs a b = record {
  valid = b.valid;
  cap_same = b.cap_same ∙ a.cap_same;
  drawn =
      b.drawn
      ∙ ap (λ (l : List ℕ). l ++ map (λ (y : ℕ × ℕ). y.0) xs) a.drawn
      ∙ append_assoc (drawable p) (x.0 ∷ []) (map (λ (y : ℕ × ℕ). y.0) xs);
  waiting = b.waiting;
  minted = λ k. b.minted k ∙ a.minted k;
  header = Agrees-trans 0 44 p.d q.d r.d a.header b.header;
}

-- The number of waiting entries, read off their list.
incoming_len-length :
    (p : PoolView) (xs : List (ℕ × ℕ)) → incoming p ≡ xs → incoming_len p ≡ length xs
incoming_len-length p xs e =
    sym (length-tabulate (λ k. ring_get p ((incoming_head p + k) % p.cap)) (incoming_len p))
    ∙ ap length e

-- The front tag is the tag of the first waiting entry.
pub front_tag_none : (p : PoolView) → incoming p ≡ [] → incoming_front_tag p ≡ none
unfolding incoming_front_tag
front_tag_none p e = rw (incoming_len-length p [] e)

suc-eq-zero : (n : ℕ) → (suc n == 0) ≡ false
suc-eq-zero n = ground arith

cons-head : {x y : ℕ × ℕ} {xs ys : List (ℕ × ℕ)} → x ∷ xs ≡ y ∷ ys → x ≡ y
cons-head e = cc

cons-tail : {x y : ℕ × ℕ} {xs ys : List (ℕ × ℕ)} → x ∷ xs ≡ y ∷ ys → xs ≡ ys
cons-tail e = cc

module _ (p : PoolView) (w : IsValid p) (x : ℕ × ℕ) (xs : List (ℕ × ℕ))
    (e : incoming p ≡ x ∷ xs) where
  some_wait : incoming_len p ≡ suc (length xs)
  some_wait = incoming_len-length p (x ∷ xs) e

  front_entry : ring_get p (incoming_head p) ≡ x
  front_entry = cons-head (sym (incoming-front p w (length xs) some_wait) ∙ e)

  rest_entries : rest p w (length xs) some_wait ≡ xs
  rest_entries = cons-tail (sym (incoming-front p w (length xs) some_wait) ∙ e)

  pub front_tag_some : incoming_front_tag p ≡ some x.1
  unfolding incoming_front_tag ring_get
  front_tag_some =
      rw (some_wait, suc-eq-zero (length xs)) (ap (λ (y : ℕ × ℕ). some y.1) front_entry)

  room : pool_len (popped p) + incoming_len (popped p) < p.cap
  room = omega (
    arith,
    pool_len-popped p w (length xs) some_wait,
    incoming_len-popped p w (length xs) some_wait,
    w.counted,
    some_wait,
  )

  in_range : x.0 < p.cap
  in_range =
      subst (λ (y : ℕ × ℕ). y.0 < p.cap) front_entry (ring_in-front p w (length xs) some_wait).0

  merge_one_lem : (p' : PoolView) × (merge_one p ≡ ok p') × Merged p (x ∷ []) xs p'
  unfolding merge_one ring_get d1 d2
  merge_one_lem =
      let pushed =
        pool_push_lem (popped p) (popped-IsValid p w (length xs) some_wait) x.0 room in_range in
      (
        pushed.0,
        ap (λ (y : ℕ × ℕ). pool_push (popped p) y.0) front_entry ∙ pushed.1,
        record {
          valid = pushed.2.valid;
          cap_same = pushed.2.cap_same;
          drawn =
              pushed.2.drawn
              ∙ ap (λ (l : List ℕ). l ++ (x.0 ∷ [])) (drawable-popped p w (length xs) some_wait);
          waiting = pushed.2.waiting ∙ incoming-popped p w (length xs) some_wait ∙ rest_entries;
          minted = λ k. pushed.2.minted k ∙ is_minted-popped p w (length xs) some_wait k;
          header =
              Agrees-trans 0 44 p.d (popped p).d pushed.0.d
                (untouched p w (length xs) some_wait 0 44 (inl (omega arith))) pushed.2.header;
        },
      )

no_offset : (a : ℕ) → 0 + a ≡ a
no_offset a = omega arith

count_one : (a b : ℕ) → a + 1 + b ≡ a + suc b
count_one a b = omega arith

-- The loop takes exactly the eligible entries, in order, and counts them.
merge_loop_lem :
    (rounds moved max_tag : ℕ) (p : PoolView) (xs : List (ℕ × ℕ))
    → IsValid p
    → incoming p ≡ xs
    → (p' : PoolView) × (merge_loop rounds moved max_tag p
        ≡ ok (moved + length (eligible rounds max_tag xs), p'))
      × Merged p (eligible rounds max_tag xs) (left_waiting rounds max_tag xs) p'
unfolding merge_loop eligible left_waiting
merge_loop_lem zero moved max_tag p xs w e = (
  p,
  ap (λ (n : ℕ). ok (n, p)) (sym (add-zero moved)),
  subst (λ (l : List (ℕ × ℕ)). Merged p [] l p) e (Merged-none p w),
)
merge_loop_lem (suc rounds) moved max_tag p [] w e = (
  p,
  rw (front_tag_none p e, merge_loop, add-zero moved),
  subst (λ (l : List (ℕ × ℕ)). Merged p [] l p) e (Merged-none p w),
)
merge_loop_lem (suc rounds) moved max_tag p (x ∷ xs) w e = elim (Bool-cases (leb x.1 max_tag)) [
  | inl fits ↦
      (let one = merge_one_lem p w x xs e in
        let more = merge_loop_lem rounds (moved + 1) max_tag one.0 xs one.2.valid one.2.waiting in
        (
          more.0,
          rw (front_tag_some p w x xs e, fits, merge_loop, one.1)
              (more.1
                ∙ ap (λ (n : ℕ). ok (n, more.0))
                    (count_one moved (length (eligible rounds max_tag xs)))),
          rw fits (
              Merged-trans p one.0 more.0 x (eligible rounds max_tag xs) xs
                (left_waiting rounds max_tag xs) one.2 more.2),
        ))
  | inr late ↦ (
    p,
    rw (front_tag_some p w x xs e, late, merge_loop, add-zero moved),
    rw late (subst (λ (l : List (ℕ × ℕ)). Merged p [] l p) e (Merged-none p w)),
  )
]

-- On a valid pool `merge` succeeds. It moves to the pool the waiting entries whose tags are at most
-- `max_tag`, oldest first, up to the first later one and at most `max`; it returns their number, leaves
-- the others waiting in order, and keeps the pool valid and the minted bits.
pub merge_lem :
    (p : PoolView) (max_tag max : ℕ)
    → IsValid p
    → (p' : PoolView) × (merge p max_tag max ≡ ok (length (eligible max max_tag (incoming p)), p'))
      × Merged p (eligible max max_tag (incoming p)) (left_waiting max max_tag (incoming p)) p'
unfolding merge
merge_lem p max_tag max w =
    let r = merge_loop_lem max 0 max_tag p (incoming p) w refl in
    (
      r.0,
      r.1 ∙ ap (λ (n : ℕ). ok (n, r.0)) (no_offset (length (eligible max max_tag (incoming p)))),
      r.2,
    )
