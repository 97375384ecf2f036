-- ===== src/Vault/Config/Exit.antt =====
-- programs/hybrid_vault/src/config.rs: the exit reader against the layout of the account.
use launchpad.Prelude.{
  ℕ, ◌^◌, ◌≤◌, ◌<◌, ◌≡◌, refl, ap, sym, ◌∙◌, [], ◌∷◌, ◌++◌, length, length-append, List, concat,
  length-concat, i64_bits, take, drop, ok, Bool, ok_or, require, ◌>>=◌, ◌>>◌, ◌&&◌, ltb, leb,
  lt→ltb, leb-true, arith, subst,
}
use launchpad.Bytes.{Bytes, slice, to_le_bytes, from_le_bytes, bytes_eq}
use launchpad.Bytes.Laws.{bytes_eq_refl, from_le_bytes-to_le_bytes, length-to_le_bytes}
use launchpad.Launch.State.{LaunchConfig, fields, account_data}
use launchpad.Vault.Error.{unsupported_launch_config}
use launchpad.Vault.Config.{try_u32, ExitView, exit_view_in, Econ, econ}

-- An account split where the exit reader reads: the discriminator, what stands before `ratio_base`, the
-- two fields, and everything after them.
abbrev account : Bytes → Bytes → ℕ → ℕ → Bytes → Bytes
account discriminator front ratio_base collection_size tail =
    discriminator
    ++ (front ++ (to_le_bytes 8 ratio_base ++ (to_le_bytes 8 collection_size ++ tail)))

drop-append : (xs ys : Bytes) → drop (length xs) (xs ++ ys) ≡ ys
drop-append [] ys = refl
drop-append (x ∷ xs) ys = drop-append xs ys

take-append : (xs ys : Bytes) → take (length xs) (xs ++ ys) ≡ xs
take-append [] ys = refl
take-append (x ∷ xs) ys = ap (λ t. x ∷ t) (take-append xs ys)

-- The field that stands behind `xs`.
field_at :
    (xs ys zs : Bytes) (o n : ℕ) → length xs ≡ o → length ys ≡ n → slice (xs ++ (ys ++ zs)) o n ≡ ys
field_at xs ys zs o n e f =
    rw (← e, ← f) (ap (take (length ys)) (drop-append xs (ys ++ zs)) ∙ take-append ys zs)

assoc : (xs ys zs : Bytes) → (xs ++ ys) ++ zs ≡ xs ++ (ys ++ zs)
assoc [] ys zs = refl
assoc (x ∷ xs) ys zs = ap (λ t. x ∷ t) (assoc xs ys zs)

module _ (discriminator front tail : Bytes) (ratio size : ℕ) (hd : length discriminator ≡ 8)
    (hf : length front ≡ 149) (ht : 48 ≤ length tail) (hr : ratio < 2 ^ 64)
    (hs : size < 2 ^ 64) where
  abbrev acc : Bytes
  acc = account discriminator front ratio size tail

  read_ratio : from_le_bytes (slice acc 157 8) ≡ ratio
  read_ratio =
      ap (λ d. from_le_bytes (slice d 157 8))
        (sym (assoc discriminator front (to_le_bytes 8 ratio ++ (to_le_bytes 8 size ++ tail))))
      ∙ ap from_le_bytes (
          field_at (discriminator ++ front) (to_le_bytes 8 ratio) (to_le_bytes 8 size ++ tail) 157 8
            (omega (arith, length-append discriminator front)) (length-to_le_bytes 8 ratio))
      ∙ from_le_bytes-to_le_bytes 8 ratio (omega arith)

  read_size : from_le_bytes (slice acc 165 8) ≡ size
  read_size =
      ap (λ d. from_le_bytes (slice d 165 8))
        (sym (assoc discriminator front (to_le_bytes 8 ratio ++ (to_le_bytes 8 size ++ tail)))
          ∙ sym (assoc (discriminator ++ front) (to_le_bytes 8 ratio) (to_le_bytes 8 size ++ tail)))
      ∙ ap from_le_bytes (
          field_at ((discriminator ++ front) ++ to_le_bytes 8 ratio) (to_le_bytes 8 size) tail 165 8
            (omega (
              arith,
              length-append discriminator front,
              length-append (discriminator ++ front) (to_le_bytes 8 ratio),
              length-to_le_bytes 8 ratio,
            ))
            (length-to_le_bytes 8 size))
      ∙ from_le_bytes-to_le_bytes 8 size (omega arith)

  acc_size : 221 ≤ length acc
  acc_size = omega (
    arith,
    length-append discriminator (front ++ (to_le_bytes 8 ratio ++ (to_le_bytes 8 size ++ tail))),
    length-append front (to_le_bytes 8 ratio ++ (to_le_bytes 8 size ++ tail)),
    length-append (to_le_bytes 8 ratio) (to_le_bytes 8 size ++ tail),
    length-append (to_le_bytes 8 size) tail,
    length-to_le_bytes 8 ratio,
    length-to_le_bytes 8 size,
  )

  acc_starts : take 8 acc ≡ discriminator
  acc_starts =
      subst (λ n. take n acc ≡ discriminator) hd
        (take-append discriminator (front ++ (to_le_bytes 8 ratio ++ (to_le_bytes 8 size ++ tail))))

  -- Whatever the other fields are, the exit reader gets the two fields that it needs.
  pub exit_view_reads :
      0 < ratio
      → 0 < size
      → size < 2 ^ 32
      → exit_view_in discriminator acc ≡ ok (record { ratio_base = ratio; collection_size = size })
  unfolding exit_view_in
  exit_view_reads pr ps small = rw (
    leb-true 221 (length acc) acc_size,
    acc_starts,
    bytes_eq_refl discriminator,
    read_ratio,
    read_size,
    lt→ltb size (2 ^ 32) small,
    lt→ltb 0 ratio pr,
    lt→ltb 0 size ps,
  )

abbrev pub view_of : Econ → ExitView
view_of e = record { ratio_base = e.ratio_base; collection_size = e.collection_size }

-- What `econ` accepted: the two fields are in range.
pub econ-ok :
    (w : Bytes) (cfg : LaunchConfig) (e : Econ)
    → econ w cfg ≡ ok e
    → (0 < cfg.ratio_base)
      × (0 < cfg.collection_size)
      × (cfg.collection_size ≤ 10_000)
      × (view_of e ≡ record { ratio_base = cfg.ratio_base; collection_size = cfg.collection_size })
unfolding econ
econ-ok w cfg e h = ground arith

-- The keys of a configuration have the width of a key, and its ratio that of a word.
pub record HasWidths (c : LaunchConfig) : Type 0 where
  pub creator : length c.creator ≡ 32
  pub mint : length c.mint ≡ 32
  pub launch_destination : length c.launch_destination ≡ 32
  pub launch_vault : length c.launch_vault ≡ 32
  pub fee_recipient : length c.fee_recipient ≡ 32
  pub ratio : c.ratio_base < 2 ^ 64

concat-append : (xss yss : List Bytes) → concat (xss ++ yss) ≡ concat xss ++ concat yss
concat-append [] yss = refl
concat-append (xs ∷ xss) yss =
    ap (λ t. xs ++ t) (concat-append xss yss) ∙ sym (assoc xs (concat xss) (concat yss))

-- The fields before `ratio_base`, and those from `max_tokens_in_nft_form` on.
abbrev front_fields : LaunchConfig → List Bytes
front_fields c =
    to_le_bytes 1 c.version
    ∷ to_le_bytes 1 c.bump
    ∷ to_le_bytes 1 c.mint_authority_bump
    ∷ c.creator
    ∷ c.mint
    ∷ c.launch_destination
    ∷ c.launch_vault
    ∷ to_le_bytes 1 c.launch_vault_bump
    ∷ to_le_bytes 1 c.decimals
    ∷ to_le_bytes 8 c.total_supply_base
    ∷ to_le_bytes 8 c.ratio_whole_tokens
    ∷ []

front_size : (c : LaunchConfig) → HasWidths c → length (concat (front_fields c)) ≡ 149
front_size c k = omega (
  arith,
  length-concat (front_fields c),
  length-to_le_bytes 1 c.version,
  length-to_le_bytes 1 c.bump,
  length-to_le_bytes 1 c.mint_authority_bump,
  k.creator,
  k.mint,
  k.launch_destination,
  k.launch_vault,
  length-to_le_bytes 1 c.launch_vault_bump,
  length-to_le_bytes 1 c.decimals,
  length-to_le_bytes 8 c.total_supply_base,
  length-to_le_bytes 8 c.ratio_whole_tokens,
)

back_size :
    (c : LaunchConfig) (rest : List Bytes)
    → HasWidths c
    → 48
      ≤ length (
          concat (
            to_le_bytes 8 c.max_tokens_in_nft_form
            ∷ to_le_bytes 8 c.fee_lamports
            ∷ c.fee_recipient
            ∷ rest))
back_size c rest k = omega (
  arith,
  length-concat (
      to_le_bytes 8 c.max_tokens_in_nft_form
      ∷ to_le_bytes 8 c.fee_lamports
      ∷ c.fee_recipient
      ∷ rest),
  length-to_le_bytes 8 c.max_tokens_in_nft_form,
  length-to_le_bytes 8 c.fee_lamports,
  k.fee_recipient,
)

-- What a capture is priced with is what a release pays. If the typed reader accepts a configuration
-- whose keys and ratio have their widths, then the exit reader reads the same ratio and size from the
-- bytes of its account, which are the discriminator and the fields in the order of the struct; and also
-- when a later version appends any fields.
pub exit_view-econ :
    (w discriminator : Bytes) (later : List Bytes) (cfg : LaunchConfig) (e : Econ)
    → length discriminator ≡ 8
    → HasWidths cfg
    → econ w cfg ≡ ok e
    → exit_view_in discriminator (account_data discriminator cfg later) ≡ ok (view_of e)
unfolding account_data fields
exit_view-econ w discriminator later cfg e hd wide h =
    let k = econ-ok w cfg e h in
    let rest =
      to_le_bytes 8 cfg.graduation_threshold_lamports
      ∷ to_le_bytes 1 cfg.graduation_slice_pct
      ∷ to_le_bytes 8 (i64_bits cfg.launched_at)
      ∷ cfg.dbc_config
      ∷ cfg.dbc_pool
      ∷ later in
    let back =
      to_le_bytes 8 cfg.max_tokens_in_nft_form
      ∷ to_le_bytes 8 cfg.fee_lamports
      ∷ cfg.fee_recipient
      ∷ rest in
    ap (λ d. exit_view_in discriminator (discriminator ++ d))
      (concat-append (front_fields cfg)
        (to_le_bytes 8 cfg.ratio_base ∷ to_le_bytes 8 cfg.collection_size ∷ back))
    ∙ exit_view_reads discriminator (concat (front_fields cfg)) (concat back) cfg.ratio_base
        cfg.collection_size hd (front_size cfg wide) (back_size cfg rest wide) wide.ratio
        (omega (arith, k.2)) k.0 k.1 (omega (arith, k.2))
    ∙ ap ok (sym k.3)

view_bounds :
    (c : Bool) (r x : ℕ) (e : ExitView)
    → (require c unsupported_launch_config
        >> (ok_or (try_u32 x) unsupported_launch_config >>= λ size.
            require (ltb 0 r && ltb 0 size) unsupported_launch_config
            >> ok (record { ratio_base = r; collection_size = size })))
      ≡ ok e
    → (0 < e.ratio_base) × (0 < e.collection_size) × (e.collection_size < 2 ^ 32)
view_bounds c r x e h = ground arith

-- What the exit reader accepted is in range.
pub exit_view_in-bounds :
    (discriminator d : Bytes) (e : ExitView)
    → exit_view_in discriminator d ≡ ok e
    → (0 < e.ratio_base) × (0 < e.collection_size) × (e.collection_size < 2 ^ 32)
unfolding exit_view_in
exit_view_in-bounds discriminator d e h =
    view_bounds (leb 221 (length d) && bytes_eq (take 8 d) discriminator)
      (from_le_bytes (slice d 157 8)) (from_le_bytes (slice d 165 8)) e h
