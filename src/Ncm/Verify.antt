-- ===== src/Ncm/Verify.antt =====
-- The loop of `ncm_outData` that verifies all tables of a block in advance: what it accepts, when it ends,
-- and when it never does.
use usbdevice.Base.{
  ℕ, zero, suc, ◌+◌, ◌≤◌, ◌<◌, ◌≡◌, ◌≢◌, ◌∙◌, sym, refl, arith, inl, inr, Bool-cases, ◌↔◌, ◌==◌,
  Bool, true, false, none, some, if◌then◌else◌,
}
use usbdevice.Device.{Platform, EpRef, get_ep}
use usbdevice.Bulk.{start_of}
use usbdevice.Ncm.{Bytes, get16, ndp_index_at, next_ndp_at, NcmCtx, NcmOptions, NcmApp}
use usbdevice.Ncm.Receive.{is_table, is_header, verify_tables, verify_block, out_data}

-- The tables from the one at an offset on are linked into a chain that ends.
pub data IsChain (b : Bytes) (len : ℕ) : ℕ → Type 0 where
  last : {pt : ℕ} → is_table b len pt ≡ true → get16 b (next_ndp_at pt) ≡ 0 → IsChain b len pt
  link :
      {pt : ℕ}
      → is_table b len pt ≡ true
      → get16 b (next_ndp_at pt) ≢ 0
      → IsChain b len (get16 b (next_ndp_at pt))
      → IsChain b len pt

module _ (b : Bytes) (len : ℕ) where
  end_round :
      (fuel pt : ℕ)
      → is_table b len pt ≡ true
      → get16 b (next_ndp_at pt) ≡ 0
      → verify_tables (suc fuel) b len pt ≡ some true
  unfolding verify_tables
  end_round fuel pt t z = rw (t, z) refl

  link_round :
      (fuel pt : ℕ)
      → is_table b len pt ≡ true
      → get16 b (next_ndp_at pt) ≢ 0
      → verify_tables (suc fuel) b len pt ≡ verify_tables fuel b len (get16 b (next_ndp_at pt))
  unfolding verify_tables
  link_round fuel pt t z = ground (arith, t, z)

  stop_round :
      (fuel pt : ℕ) → is_table b len pt ≡ false → verify_tables (suc fuel) b len pt ≡ some false
  unfolding verify_tables
  stop_round fuel pt t = rw t refl

  pub table_inside : (pt : ℕ) → is_table b len pt ≡ true → pt < len
  unfolding is_table
  table_inside pt t = ground (arith, t)

  -- A table, the last one or not, or none.
  data Next (pt : ℕ) : Type 0 where
    is_last : is_table b len pt ≡ true → get16 b (next_ndp_at pt) ≡ 0 → Next pt
    is_link : is_table b len pt ≡ true → get16 b (next_ndp_at pt) ≢ 0 → Next pt
    is_none : is_table b len pt ≡ false → Next pt

  classify : (pt : ℕ) → Next pt
  classify pt = classes (is_table b len pt) (get16 b (next_ndp_at pt)) refl refl
    where
      classes : (t : Bool) (n : ℕ) → is_table b len pt ≡ t → get16 b (next_ndp_at pt) ≡ n → Next pt
      classes true zero h k = is_last h k
      classes true (suc n) h k = is_link h (omega (arith, k))
      classes false n h k = is_none h

  sound_step :
      (fuel pt : ℕ)
      → (verify_tables fuel b len (get16 b (next_ndp_at pt)) ≡ some true
          → IsChain b len (get16 b (next_ndp_at pt)))
      → verify_tables (suc fuel) b len pt ≡ some true
      → Next pt
      → IsChain b len pt
  sound_step fuel pt rest h (is_last t z) = last t z
  sound_step fuel pt rest h (is_link t z) = link t z (rest (sym (link_round fuel pt t z) ∙ h))
  sound_step fuel pt rest h (is_none t) = absurd (cc (stop_round fuel pt t, h))

  sound : (fuel pt : ℕ) → verify_tables fuel b len pt ≡ some true → IsChain b len pt
  unfolding verify_tables
  sound zero pt h = absurd (cc h)
  sound (suc fuel) pt h = sound_step fuel pt (sound fuel (get16 b (next_ndp_at pt))) h (classify pt)

  -- The length of a chain.
  abbrev tables : {pt : ℕ} → IsChain b len pt → ℕ
  tables (last t z) = 1
  tables (link t z c) = suc (tables c)

  complete :
      (fuel pt : ℕ) (c : IsChain b len pt)
      → tables c ≤ fuel
      → verify_tables fuel b len pt ≡ some true
  complete zero pt (last t z) h = absurd (omega arith)
  complete zero pt (link t z c) h = absurd (omega arith)
  complete (suc fuel) pt (last t z) h = end_round fuel pt t z
  complete (suc fuel) pt (link t z c) h =
      link_round fuel pt t z ∙ complete fuel (get16 b (next_ndp_at pt)) c (omega arith)

  -- The tables that are linked lie one behind the other.
  abbrev pub LinksForward : Type 0
  LinksForward =
      (pt : ℕ)
      → is_table b len pt ≡ true
      → get16 b (next_ndp_at pt) ≢ 0
      → pt < get16 b (next_ndp_at pt)

  rounds : LinksForward → {pt : ℕ} (c : IsChain b len pt) → pt + tables c ≤ len
  rounds f {pt} (last t z) = omega (arith, table_inside pt t)
  rounds f {pt} (link t z c) = omega (arith, f pt t z, rounds f c)

  ends_step :
      (fuel pt : ℕ)
      → LinksForward
      → len ≤ pt + fuel
      → (pt < get16 b (next_ndp_at pt)
          → pt < len
          → verify_tables fuel b len (get16 b (next_ndp_at pt)) ≢ none)
      → Next pt
      → verify_tables (suc fuel) b len pt ≢ none
  ends_step fuel pt f l rest (is_last t z) h = absurd (cc (end_round fuel pt t z, h))
  ends_step fuel pt f l rest (is_link t z) h =
      rest (f pt t z) (table_inside pt t) (sym (link_round fuel pt t z) ∙ h)
  ends_step fuel pt f l rest (is_none t) h = absurd (cc (stop_round fuel pt t, h))

  ends : (fuel pt : ℕ) → LinksForward → len ≤ pt + fuel → verify_tables (suc fuel) b len pt ≢ none
  ends zero pt f h = ends_step zero pt f h (λ m k. absurd (omega arith)) (classify pt)
  ends (suc fuel) pt f h =
      ends_step (suc fuel) pt f h (λ m k. ends fuel (get16 b (next_ndp_at pt)) f (omega arith))
        (classify pt)

  -- Each table of a set is linked to one in the set.
  abbrev pub IsClosed : (ℕ → Type 0) → Type 0
  IsClosed P =
      (pt : ℕ)
      → P pt
      → (is_table b len pt ≡ true) × (get16 b (next_ndp_at pt) ≢ 0) × P (get16 b (next_ndp_at pt))

  hangs : (fuel pt : ℕ) (P : ℕ → Type 0) → IsClosed P → P pt → verify_tables fuel b len pt ≡ none
  unfolding verify_tables
  hangs zero pt P f h = refl
  hangs (suc fuel) pt P f h =
      let (t, z, k) = f pt h in link_round fuel pt t z ∙ hangs fuel (get16 b (next_ndp_at pt)) P f k

  header_round :
      (fuel : ℕ)
      → is_header b len ≡ true
      → verify_block fuel b len ≡ verify_tables fuel b len (get16 b ndp_index_at)
  unfolding verify_block
  header_round fuel h = rw h refl

  no_header : (fuel : ℕ) → is_header b len ≡ false → verify_block fuel b len ≡ some false
  unfolding verify_block
  no_header fuel h = rw h refl

  -- The loop ends after as many rounds as the block has bytes if the tables are linked forward.
  verify_block-ends : (fuel : ℕ) → len < fuel → LinksForward → verify_block fuel b len ≢ none
  verify_block-ends zero l f h = absurd (omega arith)
  verify_block-ends (suc fuel) l f h = elim (Bool-cases (is_header b len)) [
    | inl t ↦ ends fuel (get16 b ndp_index_at) f (omega arith) (sym (header_round (suc fuel) t) ∙ h)
    | inr t ↦ cc (no_header (suc fuel) t, h)
  ]

  -- A block is passed on exactly when its header is right and its tables are linked into a chain that
  -- ends, if they are linked forward; as many rounds as the block has bytes are enough.
  pub verify_block_lem :
      (fuel : ℕ)
      → len < fuel
      → LinksForward
      → (verify_block fuel b len ≢ none)
        × ((verify_block fuel b len ≡ some true)
            ↔ ((is_header b len ≡ true) × IsChain b len (get16 b ndp_index_at)))
  verify_block_lem fuel l f =
      let accepted : verify_block fuel b len ≡ some true
          → (is_header b len ≡ true) × IsChain b len (get16 b ndp_index_at) =
        λ h. elim (Bool-cases (is_header b len)) [
          | inl t ↦ (t, sound fuel (get16 b ndp_index_at) (sym (header_round fuel t) ∙ h))
          | inr t ↦ absurd (cc (no_header fuel t, h))
        ] in
      (
        verify_block-ends fuel l f,
        (
          accepted,
          λ h.
              header_round fuel h.0
              ∙ complete fuel (get16 b ndp_index_at) h.1 (omega (arith, rounds f h.1)),
        ),
      )

-- `ncm_outData` does not return, whatever the number of rounds, when the header of the block is right and
-- its first table is in a set of tables each of which is linked to one in the set.
pub links_in_circle :
    (p : Platform) (o : NcmOptions) (fuel rx : ℕ) (app : NcmApp) (ep : EpRef) (c : NcmCtx)
    (P : ℕ → Type 0)
    → (let e = get_ep ep c.dev in
        (if start_of e.transfer_data e.transfer_length == c.itf.out_at 0 then 0 else 1) ≡ rx)
    → is_header (c.itf.out_bytes rx) (get_ep ep c.dev).transfer_length ≡ true
    → IsClosed (c.itf.out_bytes rx) (get_ep ep c.dev).transfer_length P
    → P (get16 (c.itf.out_bytes rx) ndp_index_at)
    → out_data p o fuel app ep c ≡ none
unfolding out_data
links_in_circle p o fuel rx app ep c P r h f k =
    let b = c.itf.out_bytes rx in
    let len = (get_ep ep c.dev).transfer_length in
    let endless : verify_block fuel b len ≡ none =
      header_round b len fuel h ∙ hangs b len fuel (get16 b ndp_index_at) P f k in
    rw (r, endless) refl
