-- ===== src/Ncm/Reading.antt =====
-- Reading a received block: USBD_NCM_GetDatagram, called until it returns NULL.
use usbdevice.Base.{
  ℕ, zero, suc, ◌+◌, ◌-◌, ◌<◌, ◌≡◌, ◌∙◌, ◌⊎◌, ap, refl, arith, true, false, List, ◌∷◌, length,
  update, update_self, some,
}
use usbdevice.Device.{Platform}
use usbdevice.Ncm.{
  ntb_processing, ntb_ready, is_ntb_processing, is_ntb_ready, Bytes, get16, get32, header_size,
  block_length_at, ndp_index_at, table_length_at, next_ndp_at, dg_index_at, dg_length_at, Ncm,
  NcmCtx, NcmOptions, other, align4,
}
use usbdevice.Ncm.Bytes.{read_bytes}
use usbdevice.Ncm.Layout.{end_of, le-end_of}
use usbdevice.Ncm.Block.{IsBlock}
use usbdevice.Ncm.Receive.{
  is_table, is_header, verify_tables, verify_block, advance_datagram, current_datagram,
  get_datagram,
}
use usbdevice.Ncm.Steps.{AtEntry, read_all, read_some, read_rest}

-- A block of datagrams passes the verification, in one round of its loop.
pub IsBlock-valid :
    (fuel : ℕ) (xs : List ℕ) (xss : List (List ℕ)) (b : Bytes)
    → IsBlock (xs ∷ xss) b
    → verify_block (suc fuel) b (get16 b block_length_at) ≡ some true
unfolding verify_block is_header verify_tables is_table
IsBlock-valid fuel xs xss b v =
    let h = v.headers in
    ground (
      arith,
      h.signature,
      h.header_length,
      h.block_length,
      h.ndp_index,
      ap (λ n. get32 b n) h.ndp_index,
      ap (λ n. get16 b (table_length_at n)) h.ndp_index,
      ap (λ n. get16 b (next_ndp_at n)) h.ndp_index,
      h.table_signature,
      h.table_length,
      h.next_ndp,
      le-end_of header_size (xs ∷ xss),
    )

module _ (p : Platform) (o : NcmOptions) where
  -- A block that has just been passed on.
  pub record IsFresh (rx : ℕ) (b : Bytes) (i : Ncm) : Type 0 where
    pub page : i.out_page ≡ rx
    pub state : i.out_state rx ≡ ntb_ready
    pub table : i.out_table ≡ get16 b ndp_index_at
    pub dx : i.out_dx ≡ 0
    pub alone : is_ntb_ready (i.out_state (other rx)) ≡ false
    pub bytes : i.out_bytes rx ≡ b

  abbrev begun : ℕ → NcmCtx → NcmCtx
  begun rx c = record c {
    itf = record c.itf { out_state = update c.itf.out_state rx ntb_processing };
  }

  advance_ready :
      (c : NcmCtx)
      → c.itf.out_state c.itf.out_page ≡ ntb_ready
      → advance_datagram p o c ≡ begun c.itf.out_page c
  unfolding advance_datagram
  advance_ready c h = rw h refl

  first_lem :
      (rx at : ℕ) (b : Bytes) (xs : List ℕ) (c : NcmCtx)
      → IsFresh rx b c.itf
      → get16 b (dg_index_at (get16 b ndp_index_at) 0) ≡ at
      → get16 b (dg_length_at (get16 b ndp_index_at) 0) ≡ length xs
      → get_datagram p o c ≡ (some (c.itf.out_at c.itf.out_page + at, length xs), begun rx c)
  unfolding get_datagram current_datagram
  first_lem rx at b xs c e x l =
      let moved : advance_datagram p o c ≡ begun rx c =
        advance_ready c (ap c.itf.out_state e.page ∙ e.state) ∙ ap (λ n. begun n c) e.page in
      let here : is_ntb_processing ((begun rx c).itf.out_state c.itf.out_page) ≡ true =
        ground (arith, e.page) in
      rw (moved, here, e.table, e.dx) (rw (e.page, e.bytes, x, l) refl)

  -- A block of datagrams is read out whole, each datagram in its turn.
  pub read_all_lem :
      (rx fuel : ℕ) (xs : List ℕ) (xss : List (List ℕ)) (b : Bytes) (c : NcmCtx)
      → (rx ≡ 0) ⊎ (rx ≡ 1)
      → IsFresh rx b c.itf
      → IsBlock (xs ∷ xss) b
      → length (xs ∷ xss) < fuel
      → length (xs ∷ xss) < 256
      → read_all p o fuel c ≡ xs ∷ xss
  read_all_lem rx zero xs xss b c page e v f n = absurd (omega arith)
  read_all_lem rx (suc fuel) xs xss b c page e v f n =
      let pt = end_of header_size (xs ∷ xss) in
      let x : get16 b ndp_index_at ≡ pt = v.headers.ndp_index in
      let first =
        first_lem rx header_size b xs c e (ap (λ m. get16 b (dg_index_at m 0)) x ∙ v.entries.0)
          (ap (λ m. get16 b (dg_length_at m 0)) x ∙ v.entries.1) in
      let started : AtEntry rx pt 0 b (begun rx c).itf = record {
        page = e.page;
        state = update_self c.itf.out_state rx ntb_processing;
        table = e.table ∙ x;
        dx = e.dx;
        alone = ground (arith, e.alone);
        bytes = e.bytes;
      } in
      let last = ap (λ m. get16 b (dg_index_at pt m)) (omega arith) ∙ v.null in
      let rest =
        read_rest p o rx pt b page fuel 0 (header_size + align4 (length xs)) xss (begun rx c)
          (omega arith) (omega arith) (omega arith) started v.entries.2 v.stored.1 last
          v.headers.next_ndp in
      let offset : c.itf.out_at c.itf.out_page + header_size - c.itf.out_at c.itf.out_page
          ≡ header_size =
        omega arith in
      let copied : read_bytes (c.itf.out_bytes c.itf.out_page)
            (c.itf.out_at c.itf.out_page + header_size - c.itf.out_at c.itf.out_page) (length xs)
          ≡ xs =
        rw (offset, e.page, e.bytes) v.stored.0 in
      read_some p o fuel _ _ c (begun rx c) first ∙ (λ i. copied i ∷ rest i)
