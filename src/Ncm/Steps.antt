-- ===== src/Ncm/Steps.antt =====
-- Reading a received block, entry by entry: USBD_NCM_GetDatagram, called until it returns NULL.
use usbdevice.Base.{
  ℕ, zero, suc, ◌+◌, ◌-◌, ◌<◌, ◌≡◌, ◌∙◌, ◌⊎◌, ap, refl, arith, false, List, [], ◌∷◌, length, update,
  some, none, Option,
}
use usbdevice.Device.{Platform}
use usbdevice.Ncm.{
  ntb_empty, ntb_processing, is_ntb_empty, is_ntb_ready, Bytes, get16, next_ndp_at, dg_index_at,
  dg_length_at, Ncm, NcmCtx, NcmOptions, other, align4,
}
use usbdevice.Ncm.Bytes.{read_bytes}
use usbdevice.Ncm.Layout.{Entries, Stored}
use usbdevice.Ncm.Receive.{
  next_datagram, switch_page, advance_datagram, current_datagram, get_datagram,
}

-- The interface has returned entry `k` of the table in the page `rx`.
pub record AtEntry (rx pt k : ℕ) (b : Bytes) (i : Ncm) : Type 0 where
  pub page : i.out_page ≡ rx
  pub state : i.out_state rx ≡ ntb_processing
  pub table : i.out_table ≡ pt
  pub dx : i.out_dx ≡ k
  pub alone : is_ntb_ready (i.out_state (other rx)) ≡ false
  pub bytes : i.out_bytes rx ≡ b

module _ (p : Platform) (o : NcmOptions) where
  -- An application that takes every datagram and copies it, until there is none, `fuel` times at most.
  abbrev copy_next : Option (ℕ × ℕ) × NcmCtx → (NcmCtx → List (List ℕ)) → List (List ℕ)
  copy_next (none, c) rest = []
  copy_next (some (at, len), c) rest =
      read_bytes (c.itf.out_bytes c.itf.out_page) (at - c.itf.out_at c.itf.out_page) len ∷ rest c

  unfoldable pub read_all : ℕ → NcmCtx → List (List ℕ)
  read_all zero c = []
  read_all (suc fuel) c = copy_next (get_datagram p o c) (λ v. read_all fuel v)

  read_none : (fuel : ℕ) (c : NcmCtx) → (get_datagram p o c).0 ≡ none → read_all (suc fuel) c ≡ []
  unfolding read_all
  read_none fuel c e = ap (λ x. copy_next (x, (get_datagram p o c).1) (λ v. read_all fuel v)) e

  pub read_some :
      (fuel at len : ℕ) (c v : NcmCtx)
      → get_datagram p o c ≡ (some (at, len), v)
      → read_all (suc fuel) c
        ≡ read_bytes (v.itf.out_bytes v.itf.out_page) (at - v.itf.out_at v.itf.out_page) len
          ∷ read_all fuel v
  unfolding read_all
  read_some fuel at len c v e = ap (λ x. copy_next x (λ y. read_all fuel y)) e

  module _ (rx pt : ℕ) (b : Bytes) (page : (rx ≡ 0) ⊎ (rx ≡ 1)) where
    step_itf :
        (k at : ℕ) (xs : List ℕ) (i : Ncm)
        → k < 255
        → 0 < at
        → AtEntry rx pt k b i
        → get16 b (dg_index_at pt (k + 1)) ≡ at
        → next_datagram p o i ≡ record i { out_dx = k + 1 }
    unfolding next_datagram
    step_itf k at xs i small pos e x = rw (e.page, e.bytes, e.table, e.dx, x) (ground arith)

    stay :
        (c : NcmCtx) → is_ntb_empty (c.itf.out_state c.itf.out_page) ≡ false → switch_page p o c ≡ c
    unfolding switch_page
    stay c h = rw h refl

    advance_processing :
        (c : NcmCtx)
        → c.itf.out_state c.itf.out_page ≡ ntb_processing
        → advance_datagram p o c ≡ switch_page p o (record c { itf = next_datagram p o c.itf })
    unfolding advance_datagram
    advance_processing c h = rw h refl

    step_lem :
        (k at : ℕ) (xs : List ℕ) (c : NcmCtx)
        → k < 255
        → 0 < at
        → AtEntry rx pt k b c.itf
        → get16 b (dg_index_at pt (k + 1)) ≡ at
        → get16 b (dg_length_at pt (k + 1)) ≡ length xs
        → let v = record c { itf = record c.itf { out_dx = k + 1 } } in
          (get_datagram p o c ≡ (some (c.itf.out_at c.itf.out_page + at, length xs), v))
          × AtEntry rx pt (k + 1) b v.itf
    unfolding get_datagram current_datagram
    step_lem k at xs c small pos e x l =
        let v = record c { itf = record c.itf { out_dx = k + 1 } } in
        let here : c.itf.out_state c.itf.out_page ≡ ntb_processing =
          ap c.itf.out_state e.page ∙ e.state in
        let moved : advance_datagram p o c ≡ v =
          advance_processing c here
          ∙ (ap (λ i. switch_page p o (record c { itf = i })) (step_itf k at xs c.itf small pos e x)
              ∙ stay v (ap is_ntb_empty here)) in
        (
          rw (moved, here, e.table) (rw (e.page, e.bytes, x, l) refl),
          record {
            page = e.page;
            state = e.state;
            table = e.table;
            dx = refl;
            alone = e.alone;
            bytes = e.bytes;
          },
        )

    no_switch :
        (c : NcmCtx)
        → is_ntb_ready (c.itf.out_state (other c.itf.out_page)) ≡ false
        → switch_page p o c ≡ c
    unfolding switch_page
    no_switch c h = ground arith

    end_itf :
        (k : ℕ) (i : Ncm)
        → AtEntry rx pt k b i
        → get16 b (dg_index_at pt (k + 1)) ≡ 0
        → get16 b (next_ndp_at pt) ≡ 0
        → next_datagram p o i ≡ record i { out_state = update i.out_state rx ntb_empty }
    unfolding next_datagram
    end_itf k i e x z = rw (e.page, e.bytes, e.table, e.dx, x, z) refl

    -- Behind the last entry there is no datagram.
    end_lem :
        (k : ℕ) (c : NcmCtx)
        → AtEntry rx pt k b c.itf
        → get16 b (dg_index_at pt (k + 1)) ≡ 0
        → get16 b (next_ndp_at pt) ≡ 0
        → (get_datagram p o c).0 ≡ none
    unfolding get_datagram current_datagram
    end_lem k c e x z =
        let here : c.itf.out_state c.itf.out_page ≡ ntb_processing =
          ap c.itf.out_state e.page ∙ e.state in
        let v = record c {
          itf = record c.itf { out_state = update c.itf.out_state rx ntb_empty };
        } in
        let quiet : is_ntb_ready (v.itf.out_state (other v.itf.out_page)) ≡ false =
          ground (arith, ap (λ n. is_ntb_ready (c.itf.out_state (other n))) e.page, e.alone) in
        let moved : advance_datagram p o c ≡ v =
          advance_processing c here
          ∙ (ap (λ i. switch_page p o (record c { itf = i })) (end_itf k c.itf e x z)
              ∙ no_switch v quiet) in
        rw (moved, e.page) (ground arith)

    -- What is read from entry `k` on are the datagrams behind it.
    pub read_rest :
        (fuel k at : ℕ) (xss : List (List ℕ)) (c : NcmCtx)
        → length xss < fuel
        → k + length xss < 255
        → 0 < at
        → AtEntry rx pt k b c.itf
        → Entries pt (k + 1) at xss b
        → Stored at xss b
        → get16 b (dg_index_at pt (k + 1 + length xss)) ≡ 0
        → get16 b (next_ndp_at pt) ≡ 0
        → read_all fuel c ≡ xss
    unfolding read_all
    read_rest zero k at xss c f n pos e t s x z = absurd (omega arith)
    read_rest (suc fuel) k at [] c f n pos e t s x z =
        let last = ap (λ m. get16 b (dg_index_at pt m)) (omega arith) ∙ x in
        read_none fuel c (end_lem k c e last z)
    read_rest (suc fuel) k at (xs ∷ xss) c f n pos e t s x z =
        let v = record c { itf = record c.itf { out_dx = k + 1 } } in
        let (got, e') = step_lem k at xs c (omega arith) pos e t.0 t.1 in
        let next = at + align4 (length xs) in
        let last = ap (λ m. get16 b (dg_index_at pt m)) (omega arith) ∙ x in
        let rest =
          read_rest fuel (k + 1) next xss v (omega arith) (omega arith) (omega arith) e' t.2 s.1
            last z in
        let offset : c.itf.out_at c.itf.out_page + at - c.itf.out_at c.itf.out_page ≡ at =
          omega arith in
        let copied : read_bytes (c.itf.out_bytes c.itf.out_page)
              (c.itf.out_at c.itf.out_page + at - c.itf.out_at c.itf.out_page) (length xs)
            ≡ xs =
          rw (offset, e.page, e.bytes) s.0 in
        read_some fuel _ _ c v got ∙ (λ i. copied i ∷ rest i)
