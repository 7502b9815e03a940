-- ===== src/Ncm/Receive.antt =====
-- The reception of datagrams: the OUT side of Class/CDC/usbd_ncm.c.
use usbdevice.Base.{
  ℕ, zero, suc, ◌+◌, ◌%◌, not, ◌&&◌, Bool, true, false, Option, none, some, ltb, leb, ◌==◌,
  if◌then◌else◌, update,
}
use usbdevice.Device.{memory, Platform, EpRef, get_ep}
use usbdevice.Endpoint.{ep_receive}
use usbdevice.Bulk.{start_of}
use usbdevice.Ncm.{
  NtbState, ntb_empty, ntb_processing, ntb_transferring, ntb_ready, is_ntb_empty, is_ntb_processing,
  is_ntb_ready, Bytes, get16, get32, nth16_sign, ndp16_sign, header_size, table_size,
  header_length_at, block_length_at, ndp_index_at, table_length_at, next_ndp_at, dg_index_at,
  dg_length_at, Ncm, NcmCtx, NcmOptions, NcmApp, out_page_size, tell, other,
}

-- The test of the table at `pt` in a block of `len` bytes.
unfoldable pub is_table : Bytes → ℕ → ℕ → Bool
is_table b len pt =
    leb header_size pt
    && ltb pt len
    && (get32 b pt == ndp16_sign)
    && ltb table_size (get16 b (table_length_at pt))

-- The loop that verifies all tables in advance, from the one at `pt` on, in `fuel` rounds at most: whether
-- the last table was found, `none` if the loop goes on after these rounds.
unfoldable pub verify_tables : ℕ → Bytes → ℕ → ℕ → Option Bool
verify_tables zero b len pt = none
verify_tables (suc fuel) b len pt =
    let next = get16 b (next_ndp_at pt) in
    let rest = verify_tables fuel b len next in
    if is_table b len pt then (if next == 0 then some true else rest) else some false

-- The test of the header of a transfer of `len` bytes.
unfoldable pub is_header : Bytes → ℕ → Bool
is_header b len =
    (get16 b block_length_at == len)
    && (get16 b header_length_at == header_size)
    && (get32 b 0 == nth16_sign)

-- Whether a received block is passed on, `none` if its verification does not end in the given rounds.
unfoldable pub verify_block : ℕ → Bytes → ℕ → Option Bool
verify_block fuel b len =
    if is_header b len then verify_tables fuel b len (get16 b ndp_index_at) else some false

abbrev pub set_out_state : ℕ → NtbState → Ncm → Ncm
set_out_state page s i = record i { out_state = update i.out_state page s }

-- The first datagram of the block in the page.
unfoldable pub enter_page : ℕ → Ncm → Ncm
enter_page page i = record i {
  out_page = page;
  out_table = get16 (i.out_bytes page) ndp_index_at;
  out_dx = 0;
}

module _ (p : Platform) (o : NcmOptions) where
  -- Reception into a page, which then is in transfer.
  unfoldable pub receive_page : ℕ → NcmCtx → NcmCtx
  receive_page page c = record c {
    itf = set_out_state page ntb_transferring c.itf;
    dev = (ep_receive p c.itf.out_ep_num (memory (c.itf.out_at page)) (out_page_size o) c.dev).1;
  }

  -- What `ncm_outData` does with the block in the page `rx`, which is valid or not, before the
  -- application is told.
  unfoldable pub pass_block : ℕ → Bool → NcmCtx → NcmCtx
  pass_block rx valid c =
      let i = set_out_state rx (if valid then ntb_ready else ntb_empty) c.itf in
      let page = if valid then other rx else rx in
      let next = if valid && is_ntb_empty (i.out_state page) then enter_page rx i else i in
      let v = record c { itf = next } in
      if is_ntb_empty (next.out_state page) && not (next.connection == 0)
      then receive_page page v
      else v

  abbrev tell_ready : NcmApp → ℕ → NcmCtx → NcmCtx
  tell_ready app rx c = if is_ntb_ready (c.itf.out_state rx) then tell app.received c else c

  abbrev finish_block : NcmApp → ℕ → Option Bool → NcmCtx → Option NcmCtx
  finish_block app rx none c = none
  finish_block app rx (some valid) c = some (tell_ready app rx (pass_block rx valid c))

  -- `ncm_outData`, with `fuel` rounds for its loop; transfers go to one of the two pages.
  unfoldable pub out_data : ℕ → NcmApp → EpRef → NcmCtx → Option NcmCtx
  out_data fuel app ep c =
      let e = get_ep ep c.dev in
      let rx = if start_of e.transfer_data e.transfer_length == c.itf.out_at 0 then 0 else 1 in
      finish_block app rx (verify_block fuel (c.itf.out_bytes rx) e.transfer_length) c

  -- `USBD_NCM_GetDatagram`: the step to the datagram behind the current one of a page.
  unfoldable pub next_datagram : Ncm → Ncm
  next_datagram i =
      let b = i.out_bytes i.out_page in
      let dx = i.out_dx + 1 in
      let next = get16 b (next_ndp_at i.out_table) in
      if not (get16 b (dg_index_at i.out_table dx) == 0)
      then record i { out_dx = dx % 256 }
      else if not (next == 0)
      then record i { out_table = next; out_dx = 0 }
      else set_out_state i.out_page ntb_empty i

  -- The switch to the other page, if that is available.
  unfoldable pub switch_page : NcmCtx → NcmCtx
  switch_page c =
      let i = c.itf in
      let page = i.out_page in
      let v = record c {
        itf = enter_page (other page) (set_out_state (other page) ntb_processing i);
      } in
      if is_ntb_empty (i.out_state page) && is_ntb_ready (i.out_state (other page))
      then (if not (i.connection == 0) then receive_page page v else v)
      else c

  -- The steps before a datagram is returned.
  unfoldable pub advance_datagram : NcmCtx → NcmCtx
  advance_datagram c =
      let i = c.itf in
      let s = i.out_state i.out_page in
      if is_ntb_ready s
      then record c { itf = set_out_state i.out_page ntb_processing i }
      else if is_ntb_processing s
      then switch_page (record c { itf = next_datagram i })
      else switch_page c

  -- The address and the length of the current datagram, `none` for NULL and the length 0.
  unfoldable pub current_datagram : Ncm → Option (ℕ × ℕ)
  current_datagram i =
      let b = i.out_bytes i.out_page in
      if is_ntb_processing (i.out_state i.out_page)
      then some (
        i.out_at i.out_page + get16 b (dg_index_at i.out_table i.out_dx),
        get16 b (dg_length_at i.out_table i.out_dx),
      )
      else none

  -- `USBD_NCM_GetDatagram`
  unfoldable pub get_datagram : NcmCtx → Option (ℕ × ℕ) × NcmCtx
  get_datagram c = let v = advance_datagram c in (current_datagram v.itf, v)
