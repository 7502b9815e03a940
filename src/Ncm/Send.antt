-- ===== src/Ncm/Send.antt =====
-- The transmission of datagrams: the IN side of Class/CDC/usbd_ncm.c.
use usbdevice.Base.{
  ℕ, zero, suc, ◌+◌, ◌-◌, ◌*◌, ◌%◌, not, ◌&&◌, Option, none, some, List, [], ◌∷◌, length, leb, ◌==◌,
  if◌then◌else◌, update,
}
use usbdevice.Device.{ReturnType, e_ok, e_invalid, memory, Platform, EpRef, get_ep}
use usbdevice.Endpoint.{ep_send}
use usbdevice.Bulk.{start_of}
use usbdevice.Ncm.{
  ntb_empty, ntb_processing, ntb_transferring, ntb_ready, is_ntb_empty, is_ntb_processing,
  is_ntb_ready, Bytes, get16, put16, put32, nth16_sign, ndp16_sign, header_size, table_size,
  header_length_at, sequence_at, block_length_at, ndp_index_at, table_length_at, next_ndp_at,
  dg_index_at, dg_length_at, Ncm, NcmCtx, NcmOptions, in_page_size, on_ncm, other, fresh_size,
  sub32, align4,
}

-- Where the length of datagram `n` is saved: backwards from the end of the page.
abbrev pub saved_at : ℕ → ℕ → ℕ
saved_at size n = size - 4 * (n + 1)

-- The first round of `ncm_sendNTB`: the saved lengths of the datagrams from `i` on go into the table.
unfoldable pub put_lengths : ℕ → ℕ → ℕ → ℕ → Bytes → Bytes
put_lengths size pt zero i b = b
put_lengths size pt (suc n) i b =
    put_lengths size pt n (i + 1) (put16 (dg_length_at pt i) (get16 b (saved_at size i)) b)

-- The second round: each datagram lies behind the one before it, at a multiple of 4.
unfoldable pub put_indexes : ℕ → ℕ → ℕ → Bytes → Bytes
put_indexes pt zero i b = b
put_indexes pt (suc n) i b = put_indexes pt n (i + 1) (
    put16 (dg_index_at pt (i + 1))
      (align4 (get16 b (dg_index_at pt i) + get16 b (dg_length_at pt i)) % 65536) b)

-- The header of the table and that of the block, for `n` datagrams that end at `pt`.
unfoldable pub put_headers : ℕ → ℕ → Bytes → Bytes
put_headers pt n b =
    let len = (table_size + 4 * n) % 65536 in
    put16 ndp_index_at pt (
      put16 block_length_at ((header_size + pt + len) % 65536) (
        put16 header_length_at header_size (
          put32 0 nth16_sign
            (put16 (next_ndp_at pt) 0 (put16 (table_length_at pt) len (put32 pt ndp16_sign b))))))

-- The null element stands behind the last datagram; without any it stands behind the first place.
unfoldable pub put_end : ℕ → ℕ → Bytes → Bytes
put_end pt n b =
    let last = if n == 0 then 1 else n in
    put16 (dg_length_at pt last) 0 (put16 (dg_index_at pt last) 0 b)

-- The bytes of the block that is sent.
unfoldable pub fill_block : ℕ → ℕ → ℕ → Bytes → Bytes
fill_block size pt n b = put_end pt n (
    put_indexes pt (n - 1) 0
      (put16 (dg_index_at pt 0) header_size (put_lengths size pt n 0 (put_headers pt n b))))

-- `memcpy` to the offset `at`.
unfoldable pub copy_bytes : List ℕ → ℕ → Bytes → Bytes
copy_bytes [] at b = b
copy_bytes (x ∷ xs) at b = copy_bytes xs (at + 1) (update b at x)

module _ (p : Platform) (o : NcmOptions) where
  -- `ncm_sendNTB`; the sequence number grows when the transfer has been started.
  unfoldable pub send_ntb : ℕ → NcmCtx → NcmCtx
  send_ntb page c =
      let i = c.itf in
      let b = fill_block (in_page_size o) i.in_index i.dg_count (i.in_bytes page) in
      record c {
        itf = record i {
          in_bytes =
              update i.in_bytes page (put16 sequence_at ((get16 b sequence_at + 2) % 65536) b);
          in_page = other page;
          dg_count = 0;
          in_index = header_size;
          rem_size = fresh_size i.max_size;
          fill_state = ntb_empty;
          send_state = ntb_transferring;
        };
        dev = (ep_send p i.in_ep_num (memory (i.in_at page)) (get16 b block_length_at) c.dev).1;
      }

  -- `ncm_inData`
  unfoldable pub in_data : EpRef → NcmCtx → NcmCtx
  in_data ep c =
      let e = get_ep ep c.dev in
      let page = if start_of e.transfer_data e.transfer_length == c.itf.in_at 0 then 1 else 0 in
      let freed = on_ncm (λ i. record i { send_state = ntb_empty }) c in
      if is_ntb_ready c.itf.fill_state then send_ntb page freed else freed

  -- The last part of `USBD_NCM_AllocDatagram`: a place for `len` bytes at the end of the block.
  unfoldable pub reserve : ℕ → Ncm → Ncm
  reserve len i =
      let n = (i.dg_count + 1) % 256 in
      record i {
        dg_count = n;
        in_bytes =
            update i.in_bytes i.in_page (put16 (in_page_size o - 4 * n) len (i.in_bytes i.in_page));
        in_index = (i.in_index + align4 len) % 65536;
        rem_size = sub32 i.rem_size (align4 len + 4);
      }

  -- `USBD_NCM_AllocDatagram`: the address of the place, `none` for NULL.
  unfoldable pub alloc_datagram : ℕ → NcmCtx → Option ℕ × NcmCtx
  alloc_datagram len c =
      let i = c.itf in
      let busy = record i { fill_state = ntb_processing } in
      if not (i.connection == 0) && leb len 1514 && not (is_ntb_processing i.fill_state)
      then (if leb (align4 len + 4) i.rem_size
          then (some (i.in_at i.in_page + i.in_index), record c { itf = reserve len busy })
          else (none, record c { itf = busy }))
      else (none, c)

  -- `USBD_NCM_SetDatagram`
  unfoldable pub set_datagram : NcmCtx → ReturnType × NcmCtx
  set_datagram c =
      if is_ntb_processing c.itf.fill_state
      then (
        e_ok,
        if is_ntb_empty c.itf.send_state
            then send_ntb c.itf.in_page c
            else on_ncm (λ i. record i { fill_state = ntb_ready }) c,
      )
      else (e_invalid, c)

  -- The rest of `USBD_NCM_PutDatagram`, when the datagram that starts at the offset `at` was allocated.
  abbrev pub put_allocated : List ℕ → ℕ → Option ℕ × NcmCtx → ReturnType × NcmCtx
  put_allocated xs at (none, c) = (e_invalid, c)
  put_allocated xs at (some dst, c) =
      let i = c.itf in
      set_datagram (record c {
        itf = record i {
          in_bytes = update i.in_bytes i.in_page (copy_bytes xs at (i.in_bytes i.in_page));
        };
      })

  -- `USBD_NCM_PutDatagram`
  unfoldable pub put_datagram : List ℕ → NcmCtx → ReturnType × NcmCtx
  put_datagram xs c = put_allocated xs c.itf.in_index (alloc_datagram (length xs) c)
