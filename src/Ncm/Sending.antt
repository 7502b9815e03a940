-- ===== src/Ncm/Sending.antt =====
-- A block that is sent when the transfer of the other page has ended: `ncm_inData`.
use usbdevice.Base.{
  ℕ, ◌+◌, ◌%◌, ◌<◌, ◌≡◌, ◌≢◌, ◌∙◌, ◌⊎◌, inl, inr, ap, sym, refl, arith, true, List, ◌∷◌, length,
  update_self, if◌then◌else◌, ◌==◌, subst,
}
use usbdevice.Device.{pd_ep_send, memory, Platform, EpRef, in_ep, get_ep, Buffer, Device}
use usbdevice.Endpoint.{is_free, ep_send}
use usbdevice.Bulk.{start_of}
use usbdevice.Ncm.{
  ntb_empty, ntb_ready, get16, header_size, sequence_at, block_length_at, NcmCtx, NcmOptions,
  in_page_size, on_ncm, other,
}
use usbdevice.Ncm.Layout.{end_of}
use usbdevice.Ncm.Block.{IsBlock, fill_block-IsBlock}
use usbdevice.Ncm.Filling.{Filled}
use usbdevice.Ncm.Gathering.{IsBlock-sequence}
use usbdevice.Ncm.Send.{fill_block, send_ntb, in_data}
use usbdevice.Ncm.Bytes.{get16-put16_ne}

module _ (p : Platform) (o : NcmOptions) where
  -- The block of the datagrams is sent, and the bytes that are sent are one.
  sent_bytes :
      (xs : List ℕ) (xss : List (List ℕ)) (c : NcmCtx)
      → in_page_size o < 65512
      → Filled o (xs ∷ xss) c.itf
      → IsBlock (xs ∷ xss) ((send_ntb p o c.itf.in_page c).itf.in_bytes c.itf.in_page)
  unfolding send_ntb
  sent_bytes xs xss c small f =
      let i = c.itf in
      let size = in_page_size o in
      let pt = end_of header_size (xs ∷ xss) in
      let block =
        fill_block-IsBlock size xs xss (i.in_bytes i.in_page) (omega arith) small
          (omega (arith, f.room, f.fits, f.index)) f.saved f.stored in
      let same : fill_block size i.in_index i.dg_count (i.in_bytes i.in_page)
          ≡ fill_block size pt (length (xs ∷ xss)) (i.in_bytes i.in_page) =
        rw (f.index, f.count) refl in
      rw update_self
        (IsBlock-sequence _ xs xss _ (subst (λ b. IsBlock (xs ∷ xss) b) (sym same) block))

  -- What `ncm_inData` sends when the transfer of the other page has ended.
  in_data_at :
      (ep : EpRef) (page : ℕ) (c : NcmCtx)
      → c.itf.fill_state ≡ ntb_ready
      → (let e = get_ep ep c.dev in
          (if start_of e.transfer_data e.transfer_length == c.itf.in_at 0 then 1 else 0) ≡ page)
      → in_data p o ep c ≡ send_ntb p o page (on_ncm (λ i. record i { send_state = ntb_empty }) c)
  unfolding in_data
  in_data_at ep page c f h = rw (f, h) refl

  in_data_lem :
      (ep : EpRef) (c : NcmCtx)
      → (c.itf.in_page ≡ 0) ⊎ (c.itf.in_page ≡ 1)
      → c.itf.in_at 0 ≢ c.itf.in_at 1
      → start_of (get_ep ep c.dev).transfer_data (get_ep ep c.dev).transfer_length
        ≡ c.itf.in_at (other c.itf.in_page)
      → c.itf.fill_state ≡ ntb_ready
      → in_data p o ep c
        ≡ send_ntb p o c.itf.in_page (on_ncm (λ i. record i { send_state = ntb_empty }) c)
  in_data_lem ep c (inl h) n s f =
      in_data_at ep c.itf.in_page c f (ground (arith, ap (λ m. c.itf.in_at (other m)) h))
  in_data_lem ep c (inr h) n s f =
      in_data_at ep c.itf.in_page c f (ground (arith, ap (λ m. c.itf.in_at (other m)) h))

  ep_send_call :
      (addr len : ℕ) (buf : Buffer) (d : Device)
      → is_free (get_ep (in_ep (addr % 16)) d) ≡ true
      → (ep_send p addr buf len d).1.calls ≡ pd_ep_send addr buf len ∷ d.calls
  unfolding ep_send
  ep_send_call addr len buf d h = rw h refl

  send_call :
      (page : ℕ) (c : NcmCtx)
      → is_free (get_ep (in_ep (c.itf.in_ep_num % 16)) c.dev) ≡ true
      → let v = send_ntb p o page c in
        v.dev.calls
        ≡ pd_ep_send c.itf.in_ep_num
            (memory (c.itf.in_at page))
            (get16 (v.itf.in_bytes page) block_length_at)
          ∷ c.dev.calls
  unfolding send_ntb
  send_call page c h =
      let b = fill_block (in_page_size o) c.itf.in_index c.itf.dg_count (c.itf.in_bytes page) in
      ep_send_call c.itf.in_ep_num (get16 b block_length_at) (memory (c.itf.in_at page)) c.dev h
      ∙ rw update_self (
          ap (λ n. pd_ep_send c.itf.in_ep_num (memory (c.itf.in_at page)) n ∷ c.dev.calls)
            (sym (get16-put16_ne sequence_at block_length_at _ b (inr (omega arith)))))

  -- The block of a page that is ready goes out when the transfer of the other page has ended.
  pub in_data_sends :
      (ep : EpRef) (xs : List ℕ) (xss : List (List ℕ)) (c : NcmCtx)
      → in_page_size o < 65512
      → Filled o (xs ∷ xss) c.itf
      → (c.itf.in_page ≡ 0) ⊎ (c.itf.in_page ≡ 1)
      → c.itf.in_at 0 ≢ c.itf.in_at 1
      → start_of (get_ep ep c.dev).transfer_data (get_ep ep c.dev).transfer_length
        ≡ c.itf.in_at (other c.itf.in_page)
      → c.itf.fill_state ≡ ntb_ready
      → is_free (get_ep (in_ep (c.itf.in_ep_num % 16)) c.dev) ≡ true
      → let v = in_data p o ep c in
        IsBlock (xs ∷ xss) (v.itf.in_bytes c.itf.in_page)
        × (v.dev.calls
            ≡ pd_ep_send c.itf.in_ep_num
                (memory (c.itf.in_at c.itf.in_page))
                (get16 (v.itf.in_bytes c.itf.in_page) block_length_at)
              ∷ c.dev.calls)
  in_data_sends ep xs xss c small f page distinct start ready free =
      let page_of = c.itf.in_page in
      let freed = on_ncm (λ i. record i { send_state = ntb_empty }) c in
      let filled : Filled o (xs ∷ xss) freed.itf = record {
        count = f.count;
        index = f.index;
        room = f.room;
        fits = f.fits;
        saved = f.saved;
        stored = f.stored;
      } in
      subst
        (λ v.
          IsBlock (xs ∷ xss) (v.itf.in_bytes page_of)
          × (v.dev.calls
              ≡ pd_ep_send c.itf.in_ep_num (memory (c.itf.in_at page_of))
                  (get16 (v.itf.in_bytes page_of) block_length_at)
                ∷ c.dev.calls))
        (sym (in_data_lem ep c page distinct start ready))
        (sent_bytes xs xss freed small filled, send_call page_of freed free)

  -- The block that is sent states, and the driver is asked to send, twelve bytes more than the datagrams
  -- and the table take of its greatest size: the size of the header is counted twice. (For a page of
  -- datagrams that is shorter than 65512 bytes, and an IN endpoint that is free.)
  pub sent_size :
      (xs : List ℕ) (xss : List (List ℕ)) (c : NcmCtx)
      → in_page_size o < 65512
      → Filled o (xs ∷ xss) c.itf
      → is_free (get_ep (in_ep (c.itf.in_ep_num % 16)) c.dev) ≡ true
      → let v = send_ntb p o c.itf.in_page c in
        let len = get16 (v.itf.in_bytes c.itf.in_page) block_length_at in
        (len + c.itf.rem_size ≡ c.itf.max_size + header_size)
        × (v.dev.calls
            ≡ pd_ep_send c.itf.in_ep_num (memory (c.itf.in_at c.itf.in_page)) len ∷ c.dev.calls)
  sent_size xs xss c small f free = (
    omega (arith, (sent_bytes xs xss c small f).headers.block_length, f.room, f.index),
    send_call c.itf.in_page c free,
  )
