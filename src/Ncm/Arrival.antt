-- ===== src/Ncm/Arrival.antt =====
-- From the application of one side to that of the other: datagrams that are put into blocks here, and
-- read from blocks there.
use usbdevice.Base.{
  ℕ, suc, ◌%◌, ◌≤◌, ◌<◌, ◌≡◌, ◌≢◌, ◌∙◌, ◌⊎◌, inl, inr, ap, sym, refl, arith, Bool, true, false,
  List, not, [], ◌∷◌, length, update, update_self, if◌then◌else◌, ◌==◌, some, none, subst,
}
use mathlib.Core.Option.{map}
use usbdevice.Device.{pd_ep_send, memory, Platform, EpRef, in_ep, get_ep}
use usbdevice.Endpoint.{is_free}
use usbdevice.Bulk.{start_of}
use usbdevice.Ncm.{
  NtbState, ntb_empty, ntb_transferring, ntb_ready, is_ntb_empty, is_ntb_ready, Bytes, get16,
  block_length_at, ndp_index_at, Ncm, NcmCtx, NcmOptions, NcmApp, in_page_size, other,
}
use usbdevice.Ncm.Block.{IsBlock}
use usbdevice.Ncm.Filling.{Filled, IsWaiting}
use usbdevice.Ncm.Gathering.{AreShort, space_of, put_all, put_all_lem}
use usbdevice.Ncm.Send.{in_data}
use usbdevice.Ncm.Receive.{verify_block, receive_page, pass_block, enter_page, out_data}
use usbdevice.Ncm.Steps.{read_all}
use usbdevice.Ncm.Reading.{IsBlock-valid, IsFresh, read_all_lem}
use usbdevice.Ncm.Sending.{in_data_sends}

module _ (p : Platform) (o : NcmOptions) where
  -- The receiving side: a block has arrived in the page `rx`, and the other page is empty.
  pub record HasReceived (rx : ℕ) (ep : EpRef) (b : Bytes) (r : NcmCtx) : Type 0 where
    pub page : (rx ≡ 0) ⊎ (rx ≡ 1)
    pub pages : r.itf.out_at 0 ≢ r.itf.out_at 1
    pub start :
        start_of (get_ep ep r.dev).transfer_data (get_ep ep r.dev).transfer_length ≡ r.itf.out_at rx
    pub whole : (get_ep ep r.dev).transfer_length ≡ get16 b block_length_at
    pub bytes : r.itf.out_bytes rx ≡ b
    pub empty : r.itf.out_state (other rx) ≡ ntb_empty

  out_data_at :
      (fuel rx : ℕ) (app : NcmApp) (ep : EpRef) (r : NcmCtx)
      → app.received ≡ none
      → (let e = get_ep ep r.dev in
          (if start_of e.transfer_data e.transfer_length == r.itf.out_at 0 then 0 else 1) ≡ rx)
      → verify_block fuel (r.itf.out_bytes rx) (get_ep ep r.dev).transfer_length ≡ some true
      → out_data p o fuel app ep r ≡ some (pass_block p o rx true r)
  unfolding out_data
  out_data_at fuel rx app ep r q h v = rw (h, v, q) (ground arith)

  -- The page of the block, which the application reads now.
  abbrev entered : ℕ → Ncm → Ncm
  entered rx i = enter_page rx (record i { out_state = update i.out_state rx ntb_ready })

  pass_at :
      (rx : ℕ) (r : NcmCtx)
      → is_ntb_empty (update r.itf.out_state rx ntb_ready (other rx)) ≡ true
      → let v = record r { itf = entered rx r.itf } in
        pass_block p o rx true r
        ≡ (if not (r.itf.connection == 0) then receive_page p o (other rx) v else v)
  unfolding pass_block enter_page
  pass_at rx r h = rw h (rw h refl)

  entered-IsFresh :
      (rx : ℕ) (b : Bytes) (i : Ncm) (s : NtbState)
      → is_ntb_ready s ≡ false
      → rx ≢ other rx
      → i.out_bytes rx ≡ b
      → is_ntb_ready (i.out_state (other rx)) ≡ false
      → IsFresh p o rx b (entered rx i)
        × IsFresh p o rx b
            (record (entered rx i) { out_state = update (entered rx i).out_state (other rx) s })
  unfolding enter_page
  entered-IsFresh rx b i s t n e a = (
    record {
      page = refl;
      state = update_self i.out_state rx ntb_ready;
      table = ap (λ c. get16 c ndp_index_at) e;
      dx = refl;
      alone = ground (arith, n, a);
      bytes = e;
    },
    record {
      page = refl;
      state = ground (arith, n, a);
      table = ap (λ c. get16 c ndp_index_at) e;
      dx = refl;
      alone = ground (arith, n, t);
      bytes = e;
    },
  )

  receiving-page :
      (rx : ℕ) (ep : EpRef) (b : Bytes) (r : NcmCtx)
      → HasReceived rx ep b r
      → let e = get_ep ep r.dev in
        (if start_of e.transfer_data e.transfer_length == r.itf.out_at 0 then 0 else 1) ≡ rx
  receiving-page rx ep b r h = split h.page
    where
      split :
          (rx ≡ 0) ⊎ (rx ≡ 1)
          → let e = get_ep ep r.dev in
            (if start_of e.transfer_data e.transfer_length == r.itf.out_at 0 then 0 else 1) ≡ rx
      split (inl k) = ground (arith, h.start, ap r.itf.out_at k)
      split (inr k) = ground (arith, h.start, ap r.itf.out_at k, h.pages)

  other-ne : (rx : ℕ) → (rx ≡ 0) ⊎ (rx ≡ 1) → rx ≢ other rx
  other-ne rx (inl h) = omega (arith, h)
  other-ne rx (inr h) = omega (arith, h)

  pass-IsFresh :
      (rx : ℕ) (ep : EpRef) (b : Bytes) (r : NcmCtx)
      → HasReceived rx ep b r
      → IsFresh p o rx b (pass_block p o rx true r).itf
  unfolding receive_page
  pass-IsFresh rx ep b r h =
      let different : rx ≢ other rx = other-ne rx h.page in
      let waiting : is_ntb_empty (update r.itf.out_state rx ntb_ready (other rx)) ≡ true =
        ground (arith, different, h.empty) in
      let quiet : is_ntb_ready (r.itf.out_state (other rx)) ≡ false = ap is_ntb_ready h.empty in
      let (kept, taken) =
        entered-IsFresh rx b r.itf ntb_transferring refl different h.bytes quiet in
      let v = record r { itf = entered rx r.itf } in
      let both : (x : Bool)
          → IsFresh p o rx b (if x then receive_page p o (other rx) v else v).itf =
        λ x.
          elim x as (λ y. IsFresh p o rx b (if y then receive_page p o (other rx) v else v).itf) [
            | true ↦ taken
            | false ↦ kept
          ] in
      subst (λ c. IsFresh p o rx b c.itf) (sym (pass_at rx r waiting))
        (both (not (r.itf.connection == 0)))

  -- A block that has arrived is read out whole.
  arrived_read :
      (fuel n rx : ℕ) (app : NcmApp) (ep : EpRef) (xs : List ℕ) (xss : List (List ℕ)) (b : Bytes)
      (r : NcmCtx)
      → IsBlock (xs ∷ xss) b
      → HasReceived rx ep b r
      → app.received ≡ none
      → length (xs ∷ xss) < n
      → length (xs ∷ xss) < 256
      → map (read_all p o n) (out_data p o (suc fuel) app ep r) ≡ some (xs ∷ xss)
  arrived_read fuel n rx app ep xs xss b r k h quiet enough most =
      let here = receiving-page rx ep b r h in
      let valid : verify_block (suc fuel) (r.itf.out_bytes rx) (get_ep ep r.dev).transfer_length
          ≡ some true =
        rw (h.bytes, h.whole) (IsBlock-valid fuel xs xss b k) in
      let v = pass_block p o rx true r in
      ap (map (read_all p o n)) (out_data_at (suc fuel) rx app ep r quiet here valid)
      ∙ ap some (read_all_lem p o rx n xs xss b v h.page (pass-IsFresh rx ep b r h) k enough most)

module _ (p : Platform) (o o' : NcmOptions) (small : in_page_size o < 65512) (fuel n rx : ℕ)
    (app : NcmApp) (ep ep' : EpRef) (xs : List ℕ) (xss : List (List ℕ)) where
  -- Datagrams that are put while the last block is under way, short ones that together have room and are
  -- 255 at most, are sent as one block when its transfer has ended: the driver is asked to send the
  -- page by the length that stands in the block. When these bytes have arrived at an interface with its
  -- other page empty, whose application is not told, that takes them after one round of its loop, and
  -- the datagrams that it returns until there are none are those that were put, in their order.
  pub datagrams_arrive :
      (c r : NcmCtx)
      → IsWaiting c.itf
      → Filled o [] c.itf
      → AreShort (xs ∷ xss)
      → length (xs ∷ xss) < 256
      → space_of (xs ∷ xss) ≤ c.itf.rem_size
      → (c.itf.in_page ≡ 0) ⊎ (c.itf.in_page ≡ 1)
      → c.itf.in_at 0 ≢ c.itf.in_at 1
      → start_of (get_ep ep c.dev).transfer_data (get_ep ep c.dev).transfer_length
        ≡ c.itf.in_at (other c.itf.in_page)
      → is_free (get_ep (in_ep (c.itf.in_ep_num % 16)) c.dev) ≡ true
      → HasReceived p o' rx ep'
          ((in_data p o ep (put_all p o (xs ∷ xss) c)).itf.in_bytes c.itf.in_page)
          r
      → app.received ≡ none
      → length (xs ∷ xss) < n
      → let v = in_data p o ep (put_all p o (xs ∷ xss) c) in
        (v.dev.calls
          ≡ pd_ep_send c.itf.in_ep_num
              (memory (c.itf.in_at c.itf.in_page))
              (get16 (v.itf.in_bytes c.itf.in_page) block_length_at)
            ∷ c.dev.calls)
        × (map (read_all p o' n) (out_data p o' (suc fuel) app ep' r) ≡ some (xs ∷ xss))
  datagrams_arrive c r w f s l m page distinct start free got quiet e =
      let v = put_all p o (xs ∷ xss) c in
      let (filled, kept, ready) = put_all_lem p o small xs xss c w f s l m in
      let page' : (v.itf.in_page ≡ 0) ⊎ (v.itf.in_page ≡ 1) =
        subst (λ k. (k ≡ 0) ⊎ (k ≡ 1)) (sym kept.1) page in
      let distinct' : v.itf.in_at 0 ≢ v.itf.in_at 1 =
        subst (λ a. a 0 ≢ a 1) (sym kept.2) distinct in
      let start' : start_of (get_ep ep v.dev).transfer_data (get_ep ep v.dev).transfer_length
          ≡ v.itf.in_at (other v.itf.in_page) =
        rw (kept.0, kept.1, kept.2) start in
      let free' : is_free (get_ep (in_ep (v.itf.in_ep_num % 16)) v.dev) ≡ true =
        rw (kept.0, kept.3) free in
      let (block, calls) =
        in_data_sends p o ep xs xss v small filled page' distinct' start' ready free' in
      let sent = in_data p o ep v in
      let same : sent.itf.in_bytes v.itf.in_page ≡ sent.itf.in_bytes c.itf.in_page =
        ap sent.itf.in_bytes kept.1 in
      (
        calls ∙ rw (kept.0, kept.1, kept.2, kept.3) refl,
        arrived_read p o' fuel n rx app ep' xs xss _ r
            (subst (λ b. IsBlock (xs ∷ xss) b) same block) got quiet e l,
      )
