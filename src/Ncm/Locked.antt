-- ===== src/Ncm/Locked.antt =====
-- The state that no put leaves: USBD_NCM_AllocDatagram without room.
use usbdevice.Base.{
  ℕ, ◌+◌, ◌≤◌, ◌<◌, ◌≡◌, ◌≢◌, ◌∙◌, refl, sym, subst, ap, arith, true, false, none, List, [], ◌∷◌,
  length,
}
use usbdevice.Device.{ReturnType, e_invalid, Platform}
use usbdevice.Ncm.{ntb_processing, is_ntb_processing, NcmCtx, NcmOptions, align4}
use usbdevice.Ncm.Events.{
  NcmEvent, put, alloc, set, take, sent, data_in, AreNoSets, step, run, take_fill,
}
use usbdevice.Ncm.Send.{in_data, alloc_datagram, put_datagram}
use usbdevice.Ncm.Stages.{data_stage}

module _ (p : Platform) (o : NcmOptions) where
  -- A put, whether it finds room or not.
  put_stuck :
      (xs : List ℕ) (c : NcmCtx)
      → is_ntb_processing c.itf.fill_state ≡ true
      → put_datagram p o xs c ≡ (e_invalid, c)
  unfolding put_datagram alloc_datagram
  put_stuck xs c h = ground (arith, h)

  alloc_stuck :
      (len : ℕ) (c : NcmCtx)
      → is_ntb_processing c.itf.fill_state ≡ true
      → (alloc_datagram p o len c).0 ≡ none
  unfolding alloc_datagram
  alloc_stuck len c h = ground (arith, h)

  put_overflow :
      (xs : List ℕ) (c : NcmCtx)
      → c.itf.rem_size < align4 (length xs) + 4
      → length xs ≤ 1514
      → c.itf.connection ≢ 0
      → is_ntb_processing c.itf.fill_state ≡ false
      → put_datagram p o xs c
        ≡ (e_invalid, record c { itf = record c.itf { fill_state = ntb_processing } })
  unfolding put_datagram alloc_datagram
  put_overflow xs c h l n f = ground (arith, h, l, n, f)

  rest_no_sets : (e : NcmEvent) (es : List NcmEvent) → AreNoSets (e ∷ es) → AreNoSets es
  rest_no_sets (put xs) es n = n
  rest_no_sets (alloc len) es n = n
  rest_no_sets set es n = absurd n
  rest_no_sets take es n = n
  rest_no_sets (sent ep) es n = n
  rest_no_sets (data_in d) es n = n

  step_stuck :
      (e : NcmEvent) (es : List NcmEvent) (c : NcmCtx)
      → AreNoSets (e ∷ es)
      → is_ntb_processing c.itf.fill_state ≡ true
      → is_ntb_processing (step p o e c).itf.fill_state ≡ true
  unfolding step alloc_datagram in_data data_stage
  step_stuck (put xs) es c n h =
      ap (λ v. is_ntb_processing v.1.itf.fill_state) (put_stuck xs c h) ∙ h
  step_stuck (alloc len) es c n h = ground (arith, h)
  step_stuck set es c n h = absurd n
  step_stuck take es c n h = ap (λ x. is_ntb_processing x.4) (take_fill p o c) ∙ h
  step_stuck (sent ep) es c n h = ground (arith, h)
  step_stuck (data_in d) es c n h = ground (arith, h)

  run_stuck :
      (es : List NcmEvent) (c : NcmCtx)
      → AreNoSets es
      → is_ntb_processing c.itf.fill_state ≡ true
      → is_ntb_processing (run p o es c).itf.fill_state ≡ true
  unfolding run
  run_stuck [] c n h = h
  run_stuck (e ∷ es) c n h =
      run_stuck es (step p o e c) (rest_no_sets e es n) (step_stuck e es c n h)

  -- After a datagram of a permitted length for which the block has no room, every later one is refused,
  -- whatever datagrams are put, allocated and taken, transfers end and sizes the host sets, unless the
  -- application completes a datagram that it has not been given.
  pub overflow_locks :
      (xs ys : List ℕ) (es : List NcmEvent) (c : NcmCtx)
      → c.itf.connection ≢ 0
      → length xs ≤ 1514
      → is_ntb_processing c.itf.fill_state ≡ false
      → c.itf.rem_size < align4 (length xs) + 4
      → AreNoSets es
      → let (r, v) = put_datagram p o xs c in
        (r ≡ e_invalid)
        × (put_datagram p o ys (run p o es v) ≡ (e_invalid, run p o es v))
        × ((alloc_datagram p o (length ys) (run p o es v)).0 ≡ none)
  overflow_locks xs ys es c n l f h s =
      let v = record c { itf = record c.itf { fill_state = ntb_processing } } in
      let full = put_overflow xs c h l n f in
      let locked = run_stuck es v s refl in
      let after = λ (x : ReturnType × NcmCtx).
        (x.0 ≡ e_invalid)
        × (put_datagram p o ys (run p o es x.1) ≡ (e_invalid, run p o es x.1))
        × ((alloc_datagram p o (length ys) (run p o es x.1)).0 ≡ none) in
      subst after (sym full)
        (refl, put_stuck ys (run p o es v) locked, alloc_stuck (length ys) (run p o es v) locked)
