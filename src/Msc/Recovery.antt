-- ===== src/Msc/Recovery.antt =====
-- Commands that are not valid, and commands that get no answer.
use usbdevice.Base.{
  ℕ, ◌≡◌, ◌≢◌, ◌⊎◌, inl, inr, true, false, refl, arith, ◌∷◌, get_or, ◌∙◌, ap, List, [], ◌<◌, subst,
  sym,
}
use usbdevice.Device.{
  Platform, EpRef, get_ep, pd_ep_set_stall, Device, state_idle, set_transfer_length, set_ep_state,
  ep_call, pd_ep_clear_stall,
}
use usbdevice.Endpoint.{ep_set_stall, ep_addr2ref}
use usbdevice.Msc.{MscState, command_out, stall, failing, Msc, MscCtx}
use usbdevice.Msc.Blocks.{on_msc, put_sense_code, illegal_request, in_data}
use usbdevice.Msc.Commands.{
  process_command, send_response, route_command, start_stop_unit, prevent_allow_medium_removal,
  mode_sense10,
}
use usbdevice.Msc.Transport.{
  out_data, out_data_at, take_command, close_command, reject_cbw, open_status, is_valid_cbw,
  cbw_sign,
}

-- The events in the error.
pub data LockedEvent : Type 0 where
  locked_out : EpRef → LockedEvent
  locked_in : LockedEvent
  host_event : (Device → Device) → LockedEvent

-- What the host and the driver have done to the device by them.
unfoldable pub changed : List LockedEvent → Device → Device
changed [] d = d
changed (host_event f ∷ es) d = changed es (f d)
changed (_ ∷ es) d = changed es d

module _ (p : Platform) where
  -- The driver and the device after CLEAR_FEATURE(ENDPOINT_HALT) for the endpoint with this address.
  abbrev pub halt_cleared : ℕ → Device → Device
  halt_cleared a d =
      let r = ep_addr2ref a in
      set_transfer_length r 0 (set_ep_state r state_idle (ep_call p r (pd_ep_clear_stall a) d))

  -- What may happen in the error: both callbacks, and whatever the host and the driver do to the
  -- device between them. The reset, which is a request to the class, is not among them.
  unfoldable pub meanwhile : List LockedEvent → MscCtx → MscCtx
  meanwhile [] c = c
  meanwhile (locked_out ep ∷ es) c = meanwhile es (out_data p ep c)
  meanwhile (locked_in ∷ es) c = meanwhile es (in_data p c)
  meanwhile (host_event f ∷ es) c = meanwhile es (record c { dev = f c.dev })

  still :
      (ep : EpRef) (c : MscCtx) → c.itf.state ≡ stall → c.itf.status ≡ failing → out_data p ep c ≡ c
  unfolding out_data
  still ep c s f = ground arith

  in_still : (c : MscCtx) → c.itf.state ≡ stall → c.itf.status ≡ failing → in_data p c ≡ c
  unfolding in_data
  in_still c s f = ground arith

  abbrev KeepsLocked : List LockedEvent → MscCtx → MscCtx → Type 0
  KeepsLocked es c x = ((meanwhile es x).itf ≡ c.itf) × ((meanwhile es x).dev ≡ changed es c.dev)

  locked :
      (es : List LockedEvent) (c : MscCtx)
      → c.itf.state ≡ stall
      → c.itf.status ≡ failing
      → ((meanwhile es c).itf ≡ c.itf) × ((meanwhile es c).dev ≡ changed es c.dev)
  unfolding meanwhile changed
  locked [] c s f = (refl, refl)
  locked (locked_out ep ∷ es) c s f =
      subst (KeepsLocked es c) (sym (still ep c s f)) (locked es c s f)
  locked (locked_in ∷ es) c s f = subst (KeepsLocked es c) (sym (in_still c s f)) (locked es c s f)
  locked (host_event g ∷ es) c s f = locked es (record c { dev = g c.dev }) s f

  reject_lem :
      (len : ℕ) (i : Msc)
      → (len ≢ 31)
        ⊎ ((i.cbw.signature ≢ cbw_sign)
            ⊎ ((i.max_lun < i.cbw.lun) ⊎ ((i.cbw.cb_length ≡ 0) ⊎ (16 < i.cbw.cb_length))))
      → is_valid_cbw len i ≡ false
  unfolding is_valid_cbw
  reject_lem len i h = ground arith

  -- While the interface waits for a command, a wrapper of another length than 31 bytes, or with another signature, an unknown logical unit
  -- or a command of no or more than 16 bytes, stalls both endpoints, is recorded as an illegal
  -- request, and calls no logical unit. Until the host resets the interface, whatever the callbacks of
  -- both endpoints and changes of the device come then, in whatever order, the interface stays as it is
  -- and the callbacks do nothing to the device: it is changed by those changes alone.
  pub bad_cbw_locks :
      (ep : EpRef) (es : List LockedEvent) (c : MscCtx)
      → c.itf.state ≡ command_out
      → ((get_ep ep c.dev).transfer_length ≢ 31)
        ⊎ ((c.itf.cbw.signature ≢ cbw_sign)
            ⊎ ((c.itf.max_lun < c.itf.cbw.lun)
                ⊎ ((c.itf.cbw.cb_length ≡ 0) ⊎ (16 < c.itf.cbw.cb_length))))
      → let v = out_data p ep c in
        (v.dev.calls
          ≡ pd_ep_set_stall c.itf.in_ep_num ∷ pd_ep_set_stall c.itf.out_ep_num ∷ c.dev.calls)
        × (v.itf.sense_key ≡ illegal_request)
        × (v.itf.log ≡ c.itf.log)
        × ((meanwhile es v).itf ≡ v.itf)
        × ((meanwhile es v).dev ≡ changed es v.dev)
  unfolding out_data take_command reject_cbw put_sense_code open_status ep_set_stall
  bad_cbw_locks ep es c s bad =
      let refused = reject_lem (get_ep ep c.dev).transfer_length c.itf bad in
      ground (arith, refused, locked es (out_data p ep c))

  at_command :
      (s : MscState) (len : ℕ) (c : MscCtx)
      → s ≡ command_out
      → out_data_at p s len c ≡ take_command p len c
  at_command s len c e = rw e refl

  take_valid :
      (ep : EpRef) (c : MscCtx)
      → c.itf.state ≡ command_out
      → is_valid_cbw (get_ep ep c.dev).transfer_length c.itf ≡ true
      → out_data p ep c ≡ close_command p (process_command p (on_msc open_status c))
  unfolding out_data take_command
  take_valid ep c s ok = at_command c.itf.state _ c s ∙ rw ok refl

  -- The commands with a response of length 0, and what is left of them.
  abbrev pub Silent : Msc → Type 0
  Silent i =
      (get_or i.cbw.cb 0 0 ≡ 0x1B)
      ⊎ ((get_or i.cbw.cb 0 0 ≡ 0x1E)
          ⊎ ((get_or i.cbw.cb 0 0 ≡ 0x5A) × (get_or i.cbw.cb 6 0 ≡ 0) × (get_or i.cbw.cb 7 0 ≡ 0)))

  Silent-route :
      (c : MscCtx)
      → Silent c.itf
      → let v = route_command p (get_or c.itf.cbw.cb 0 0) c in
        (v.0 ≡ 0)
        × (v.1.itf.state ≡ c.itf.state)
        × (v.1.itf.csw.status ≡ c.itf.csw.status)
        × (v.1.itf.cbw ≡ c.itf.cbw)
        × (v.1.dev ≡ c.dev)
  unfolding route_command start_stop_unit prevent_allow_medium_removal mode_sense10
  Silent-route c (inl e) = rw e (refl, refl, refl, refl, refl)
  Silent-route c (inr (inl e)) = rw e (refl, refl, refl, refl, refl)
  Silent-route c (inr (inr (e, f, g))) = rw e (ground arith, refl, refl, refl, refl)

  send_nothing : (v : ℕ × MscCtx) → v.0 ≡ 0 → send_response p v ≡ v.1
  unfolding send_response
  send_nothing (len, c) e = ground arith

  close_passed :
      (c : MscCtx)
      → c.itf.cbw.data_length ≢ 0
      → c.itf.csw.status ≡ 0
      → ((close_command p c).itf.state ≡ c.itf.state) × ((close_command p c).dev ≡ c.dev)
  unfolding close_command
  close_passed c n e = ground arith

  -- A valid command that asks for data, but is START STOP UNIT, PREVENT ALLOW MEDIUM REMOVAL, or
  -- MODE SENSE(10) with an allocation length below 256, which stands in the bytes 7 and 8, gets no
  -- answer: the interface waits for a command, and asks the driver neither to send its data or its
  -- status, nor to stall, nor to receive the next command.
  silent_lem :
      (ep : EpRef) (c : MscCtx)
      → c.itf.state ≡ command_out
      → is_valid_cbw (get_ep ep c.dev).transfer_length c.itf ≡ true
      → c.itf.cbw.data_length ≢ 0
      → (get_or c.itf.cbw.cb 0 0 ≡ 0x1B)
        ⊎ ((get_or c.itf.cbw.cb 0 0 ≡ 0x1E)
            ⊎ ((get_or c.itf.cbw.cb 0 0 ≡ 0x5A)
                × (get_or c.itf.cbw.cb 6 0 ≡ 0)
                × (get_or c.itf.cbw.cb 7 0 ≡ 0)))
      → ((out_data p ep c).itf.state ≡ command_out) × ((out_data p ep c).dev ≡ c.dev)
  unfolding out_data take_command process_command open_status
  silent_lem ep c s ok n e =
      let o = on_msc open_status c in
      let v = route_command p (get_or c.itf.cbw.cb 0 0) o in
      let (len, state, status, cbw, dev) = Silent-route o e in
      let sent = send_nothing v len in
      let (closed, same) =
        close_passed (process_command p o) (rw (sent, cbw) n) (rw (sent, status) refl) in
      let taken = take_valid ep c s ok in
      (
        ap (λ x. x.itf.state) taken ∙ (closed ∙ (rw sent state ∙ s)),
        ap (λ x. x.dev) taken ∙ (same ∙ rw sent dev),
      )
