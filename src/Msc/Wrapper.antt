-- ===== src/Msc/Wrapper.antt =====
-- The status wrappers that answer the command wrappers.
use usbdevice.Base.{
  ℕ, ◌≤◌, ◌<◌, ◌≡◌, ◌⊎◌, inl, inr, true, false, refl, arith, get_or, Bool-cases, ap,
}
use usbdevice.Device.{Platform, EpRef, get_ep}
use usbdevice.Msc.{MscState, command_out, data_out, data_in, cmd_passed, Msc, MscCtx, word_mod}
use usbdevice.Msc.Blocks.{
  send_csw, receive_cbw, read10, write10, in_data, process_read, process_write, put_sense_code, aim,
  read_part, write_part, move_on, on_msc, in_data_at,
}
use usbdevice.Msc.Commands.{
  is_command_out, process_command, send_response, route_command, verify10, inquiry_command,
  read_format_capacity, test_unit_ready, request_sense, start_stop_unit,
  prevent_allow_medium_removal, mode_sense6, mode_sense10, read_capacity10,
}
use usbdevice.Msc.Transport.{
  out_data, take_command, take_data, close_command, reject_cbw, open_status, is_valid_cbw,
}
use usbdevice.Msc.Medium.{is_moving}

-- The status wrapper answers the command: it has its tag, its residue is at most the length that the
-- host has asked for, and is what a transfer under way has still to move.
pub record Answers (i : Msc) : Type 0 where
  pub same_tag : i.csw.tag ≡ i.cbw.tag
  pub residue_le : i.csw.data_residue ≤ i.cbw.data_length
  pub word : i.cbw.data_length < word_mod
  pub rest : is_moving i.state ≡ true → i.rem_length ≡ i.csw.data_residue
  pub known : i.csw.status ≤ 1

module _ (p : Platform) where
  process_read-Answers :
      (c : MscCtx) → is_moving c.itf.state ≡ true → Answers c.itf → Answers (process_read p c).1.itf
  unfolding process_read read_part move_on put_sense_code
  process_read-Answers c s v = ground arith

  process_write-Answers :
      (c : MscCtx)
      → is_moving c.itf.state ≡ true
      → Answers c.itf
      → Answers (process_write p c).1.itf
  unfolding process_write write_part move_on put_sense_code
  process_write-Answers c s v = ground arith

  in_data-Answers : (c : MscCtx) → Answers c.itf → Answers (in_data p c).itf
  unfolding in_data send_csw receive_cbw
  in_data-Answers c v = ground (arith, process_read-Answers c)

  take_data-Answers :
      (c : MscCtx) → is_moving c.itf.state ≡ true → Answers c.itf → Answers (take_data p c).itf
  unfolding take_data send_csw receive_cbw
  take_data-Answers c s v = ground (arith, process_write-Answers c s v)

  -- A command that has just been received.
  record Opened (i : Msc) : Type 0 where
    same_tag : i.csw.tag ≡ i.cbw.tag
    whole : i.csw.data_residue ≡ i.cbw.data_length
    word : i.cbw.data_length < word_mod
    waiting : i.state ≡ command_out
    passed : i.csw.status ≡ cmd_passed

  Opened-Answers : (i : Msc) → Opened i → Answers i
  Opened-Answers i v = ground arith

  in_data-kept :
      (c : MscCtx)
      → (c.itf.state ≡ command_out) ⊎ Answers c.itf
      → (c.itf.state ≡ command_out) × (in_data p c ≡ c) ⊎ Answers (in_data p c).itf
  unfolding in_data
  in_data-kept c (inl e) = inl (e, ap (λ s. in_data_at p s c) e)
  in_data-kept c (inr v) = inr (in_data-Answers c v)

  read10-Answers : (c : MscCtx) → Opened c.itf → Answers (read10 p c).1.itf
  unfolding read10 put_sense_code aim
  read10-Answers c v =
      let d = record c { itf = record (aim c.itf) { state = data_in } } in
      let started : c.itf.cbw.data_length ≡ (aim c.itf).rem_length
          → Answers (process_read p d).1.itf =
        λ e. process_read-Answers d refl (ground arith) in
      ground (arith, started)

  write10-Answers : (c : MscCtx) → Opened c.itf → Answers (write10 p c).1.itf
  unfolding write10 put_sense_code aim
  write10-Answers c v = ground arith

  -- A command that has not started a transfer leaves the whole residue.
  abbrev Unmoved : Msc → Type 0
  Unmoved i = is_command_out i.state ≡ true → i.csw.data_residue ≡ i.cbw.data_length

  process_read_busy :
      (c : MscCtx) → c.itf.state ≡ data_in → is_command_out (process_read p c).1.itf.state ≡ false
  unfolding process_read read_part move_on put_sense_code
  process_read_busy c s = ground arith

  read10-Unmoved : (c : MscCtx) → Opened c.itf → Unmoved (read10 p c).1.itf
  unfolding read10 put_sense_code aim
  read10-Unmoved c v =
      let d = record c { itf = record (aim c.itf) { state = data_in } } in
      ground (arith, process_read_busy d refl)

  write10-Unmoved : (c : MscCtx) → Opened c.itf → Unmoved (write10 p c).1.itf
  unfolding write10 put_sense_code aim
  write10-Unmoved c v = ground arith

  route_command-Answers :
      (op : ℕ) (c : MscCtx)
      → Opened c.itf
      → Answers (route_command p op c).1.itf × Unmoved (route_command p op c).1.itf
  unfolding route_command verify10 inquiry_command read_format_capacity test_unit_ready
      request_sense start_stop_unit prevent_allow_medium_removal mode_sense6 mode_sense10
      read_capacity10 put_sense_code
  route_command-Answers op c v =
      ground
        (arith, read10-Answers c v, write10-Answers c v, read10-Unmoved c v, write10-Unmoved c v)

  send_response-Answers :
      (v : ℕ × MscCtx) → Answers v.1.itf → Unmoved v.1.itf → Answers (send_response p v).itf
  unfolding send_response
  send_response-Answers (len, c) v u = ground arith

  close_command-Answers : (c : MscCtx) → Answers c.itf → Answers (close_command p c).itf
  unfolding close_command send_csw receive_cbw
  close_command-Answers c v = ground arith

  reject_cbw-Answers : (c : MscCtx) → Answers c.itf → Answers (reject_cbw p c).itf
  unfolding reject_cbw put_sense_code
  reject_cbw-Answers c v = ground arith

  open_status-Opened :
      (i : Msc) → i.state ≡ command_out → i.cbw.data_length < word_mod → Opened (open_status i)
  unfolding open_status
  open_status-Opened i s w = ground arith

  take_command-Answers :
      (len : ℕ) (c : MscCtx)
      → c.itf.state ≡ command_out
      → c.itf.cbw.data_length < word_mod
      → Answers (take_command p len c).itf
  unfolding take_command process_command
  take_command-Answers len c s w =
      let o = on_msc open_status c in
      let v = route_command p (get_or o.itf.cbw.cb 0 0) o in
      let opened = open_status-Opened c.itf s w in
      let (routed, unmoved) = route_command-Answers (get_or o.itf.cbw.cb 0 0) o opened in
      elim (Bool-cases (is_valid_cbw len c.itf)) [
        | inl e ↦ rw e (close_command-Answers _ (send_response-Answers v routed unmoved))
        | inr e ↦ rw e (reject_cbw-Answers o (Opened-Answers o.itf opened))
      ]

  out_data-Answers :
      (s : MscState) (ep : EpRef) (c : MscCtx)
      → c.itf.state ≡ s
      → (c.itf.state ≡ command_out) ⊎ Answers c.itf
      → c.itf.cbw.data_length < word_mod
      → Answers (out_data p ep c).itf
  unfolding out_data send_csw receive_cbw
  out_data-Answers command_out ep c s h w =
      ground (arith, take_command-Answers (get_ep ep c.dev).transfer_length c s w)
  out_data-Answers data_out ep c s h w = ground (arith, take_data-Answers c)
  out_data-Answers _ ep c s h w = ground arith

  -- The status wrapper answers the command after every OUT event, whatever was received: its tag is that
  -- of the command, its residue is at most the length that the host has asked for, and exactly what
  -- remains of a transfer under way. An IN event keeps this; it changes nothing while the interface waits
  -- for a command. (The length of a command fits in its 32 bits, and before the event the wrapper answers
  -- the command, or the interface waits for one.)
  pub wrapper-Answers :
      (ep : EpRef) (c : MscCtx)
      → (c.itf.state ≡ command_out) ⊎ Answers c.itf
      → c.itf.cbw.data_length < word_mod
      → Answers (out_data p ep c).itf
        × ((c.itf.state ≡ command_out) × (in_data p c ≡ c) ⊎ Answers (in_data p c).itf)
  wrapper-Answers ep c h w = (out_data-Answers c.itf.state ep c refl h w, in_data-kept c h)
