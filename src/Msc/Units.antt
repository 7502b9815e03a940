-- ===== src/Msc/Units.antt =====
-- No operation of the class changes its logical units.
use usbdevice.Base.{ℕ, zero, suc, ◌+◌, ◌≡◌, ◌∙◌, refl, leb, get_or, Bool-cases, inl, inr, arith}
use usbdevice.Device.{Platform, EpRef}
use usbdevice.Msc.{MscState, command_out, data_in, data_out, Msc, MscCtx}
use usbdevice.Msc.Blocks.{
  send_csw, receive_cbw, read10, write10, in_data, process_read, process_write, put_sense_code, aim,
  read_part, write_part, move_on, on_msc,
}
use usbdevice.Msc.Commands.{
  process_command, send_response, route_command, verify10, inquiry_command, read_format_capacity,
  test_unit_ready, request_sense, start_stop_unit, prevent_allow_medium_removal, mode_sense6,
  mode_sense10, read_capacity10,
}
use usbdevice.Msc.Transport.{
  out_data, out_data_at, setup_stage, take_command, take_data, close_command, reject_cbw,
  open_status, is_valid_cbw,
}
use usbdevice.Msc.Mount.{init, deinit, for_units, init_unit, deinit_unit}

module _ (p : Platform) where
  process_read-lus : (c : MscCtx) → (process_read p c).1.itf.lus ≡ c.itf.lus
  unfolding process_read read_part move_on put_sense_code
  process_read-lus c = ground arith

  process_write-lus : (c : MscCtx) → (process_write p c).1.itf.lus ≡ c.itf.lus
  unfolding process_write write_part move_on put_sense_code
  process_write-lus c = ground arith

  read10-lus : (c : MscCtx) → (read10 p c).1.itf.lus ≡ c.itf.lus
  unfolding read10 put_sense_code aim
  read10-lus c =
      ground (arith, process_read-lus (record c { itf = record (aim c.itf) { state = data_in } }))

  write10-lus : (c : MscCtx) → (write10 p c).1.itf.lus ≡ c.itf.lus
  unfolding write10 put_sense_code aim
  write10-lus c = ground arith

  route_command-lus : (op : ℕ) (c : MscCtx) → (route_command p op c).1.itf.lus ≡ c.itf.lus
  unfolding route_command verify10 inquiry_command read_format_capacity test_unit_ready
      request_sense start_stop_unit prevent_allow_medium_removal mode_sense6 mode_sense10
      read_capacity10 put_sense_code
  route_command-lus op c = ground (arith, read10-lus c, write10-lus c)

  send_response-lus : (v : ℕ × MscCtx) → (send_response p v).itf.lus ≡ v.1.itf.lus
  unfolding send_response
  send_response-lus (len, c) = ground arith

  close_command-lus : (c : MscCtx) → (close_command p c).itf.lus ≡ c.itf.lus
  unfolding close_command send_csw receive_cbw
  close_command-lus c = ground arith

  take_command-lus : (len : ℕ) (c : MscCtx) → (take_command p len c).itf.lus ≡ c.itf.lus
  unfolding take_command process_command reject_cbw open_status put_sense_code
  take_command-lus len c =
      let o = on_msc open_status c in
      let v = route_command p (get_or c.itf.cbw.cb 0 0) o in
      elim (Bool-cases (is_valid_cbw len c.itf)) [
        | inl e ↦ rw e (
            close_command-lus (send_response p v)
            ∙ (send_response-lus v ∙ route_command-lus (get_or c.itf.cbw.cb 0 0) o))
        | inr e ↦ rw e refl
      ]

  take_data-lus : (c : MscCtx) → (take_data p c).itf.lus ≡ c.itf.lus
  unfolding take_data send_csw receive_cbw
  take_data-lus c = ground (arith, process_write-lus c)

  out_data_at-lus :
      (s : MscState) (len : ℕ) (c : MscCtx) → (out_data_at p s len c).itf.lus ≡ c.itf.lus
  unfolding send_csw receive_cbw
  out_data_at-lus command_out len c = take_command-lus len c
  out_data_at-lus data_out len c = take_data-lus c
  out_data_at-lus _ len c = ground arith

  pub out_data-lus : (ep : EpRef) (c : MscCtx) → (out_data p ep c).itf.lus ≡ c.itf.lus
  unfolding out_data
  out_data-lus ep c = out_data_at-lus c.itf.state _ c

  pub in_data-lus : (c : MscCtx) → (in_data p c).itf.lus ≡ c.itf.lus
  unfolding in_data send_csw receive_cbw
  in_data-lus c = ground (arith, process_read-lus c)

  pub setup_stage-lus : (c : MscCtx) → (setup_stage p c).1.itf.lus ≡ c.itf.lus
  unfolding setup_stage
  setup_stage-lus c = ground arith

  for_units-lus :
      (body : ℕ → Msc → Msc)
      → ((lun : ℕ) (i : Msc) → (body lun i).lus ≡ i.lus)
      → (fuel lun : ℕ) (i : Msc) → (for_units body fuel lun i).lus ≡ i.lus
  unfolding for_units
  for_units-lus body keep zero lun i = refl
  for_units-lus body keep (suc fuel) lun i = elim (Bool-cases (leb lun i.max_lun)) [
    | inl e ↦ rw e (for_units-lus body keep fuel (lun + 1) (body lun i) ∙ keep lun i)
    | inr e ↦ rw e refl
  ]

  init_unit-lus : (lun : ℕ) (i : Msc) → (init_unit lun i).lus ≡ i.lus
  unfolding init_unit
  init_unit-lus lun i = ground arith

  deinit_unit-lus : (lun : ℕ) (i : Msc) → (deinit_unit lun i).lus ≡ i.lus
  unfolding deinit_unit
  deinit_unit-lus lun i = ground arith

  pub init-lus : (c : MscCtx) → (init p c).itf.lus ≡ c.itf.lus
  unfolding init receive_cbw
  init-lus c = for_units-lus init_unit init_unit-lus 256 0 _

  pub deinit-lus : (c : MscCtx) → (deinit p c).itf.lus ≡ c.itf.lus
  unfolding deinit
  deinit-lus c = for_units-lus deinit_unit deinit_unit-lus 256 0 _
