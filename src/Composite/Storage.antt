-- ===== src/Composite/Storage.antt =====
-- The functions of the mass storage mount no interface, and leave the configuration alone.
use usbdevice.Base.{◌%◌, ◌∷◌, [], overwrite, ℕ, arith, get_or}
use usbdevice.Device.{
  Platform, EpRef, itf_field, cbw_field, csw_field, buffer_field, ctrl_data_buffer, type_bulk,
}
use usbdevice.Endpoint.{ep_open, ep_close, ep_send, ep_set_stall}
use usbdevice.Bulk.{bulk_mps}
use usbdevice.Msc.{
  MscStatus, normal, recovery, failing, MscState, command_out, data_in, data_out, status_in, stall,
  MscCtx,
}
use usbdevice.Msc.Blocks.{
  in_data_at, process_read, process_write, read10, write10, aim, read_part, write_part, receive_cbw,
  send_csw, in_data, on_msc, on_msc_dev, part_length,
}
use usbdevice.Msc.Commands.{cut, process_command, send_response, route_command}
use usbdevice.Msc.Transport.{
  unstalled, out_data, out_data_at, setup_stage, take_command, take_data, close_command, reject_cbw,
  open_status,
}
use usbdevice.Msc.Mount.{init, deinit}
use usbdevice.Bus.Kept.{KeepsMount, KeepsMount-refl, KeepsMount-trans}
use usbdevice.Bus.Descriptors.{send_data-mount}
use usbdevice.Composite.Endpoints.{
  stored-mount, open-mount, close-mount, stall-mount, send-mount, receive-mount, reset_mps-mount,
}

module _ (p : Platform) where
  process_read-mount : (c : MscCtx) → KeepsMount c.dev (process_read p c).1.dev
  unfolding process_read
  process_read-mount c =
      let i = (read_part c.itf).1 in
      ground (
        arith,
        KeepsMount-refl c.dev,
        send-mount p i.in_ep_num (itf_field i.self buffer_field) (part_length c.itf) c.dev,
      )

  process_write-mount : (c : MscCtx) → KeepsMount c.dev (process_write p c).1.dev
  unfolding process_write
  process_write-mount c =
      let i = (write_part c.itf).1 in
      ground (
        arith,
        KeepsMount-refl c.dev,
        receive-mount p i.out_ep_num (itf_field i.self buffer_field) (part_length c.itf) c.dev,
      )

  read10-mount : (c : MscCtx) → KeepsMount c.dev (read10 p c).1.dev
  unfolding read10
  read10-mount c = ground (
    arith,
    KeepsMount-refl c.dev,
    process_read-mount (on_msc (λ i. record (aim i) { state = data_in }) c),
  )

  write10-mount : (c : MscCtx) → KeepsMount c.dev (write10 p c).1.dev
  unfolding write10
  write10-mount c = ground (
    arith,
    KeepsMount-refl c.dev,
    receive-mount p c.itf.out_ep_num (itf_field c.itf.self buffer_field) (part_length (aim c.itf))
        c.dev,
  )

  route_command-mount : (op : ℕ) (c : MscCtx) → KeepsMount c.dev (route_command p op c).1.dev
  unfolding route_command
  route_command-mount op c = ground (arith, KeepsMount-refl c.dev, read10-mount c, write10-mount c)

  send_response-mount : (v : ℕ × MscCtx) → KeepsMount v.1.dev (send_response p v).dev
  unfolding send_response
  send_response-mount (len, c) =
      let n = cut len c.itf.cbw.data_length in
      ground (
        arith,
        KeepsMount-refl c.dev,
        send-mount p c.itf.in_ep_num (itf_field c.itf.self buffer_field) (n % 65536) c.dev,
      )

  receive_cbw-mount : (c : MscCtx) → KeepsMount c.dev (receive_cbw p c).dev
  unfolding receive_cbw
  receive_cbw-mount c = receive-mount p c.itf.out_ep_num (itf_field c.itf.self cbw_field) 31 c.dev

  send_csw-mount : (c : MscCtx) → KeepsMount c.dev (send_csw p c).dev
  unfolding send_csw
  send_csw-mount c =
      let v =
        on_msc_dev (λ d. (ep_send p c.itf.in_ep_num (itf_field c.itf.self csw_field) 13 d).1) c in
      KeepsMount-trans (send-mount p c.itf.in_ep_num (itf_field c.itf.self csw_field) 13 c.dev)
        (receive_cbw-mount v)

  close_command-mount : (c : MscCtx) → KeepsMount c.dev (close_command p c).dev
  unfolding close_command
  close_command-mount c = ground (
    arith,
    KeepsMount-refl c.dev,
    send_csw-mount c,
    stall-mount p c.itf.out_ep_num c.dev,
    stall-mount p c.itf.in_ep_num c.dev,
  )

  process_command-mount : (c : MscCtx) → KeepsMount c.dev (process_command p c).dev
  unfolding process_command
  process_command-mount c =
      let op = get_or c.itf.cbw.cb 0 0 in
      KeepsMount-trans (route_command-mount op c) (send_response-mount (route_command p op c))

  reject_cbw-mount : (c : MscCtx) → KeepsMount c.dev (reject_cbw p c).dev
  unfolding reject_cbw
  reject_cbw-mount c =
      KeepsMount-trans (stall-mount p c.itf.out_ep_num c.dev)
        (stall-mount p c.itf.in_ep_num (ep_set_stall p c.itf.out_ep_num c.dev))

  take_command-mount : (len : ℕ) (c : MscCtx) → KeepsMount c.dev (take_command p len c).dev
  unfolding take_command
  take_command-mount len c =
      let o = on_msc open_status c in
      ground (
        arith,
        KeepsMount-trans (process_command-mount o) (close_command-mount (process_command p o)),
        reject_cbw-mount o,
      )

  take_data-mount : (c : MscCtx) → KeepsMount c.dev (take_data p c).dev
  unfolding take_data
  take_data-mount c =
      let v = (process_write p c).1 in
      ground (
        arith,
        process_write-mount c,
        KeepsMount-trans (process_write-mount c) (stall-mount p v.itf.out_ep_num v.dev),
        KeepsMount-trans (process_write-mount c) (send_csw-mount v),
      )

  unstalled-mount : (s : MscStatus) (c : MscCtx) → KeepsMount c.dev (unstalled p s c).dev
  unstalled-mount normal c = send_csw-mount c
  unstalled-mount recovery c = receive_cbw-mount c
  unstalled-mount failing c = KeepsMount-refl c.dev

  out_at-mount :
      (s : MscState) (len : ℕ) (c : MscCtx) → KeepsMount c.dev (out_data_at p s len c).dev
  out_at-mount command_out len c = take_command-mount len c
  out_at-mount data_out len c = take_data-mount c
  out_at-mount _ len c = unstalled-mount c.itf.status c

  pub out_data-mount : (e : EpRef) (c : MscCtx) → KeepsMount c.dev (out_data p e c).dev
  unfolding out_data
  out_data-mount e c = out_at-mount c.itf.state _ c

  in_at-mount : (s : MscState) (c : MscCtx) → KeepsMount c.dev (in_data_at p s c).dev
  in_at-mount data_in c =
      let v = (process_read p c).1 in
      ground (
        arith,
        process_read-mount c,
        KeepsMount-trans (process_read-mount c) (stall-mount p v.itf.in_ep_num v.dev),
      )
  in_at-mount status_in c = ground (arith, KeepsMount-refl c.dev, send_csw-mount c)
  in_at-mount stall c = ground (arith, KeepsMount-refl c.dev, send_csw-mount c)
  in_at-mount _ c = KeepsMount-refl c.dev

  pub in_data-mount : (c : MscCtx) → KeepsMount c.dev (in_data p c).dev
  unfolding in_data
  in_data-mount c = in_at-mount c.itf.state c

  pub setup_stage-mount : (c : MscCtx) → KeepsMount c.dev (setup_stage p c).1.dev
  unfolding setup_stage
  setup_stage-mount c =
      let d = record c.dev { ctrl_data = overwrite (c.itf.max_lun ∷ []) c.dev.ctrl_data } in
      ground (
        arith,
        KeepsMount-refl c.dev,
        KeepsMount-trans (stored-mount (c.itf.max_lun ∷ []) c.dev)
            (send_data-mount p ctrl_data_buffer 1 d),
      )

  pub init-mount : (c : MscCtx) → KeepsMount c.dev (init p c).dev
  unfolding init receive_cbw
  init-mount c =
      let mps = bulk_mps p c.dev in
      let one = ep_open p c.itf.in_ep_num type_bulk mps c.dev in
      let both = ep_open p c.itf.out_ep_num type_bulk mps one in
      KeepsMount-trans (open-mount p c.itf.in_ep_num type_bulk mps c.dev) (
        KeepsMount-trans (open-mount p c.itf.out_ep_num type_bulk mps one)
          (receive-mount p c.itf.out_ep_num (itf_field c.itf.self cbw_field) 31 both))

  pub deinit-mount : (c : MscCtx) → KeepsMount c.dev (deinit p c).dev
  unfolding deinit
  deinit-mount c =
      let one = ep_close p c.itf.in_ep_num c.dev in
      let both = ep_close p c.itf.out_ep_num one in
      KeepsMount-trans (close-mount p c.itf.in_ep_num c.dev) (
        KeepsMount-trans (close-mount p c.itf.out_ep_num one)
          (reset_mps-mount p c.itf.in_ep_num c.itf.out_ep_num both))
