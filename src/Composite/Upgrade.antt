-- ===== src/Composite/Upgrade.antt =====
-- The functions of the upgrade class mount no interface, and leave the configuration alone.
use usbdevice.Base.{
  ◌-◌, ◌∷◌, take, drop, length, overwrite, ℕ, refl, arith, Bool, List, Option, none, some,
}
use usbdevice.Device.{
  Buffer, e_ok, dev_status_field, dev_state_field, Platform, Device, ReturnType, ctrl_data_buffer,
  itf_field, rom,
}
use usbdevice.Control.{ctrl_receive_data}
use usbdevice.Bus.Kept.{KeepsMount, KeepsMount-refl, KeepsMount-trans}
use usbdevice.Bus.Descriptors.{send_data-mount}
use usbdevice.Composite.Endpoints.{stored-mount}
use usbdevice.Dfu.{State, dnload_busy, manifest, attributes, AppCall, app_read, Ctx}
use usbdevice.Dfu.Requests.{
  upload_length, upload_with, detach, download, download_block, upload, upload_block, upload_end,
  get_status, clear_status, get_state, abort, start_block,
}
use usbdevice.Dfu.Setup.{
  get_desc, func_desc, setup_stage, ro_setup_stage, class_request, call_request, send_func_desc,
  check, refuse,
}
use usbdevice.Dfu.Stages.{init, deinit, data_stage, work, do_manifest}

pub dfu_init-mount : (c : Ctx) → KeepsMount c.dev (init c).dev
unfolding init abort
dfu_init-mount c = ground (arith, KeepsMount-refl c.dev)

pub dfu_deinit-mount : (c : Ctx) → KeepsMount c.dev (deinit c).dev
unfolding deinit
dfu_deinit-mount c = KeepsMount-refl c.dev

receive_data-mount :
    (p : Platform) (b : Buffer) (n : ℕ) (d : Device) → KeepsMount d (ctrl_receive_data p b n d).1
unfolding ctrl_receive_data
receive_data-mount p b n d = record {
  count = ground arith;
  ifs = ground arith;
  config = ground arith;
  setup = ground arith;
}

module _ (p : Platform) (tolerant : Bool) where
  download-mount : (c : Ctx) → KeepsMount c.dev (download p c).1.dev
  unfolding download download_block
  download-mount c =
      ground (
        arith,
        KeepsMount-refl c.dev,
        receive_data-mount p ctrl_data_buffer c.dev.setup.length c.dev,
      )

  upload_block-mount :
      (f : List AppCall → List ℕ) (c : Ctx) → KeepsMount c.dev (upload_block p f c).1.dev
  unfolding upload_block
  upload_block-mount f c =
      let i = start_block c.itf in
      let len = upload_length i c.dev.setup.length in
      let bytes = take len (f (app_read i.address len ∷ i.log)) in
      let d = record c.dev { ctrl_data = overwrite bytes c.dev.ctrl_data } in
      ground (
        arith,
        KeepsMount-refl c.dev,
        KeepsMount-trans (stored-mount bytes c.dev) (send_data-mount p ctrl_data_buffer len d),
      )

  upload_with-mount :
      (o : Option (List AppCall → List ℕ)) (c : Ctx) → KeepsMount c.dev (upload_with p o c).1.dev
  unfolding upload_end
  upload_with-mount none c = KeepsMount-refl c.dev
  upload_with-mount (some f) c = upload_block-mount f c

  upload-mount : (c : Ctx) → KeepsMount c.dev (upload p c).1.dev
  unfolding upload upload_end
  upload-mount c = ground (arith, KeepsMount-refl c.dev, upload_with-mount c.itf.app.read c)

  status-mount : (c : Ctx) → KeepsMount c.dev (get_status p c).1.dev
  unfolding get_status
  status-mount c = send_data-mount p (itf_field c.itf.self dev_status_field) 6 c.dev

  state-mount : (c : Ctx) → KeepsMount c.dev (get_state p c).1.dev
  unfolding get_state
  state-mount c = send_data-mount p (itf_field c.itf.self dev_state_field) 1 c.dev

  call-mount : (q : ℕ) (c : Ctx) → KeepsMount c.dev (call_request p tolerant q c).1.dev
  unfolding call_request detach clear_status abort
  call-mount q c = ground (
    arith,
    KeepsMount-refl c.dev,
    download-mount c,
    upload-mount c,
    status-mount c,
    state-mount c,
  )

  check-mount :
      (d : Device) (v : ReturnType × Ctx) → KeepsMount d v.1.dev → KeepsMount d (check v).1.dev
  unfolding refuse
  check-mount d (e_ok, c) h = h
  check-mount d (_, c) h = h

  class_request-mount : (c : Ctx) → KeepsMount c.dev (class_request p tolerant c).1.dev
  unfolding class_request refuse
  class_request-mount c =
      let q = c.dev.setup.request in
      ground (
        arith,
        KeepsMount-refl c.dev,
        check-mount c.dev (call_request p tolerant q c) (call-mount q c),
      )

  func_desc-mount : (c : Ctx) → KeepsMount c.dev (send_func_desc p tolerant c).1.dev
  unfolding send_func_desc
  func_desc-mount c =
      let bytes = get_desc p tolerant 0 c.itf in
      let whole = overwrite bytes c.dev.ctrl_data in
      let moved = overwrite (take 9 (drop (length bytes - 9) whole)) whole in
      let d = record c.dev { ctrl_data = moved } in
      KeepsMount-trans {e = d} (record { count = refl; ifs = refl; config = refl; setup = refl })
        (send_data-mount p ctrl_data_buffer 9 d)

  pub setup-mount : (c : Ctx) → KeepsMount c.dev (setup_stage p tolerant c).1.dev
  unfolding setup_stage
  setup-mount c = ground (arith, KeepsMount-refl c.dev, class_request-mount c, func_desc-mount c)

  pub ro_setup-mount : (c : Ctx) → KeepsMount c.dev (ro_setup_stage p tolerant c).1.dev
  unfolding ro_setup_stage detach get_state
  ro_setup-mount c = ground (
    arith,
    KeepsMount-refl c.dev,
    send_data-mount p (rom (func_desc p (attributes tolerant) 100)) 9 c.dev,
    send_data-mount p (itf_field c.itf.self dev_status_field) 6 c.dev,
    send_data-mount p (itf_field c.itf.self dev_state_field) 1 c.dev,
  )

  work-mount : (s : State) (c : Ctx) → KeepsMount c.dev (work tolerant (λ d. d) s c).dev
  unfolding work do_manifest
  work-mount dnload_busy c = KeepsMount-refl c.dev
  work-mount manifest c = ground (arith, KeepsMount-refl c.dev)
  work-mount _ c = KeepsMount-refl c.dev

  pub data-mount : (c : Ctx) → KeepsMount c.dev (data_stage tolerant (λ d. d) c).dev
  unfolding data_stage
  data-mount c = ground (arith, KeepsMount-refl c.dev, work-mount c.itf.state c)
