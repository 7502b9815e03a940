-- ===== src/Hid/Context.antt =====
-- The request that tells the contexts of USBD_HID_ReportIn apart: it is 0 between the callbacks.
use usbdevice.Base.{ℕ, ◌≡◌, refl, arith, Bool-cases, inl, inr, List, [], ◌∷◌}
use usbdevice.Device.{Buffer, memory, Platform, Device, EpRef}
use usbdevice.Endpoint.{ep_send}
use usbdevice.Hid.{
  HidCtx, HidOptions, HidApp, on_hid_dev, on_hid_result, init, deinit, setup_stage, data_stage,
  in_data, out_data, get_hid_descriptor, get_report_request, set_report_request, get_idle_request,
  set_idle_request, report_in, tell, tell_id, tell_two, tell_report, report_out,
}

-- The events that call the class: the driver and the host change the device between them.
pub data HidEvent : Type 0 where
  hid_init_event hid_deinit_event hid_setup_event hid_data_event : HidEvent
  hid_in_event hid_out_event : EpRef → HidEvent
  device_event : (Device → Device) → HidEvent

-- What an application does: it calls USBD_HID_ReportIn and USBD_HID_ReportOut, works with the rest of the
-- device and with its memory, and does not write the handle of the class itself.
pub data CallsOnly (p : Platform) (o : HidOptions) (c : HidCtx) : HidCtx → Type 0 where
  nothing : CallsOnly p o c c
  reported :
      (at len : ℕ) {v : HidCtx} → CallsOnly p o c v → CallsOnly p o c (report_in p at len v).1
  awaited :
      (at len : ℕ) {v : HidCtx} → CallsOnly p o c v → CallsOnly p o c (report_out p at len v).1
  elsewhere :
      (f : Device → Device) (m : ℕ → ℕ) {v : HidCtx}
      → CallsOnly p o c v
      → CallsOnly p o c (record v { dev = f v.dev; ram = m })

-- An application whose functions are like that. What it does in `GetReport` is left open.
pub record IsCaller (p : Platform) (o : HidOptions) (app : HidApp) : Type 0 where
  pub calls_init : (c : HidCtx) → CallsOnly p o c (tell app.app_init c)
  pub calls_deinit : (c : HidCtx) → CallsOnly p o c (tell app.app_deinit c)
  pub calls_idle : (ms id : ℕ) (c : HidCtx) → CallsOnly p o c (tell_two app.set_idle ms id c)
  pub calls_sent : (id : ℕ) (c : HidCtx) → CallsOnly p o c (tell_id app.in_report_sent id c)
  pub calls_report :
      (type : ℕ) (report : Buffer) (len : ℕ) (c : HidCtx)
      → CallsOnly p o c (tell_report app.set_report type report len c)

CallsOnly-request :
    (p : Platform) (o : HidOptions) (c : HidCtx) {v : HidCtx}
    → CallsOnly p o c v
    → c.itf.request ≡ 0
    → v.itf.request ≡ 0
unfolding report_in report_out
CallsOnly-request p o c nothing z = z
CallsOnly-request p o c (reported at len h) z = ground (arith, CallsOnly-request p o c h z)
CallsOnly-request p o c (awaited at len h) z = ground (arith, CallsOnly-request p o c h z)
CallsOnly-request p o c (elsewhere f m h) z = CallsOnly-request p o c h z

module _ (p : Platform) (o : HidOptions) (app : HidApp) where
  unfoldable pub step : HidEvent → HidCtx → HidCtx
  step hid_init_event c = init p o app c
  step hid_deinit_event c = deinit p o app c
  step hid_setup_event c = (setup_stage p o app c).1
  step hid_data_event c = data_stage p o app c
  step (hid_in_event ep) c = in_data p o app ep c
  step (hid_out_event ep) c = out_data p o app ep c
  step (device_event f) c = on_hid_dev f c

  unfoldable pub run : List HidEvent → HidCtx → HidCtx
  run [] c = c
  run (e ∷ es) c = run es (step e c)

  idle_quiet :
      IsCaller p o app
      → (c : HidCtx) → c.itf.request ≡ 0
      → (set_idle_request p o app c).1.itf.request ≡ 0
  unfolding set_idle_request
  idle_quiet q c z = CallsOnly-request p o _ (q.calls_idle _ _ _) (ground arith)

  setup_quiet :
      IsCaller p o app
      → (c : HidCtx) → c.itf.request ≡ 0
      → (setup_stage p o app c).1.itf.request ≡ 0
  unfolding setup_stage get_hid_descriptor get_report_request set_report_request get_idle_request
  setup_quiet q c z = ground (arith, idle_quiet q c z)

  step_quiet :
      IsCaller p o app
      → (e : HidEvent) (c : HidCtx) → c.itf.request ≡ 0
      → (step e c).itf.request ≡ 0
  unfolding step init deinit data_stage in_data out_data
  step_quiet q hid_init_event c z = CallsOnly-request p o _ (q.calls_init _) refl
  step_quiet q hid_deinit_event c z = CallsOnly-request p o _ (q.calls_deinit _) z
  step_quiet q hid_setup_event c z = setup_quiet q c z
  step_quiet q hid_data_event c z = ground arith
  step_quiet q (hid_in_event ep) c z = CallsOnly-request p o c (q.calls_sent _ c) z
  step_quiet q (hid_out_event ep) c z = elim (Bool-cases o.out_support) [
    | inl h ↦ rw h (CallsOnly-request p o c (q.calls_report _ _ _ c) z)
    | inr h ↦ rw h z
  ]
  step_quiet q (device_event f) c z = z

  run_quiet :
      IsCaller p o app
      → (es : List HidEvent) (c : HidCtx) → c.itf.request ≡ 0
      → (run es c).itf.request ≡ 0
  unfolding run
  run_quiet q [] c z = z
  run_quiet q (e ∷ es) c z = run_quiet q es (step e c) (step_quiet q e c z)

  -- After the interface is initialised and any events after that, a report that the application sends
  -- between the callbacks goes to the IN endpoint: endpoint 0 is left for the answer to a report request.
  -- (For an application that works on the handle by USBD_HID_ReportIn and USBD_HID_ReportOut only.)
  pub report_goes_in :
      IsCaller p o app
      → (es : List HidEvent) (at len : ℕ) (c : HidCtx)
      → let v = run es (init p o app c) in
        report_in p at len v ≡ on_hid_result (ep_send p v.itf.in_ep_num (memory at) len) v
  unfolding report_in init
  report_goes_in q es at len c =
      let started = CallsOnly-request p o _ (q.calls_init _) refl in
      ground (arith, run_quiet q es (init p o app c) started)
