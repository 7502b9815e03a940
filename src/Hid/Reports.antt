-- ===== src/Hid/Reports.antt =====
-- Reports over endpoint 0.
use usbdevice.Base.{ℕ, ◌*◌, ◌/◌, ◌%◌, ◌<◌, ◌≡◌, ◌≢◌, ◌⊎◌, arith, some, ◌∷◌, min}
use usbdevice.Device.{
  e_ok, e_error, type_class, direction_in, direction_out, state_setup, Buffer, ctrl_data_buffer,
  memory, pd_ep_send, pd_ep_receive, Platform, out_ep, get_ep,
}
use usbdevice.Control.{ctrl_send_data, ctrl_receive_data}
use usbdevice.Hid.{
  HidCtx, HidOptions, HidApp, setup_stage, data_stage, get_report_request, set_report_request,
  set_idle_request, report_in, set_request, report_output,
}

module _ (p : Platform) (o : HidOptions) (app : HidApp) where
  -- GET_REPORT, when the application answers with a report of the requested identifier: the report is
  -- sent on endpoint 0, cut to the length that the host asks for, and the request is over.
  pub get_report_answered :
      (at len : ℕ) (c : HidCtx)
      → app.get_report ≡ some (λ type id x. (report_in p at len x).1)
      → c.dev.setup.type ≡ type_class
      → c.dev.setup.request ≡ 0x01
      → c.dev.setup.direction ≡ direction_in
      → (get_ep (out_ep 0) c.dev).state ≡ state_setup
      → c.dev.setup.value / 256 ≢ 0
      → (c.dev.setup.value % 256 ≡ 0) ⊎ (c.dev.setup.value % 256 ≡ c.ram at)
      → let v = setup_stage p o app c in
        (v.0 ≡ e_ok)
        × (v.1.dev.calls ≡ pd_ep_send 0x80 (memory at) (min len c.dev.setup.length) ∷ c.dev.calls)
        × (v.1.itf ≡ record c.itf { request = 0 })
  unfolding setup_stage get_report_request report_in ctrl_send_data
  get_report_answered at len c g t q d s h id = ground arith

  -- GET_REPORT of a report of some type, when the application leaves the request as it is, is refused.
  pub get_report_refused :
      (f : ℕ → ℕ → HidCtx → HidCtx) (c : HidCtx)
      → app.get_report ≡ some f
      → ((type id : ℕ) (x : HidCtx) → (f type id x).itf.request ≡ x.itf.request)
      → c.dev.setup.type ≡ type_class
      → c.dev.setup.request ≡ 0x01
      → c.dev.setup.value / 256 ≢ 0
      → ((setup_stage p o app c).0 ≡ e_error) × ((setup_stage p o app c).1.itf.request ≡ 0)
  unfolding setup_stage get_report_request
  get_report_refused f c g k t q h = ground (
    arith,
    k (c.dev.setup.value / 256) (c.dev.setup.value % 256) (set_request (c.dev.setup.value / 256) c),
  )

  -- SET_REPORT of an output report, when the host announces more than the largest one: only that much is
  -- received, but the application is told the length that the host has announced.
  set_report_overstates :
      (f : ℕ → Buffer → ℕ → HidCtx → HidCtx) (c : HidCtx)
      → app.set_report ≡ some f
      → c.dev.setup.type ≡ type_class
      → c.dev.setup.request ≡ 0x09
      → c.dev.setup.direction ≡ direction_out
      → (get_ep (out_ep 0) c.dev).state ≡ state_setup
      → c.dev.setup.value / 256 ≡ report_output
      → app.report.output_max_size < c.dev.setup.length
      → let v = (setup_stage p o app c).1 in
        (v.dev.calls ≡ pd_ep_receive 0x00 ctrl_data_buffer app.report.output_max_size ∷ c.dev.calls)
        × (data_stage p o app v
            ≡ set_request 0
                (f report_output ctrl_data_buffer c.dev.setup.length (set_request report_output v)))
  unfolding setup_stage set_report_request data_stage ctrl_receive_data
  set_report_overstates f c g t q d s h m = ground arith

  -- SET_IDLE of a single report with a duration: the application is told four times the stored rate of
  -- all reports, whatever duration the host has asked for.
  pub set_idle_single :
      (f : ℕ → ℕ → HidCtx → HidCtx) (c : HidCtx)
      → app.set_idle ≡ some f
      → c.dev.setup.type ≡ type_class
      → c.dev.setup.request ≡ 0x0A
      → c.dev.setup.value % 256 ≢ 0
      → c.dev.setup.value / 256 ≢ 0
      → setup_stage p o app c ≡ (e_ok, f (4 * c.itf.idle_rate) (c.dev.setup.value % 256) c)
  unfolding setup_stage set_idle_request
  set_idle_single f c g t q h d = ground arith
