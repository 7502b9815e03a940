-- ===== src/Cdc/Coding.antt =====
-- The line coding, with which the host opens and closes the port.
use usbdevice.Base.{ℕ, ◌+◌, ◌<◌, ◌≤◌, ◌≡◌, ◌≢◌, ◌∙◌, ap, refl, arith, if◌then◌else◌, some}
use usbdevice.Device.{
  e_ok, type_class, type_bulk, type_interrupt, direction_out, state_setup, state_closed, state_idle,
  itf_field, line_coding_field, Platform, Device, get_ep, in_ep, out_ep,
}
use usbdevice.Endpoint.{ep_addr2ref, ep_open, ep_close}
use usbdevice.Control.{ctrl_receive_data}
use usbdevice.Bulk.{bulk_mps, reset_mps}
use usbdevice.Cdc.{
  LineCoding, CdcCtx, CdcOptions, CdcApp, tell_close, has_notep, not_packet_size, init, deinit,
  setup_stage, data_stage,
}

module _ (p : Platform) (o : CdcOptions) (app : CdcApp) where
  -- The port is closed once: whatever the application does when it is told, a second deinitialisation
  -- changes nothing and does not tell it again.
  pub deinit_once : (c : CdcCtx) → deinit p o app (deinit p o app c) ≡ deinit p o app c
  unfolding deinit
  deinit_once c = ground arith

  -- The device after the endpoints of the interface were closed.
  abbrev closed_dev : CdcCtx → Device
  closed_dev c =
      let i = c.itf in
      let bulk = ep_close p i.out_ep_num (ep_close p i.in_ep_num c.dev) in
      if has_notep p o app i then ep_close p i.not_ep_num bulk else bulk

  deinit_quiet :
      (c : CdcCtx)
      → c.itf.line_coding.data_bits ≢ 0
      → ((x : CdcCtx) → tell_close app.close_port x ≡ x)
      → deinit p o app c ≡ record c {
        itf = record c.itf { line_coding = record c.itf.line_coding { data_bits = 0 } };
        dev = reset_mps p c.itf.in_ep_num c.itf.out_ep_num (closed_dev c);
      }
  unfolding deinit
  deinit_quiet c d q = ground (arith, q (record c { dev = closed_dev c }))

  closed_dev_lem :
      (m n : ℕ) (c : CdcCtx)
      → c.itf.out_ep_num ≡ 1 + m
      → m < 15
      → c.itf.in_ep_num ≡ 129 + n
      → n < 15
      → 128 ≤ c.itf.not_ep_num
      → let v = reset_mps p c.itf.in_ep_num c.itf.out_ep_num (closed_dev c) in
        ((get_ep (in_ep (1 + n)) v).state ≡ state_closed)
        × ((get_ep (out_ep (1 + m)) v).state ≡ state_closed)
        × ((get_ep (out_ep 0) v).state ≡ (get_ep (out_ep 0) c.dev).state)
        × (v.setup ≡ c.dev.setup)
  unfolding ep_close ep_addr2ref
  closed_dev_lem m n c a b d e f = ground arith

  accept_coding :
      (c : CdcCtx)
      → c.dev.setup.type ≡ type_class
      → c.dev.setup.request ≡ 0x20
      → setup_stage p o app c ≡ (
          let d = deinit p o app c in
          let (r, v) = ctrl_receive_data p (itf_field c.itf.self line_coding_field) 7 d.dev in
          (r, record d { dev = v }))
  unfolding setup_stage
  accept_coding c t q = ground arith

  receive_coding :
      (m n self : ℕ) (d : Device)
      → d.setup.direction ≡ direction_out
      → (get_ep (out_ep 0) d).state ≡ state_setup
      → let v = ctrl_receive_data p (itf_field self line_coding_field) 7 d in
        (v.0 ≡ e_ok)
        × ((get_ep (in_ep (1 + n)) v.1).state ≡ (get_ep (in_ep (1 + n)) d).state)
        × ((get_ep (out_ep (1 + m)) v.1).state ≡ (get_ep (out_ep (1 + m)) d).state)
  unfolding ctrl_receive_data
  receive_coding m n self d e s = ground arith

  -- SET_LINE_CODING on an open port is accepted: both data endpoints are closed until the coding
  -- arrives, with the data bits cleared. (The application does not call the stack when the port is
  -- closed.)
  pub set_coding_closes :
      (m n : ℕ) (c : CdcCtx)
      → c.itf.out_ep_num ≡ 1 + m
      → m < 15
      → c.itf.in_ep_num ≡ 129 + n
      → n < 15
      → 128 ≤ c.itf.not_ep_num
      → c.itf.line_coding.data_bits ≢ 0
      → c.dev.setup.type ≡ type_class
      → c.dev.setup.request ≡ 0x20
      → c.dev.setup.direction ≡ direction_out
      → (get_ep (out_ep 0) c.dev).state ≡ state_setup
      → ((x : CdcCtx) → tell_close app.close_port x ≡ x)
      → let v = setup_stage p o app c in
        (v.0 ≡ e_ok)
        × (v.1.itf.line_coding.data_bits ≡ 0)
        × ((get_ep (in_ep (1 + n)) v.1.dev).state ≡ state_closed)
        × ((get_ep (out_ep (1 + m)) v.1.dev).state ≡ state_closed)
  set_coding_closes m n c a b d e f g h k l s q =
      let (ci, co, zero_state, setup) = closed_dev_lem m n c a b d e f in
      let v = reset_mps p c.itf.in_ep_num c.itf.out_ep_num (closed_dev c) in
      let (r, ri, ro) =
        receive_coding m n c.itf.self v (ap (λ x. x.direction) setup ∙ l) (zero_state ∙ s) in
      rw (accept_coding c h k, deinit_quiet c g q) (r, refl, ri ∙ ci, ro ∙ co)

  -- The device after the endpoints of the interface were opened.
  abbrev opened_dev : CdcCtx → Device
  opened_dev c =
      let i = c.itf in
      let mps = bulk_mps p c.dev in
      let bulk = ep_open p i.out_ep_num type_bulk mps (ep_open p i.in_ep_num type_bulk mps c.dev) in
      if has_notep p o app i
      then ep_open p i.not_ep_num type_interrupt not_packet_size bulk
      else bulk

  opened_dev_lem :
      (m n : ℕ) (c : CdcCtx)
      → c.itf.out_ep_num ≡ 1 + m
      → m < 15
      → c.itf.in_ep_num ≡ 129 + n
      → n < 15
      → 128 ≤ c.itf.not_ep_num
      → ((get_ep (in_ep (1 + n)) (opened_dev c)).state ≡ state_idle)
        × ((get_ep (out_ep (1 + m)) (opened_dev c)).state ≡ state_idle)
  unfolding ep_open ep_addr2ref
  opened_dev_lem m n c a b d e f = ground arith

  data_stage_told :
      (c : CdcCtx) (f : LineCoding → CdcCtx → CdcCtx)
      → app.open_port ≡ some f
      → c.dev.setup.request ≡ 0x20
      → c.itf.line_coding.data_bits ≢ 0
      → data_stage p o app c ≡ f c.itf.line_coding (record c { dev = opened_dev c })
  unfolding data_stage init
  data_stage_told c f e k g = ground arith

  -- When a coding with data bits has arrived, the application is told to open the port with this
  -- coding, after both data endpoints were opened.
  pub data_stage_opens :
      (m n : ℕ) (c : CdcCtx) (f : LineCoding → CdcCtx → CdcCtx)
      → app.open_port ≡ some f
      → c.dev.setup.request ≡ 0x20
      → c.itf.line_coding.data_bits ≢ 0
      → c.itf.out_ep_num ≡ 1 + m
      → m < 15
      → c.itf.in_ep_num ≡ 129 + n
      → n < 15
      → 128 ≤ c.itf.not_ep_num
      → (d : Device) × ((data_stage p o app c ≡ f c.itf.line_coding (record c { dev = d }))
          × ((get_ep (in_ep (1 + n)) d).state ≡ state_idle)
          × ((get_ep (out_ep (1 + m)) d).state ≡ state_idle))
  data_stage_opens m n c f o_f k g a b d e h =
      let (i, j) = opened_dev_lem m n c a b d e h in
      (opened_dev c, (data_stage_told c f o_f k g, i, j))
