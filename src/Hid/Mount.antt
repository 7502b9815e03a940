-- ===== src/Hid/Mount.antt =====
-- The class on its device: Class/HID/usbd_hid.c, its descriptor and its mounting.
use usbdevice.Base.{
  ◌∙◌, ℕ, ◌+◌, ◌%◌, ◌&&◌, List, [], ◌∷◌, ◌++◌, ltb, if◌then◌else◌, take, get_or, ◌*◌, none, ◌≤◌,
  ◌≡◌, ◌<◌, arith, true, false,
}
use usbdevice.Device.{
  ReturnType, e_ok, e_error, type_interrupt, is_high, speed_full, pd_ep_open, Platform, Device,
  get_ep,
}
use usbdevice.Descriptor.{ep_desc, ep_hs_interval}
use usbdevice.Endpoint.{ep_addr2ref, ep_open}
use usbdevice.Bulk.{bind_ep, mount_at}
use usbdevice.Hid.{HidCtx, HidOptions, HidApp, on_hid_dev, hid_class_desc, has_out, limit_to, init}

module _ (p : Platform) (o : HidOptions) (app : HidApp) where
  -- An endpoint descriptor whose last byte is the interval, in microframes at high speed.
  abbrev pub interval_code : Device → ℕ → ℕ
  interval_code d ms = if p.hs_support && is_high d.speed then ep_hs_interval ms else ms

  abbrev pub interrupt_desc : ℕ → ℕ → Device → List ℕ
  interrupt_desc addr ms d = take 6 (ep_desc addr d) ++ (interval_code d ms ∷ [])

  -- `hid_getDesc`; with a single interface the numbers stay those of the constant.
  unfoldable pub get_desc : ℕ → HidCtx → List ℕ
  get_desc if_num c =
      let several = ltb 1 p.max_if_count in
      let two = has_out p o app c.itf in
      let out_desc = interrupt_desc c.itf.out_ep_num app.report.output_interval_ms c.dev in
      9
      ∷ 4
      ∷ (if several then if_num else 0)
      ∷ 0
      ∷ (if two then 2 else 1)
      ∷ 0x03
      ∷ 0
      ∷ 0
      ∷ (if several then (1 + if_num) % 256 else 1)
      ∷ (hid_class_desc app.report.desc_length
          ++ (interrupt_desc c.itf.in_ep_num app.report.input_interval_ms c.dev
              ++ (if two then out_desc else [])))

  -- The largest packets of the build, `HID_EP_MPS`.
  abbrev hid_ep_mps : ℕ
  hid_ep_mps = if p.hs_support then 1024 else 64

  -- `USBD_HID_MountInterface`
  unfoldable pub mount_interface : HidCtx → ReturnType × HidCtx
  mount_interface c =
      let i = c.itf in
      let in_size = limit_to hid_ep_mps app.report.input_max_size in
      let out_size = limit_to hid_ep_mps app.report.output_max_size in
      let bind_in = λ (d : Device). bind_ep type_interrupt in_size i.in_ep_num d in
      let bind_out = λ (d : Device).
        if has_out p o app i then bind_ep type_interrupt out_size i.out_ep_num d else d in
      if ltb c.dev.if_count p.max_if_count
      then (e_ok, on_hid_dev (λ (d : Device). mount_at i.self (bind_out (bind_in d))) c)
      else (e_error, c)

  mounted_size :
      (n : ℕ) (c : HidCtx)
      → p.hs_support ≡ true
      → o.out_support ≡ false
      → c.itf.in_ep_num ≡ 128 + n
      → n < 16
      → app.report.input_max_size ≤ 1024
      → c.dev.if_count < p.max_if_count
      → let v = (mount_interface c).1 in
        (get_ep (ep_addr2ref v.itf.in_ep_num) v.dev).max_packet_size ≡ app.report.input_max_size
  unfolding mount_interface ep_addr2ref
  mounted_size n c hs off e b small room = ground arith

  desc_size :
      (if_num : ℕ) (c : HidCtx)
      → let e = get_ep (ep_addr2ref c.itf.in_ep_num) c.dev in
        e.max_packet_size ≤ 1024
        → get_or (get_desc if_num c) 22 0 + 256 * get_or (get_desc if_num c) 23 0
          ≡ e.max_packet_size
  unfolding get_desc ep_desc
  desc_size if_num c small = omega arith

  -- In a build for high speed and without OUT endpoints, the descriptor of a mounted interface states
  -- the size of the largest report up to 1024 bytes at full speed too, while the endpoint is opened
  -- with the 64 bytes that full speed allows. (The application has no function Init.)
  pub desc_oversize :
      (n if_num : ℕ) (c : HidCtx)
      → p.hs_support ≡ true
      → c.dev.speed ≡ speed_full
      → o.out_support ≡ false
      → app.app_init ≡ none
      → c.itf.in_ep_num ≡ 128 + n
      → n < 16
      → 64 < app.report.input_max_size
      → app.report.input_max_size ≤ 1024
      → c.dev.if_count < p.max_if_count
      → let v = (mount_interface c).1 in
        let desc = get_desc if_num v in
        (get_or desc 22 0 + 256 * get_or desc 23 0 ≡ app.report.input_max_size)
        × ((init p o app c).dev.calls ≡ pd_ep_open (128 + n) type_interrupt 64 ∷ c.dev.calls)
  unfolding init ep_open
  desc_oversize n if_num c hs fs off quiet e b big small room =
      let size = mounted_size n c hs off e b small room in
      (desc_size if_num (mount_interface c).1 (omega (arith, size, small)) ∙ size, ground arith)
