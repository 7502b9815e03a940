-- ===== src/Cdc/Transmit.antt =====
-- Transfers to and from the host through the data interface.
use usbdevice.Base.{ℕ, ◌+◌, ◌≤◌, ◌<◌, ◌≡◌, ◌≢◌, ◌∙◌, ap, arith, true, false, ◌∷◌}
use usbdevice.Device.{
  e_error, memory, state_idle, state_data, pd_ep_send, Platform, Device, EpRef, in_ep, get_ep,
  put_ep,
}
use usbdevice.Bulk.{start_of}
use usbdevice.Endpoint.{ep_addr2ref, ep_send}
use usbdevice.Cdc.{
  CdcCtx, CdcOptions, CdcApp, on_cdc, on_cdc_dev, tell_data, splits, transmit, account, report,
  in_data, notify,
}

-- The driver at the end of a transfer: the endpoint is free again.
abbrev pub finish : EpRef → CdcCtx → CdcCtx
finish ep c =
    on_cdc_dev (λ (d : Device). put_ep ep (record (get_ep ep d) { state = state_idle }) d) c

module _ (p : Platform) (o : CdcOptions) (app : CdcApp) where
  -- A transfer whose length is not a multiple of the packet size is reported at once, with the address
  -- of its first byte.
  pub short_transfer_lem :
      (n : ℕ) (c : CdcCtx)
      → c.itf.in_ep_num ≡ 128 + n
      → n < 16
      → (get_ep (in_ep n) c.dev).state ≡ state_idle
      → (get_ep (in_ep n) c.dev).transfer_length ≢ 0
      → splits p o app (in_ep n) c.dev ≡ false
      → let e = get_ep (in_ep n) c.dev in
        in_data p o app (in_ep n) c
        ≡ tell_data app.transmitted (start_of e.transfer_data e.transfer_length) e.transfer_length c
  unfolding in_data account report ep_addr2ref
  short_transfer_lem n c a b s l w = ground arith

  -- A transfer of whole packets is not reported, but followed by a zero length packet, and the
  -- endpoint stays busy.
  pub whole_transfer_lem :
      (n : ℕ) (c : CdcCtx)
      → c.itf.in_ep_num ≡ 128 + n
      → n < 16
      → (get_ep (in_ep n) c.dev).state ≡ state_idle
      → splits p o app (in_ep n) c.dev ≡ true
      → let e = get_ep (in_ep n) c.dev in
        let v = in_data p o app (in_ep n) c in
        (v.dev.calls ≡ pd_ep_send (128 + n) (memory e.transfer_data) 0 ∷ c.dev.calls)
        × ((get_ep (in_ep n) v.dev).state ≡ state_data)
        × (v.itf ≡ record c.itf { transmit_length = e.transfer_length })
  unfolding in_data account report ep_addr2ref transmit ep_send
  whole_transfer_lem n c a b s w = ground arith

  -- The end of a transfer without data, after which the endpoint is free.
  zero_transfer_lem :
      (n at : ℕ) (c : CdcCtx)
      → c.itf.in_ep_num ≡ 128 + n
      → n < 16
      → (get_ep (in_ep n) c.dev).state ≡ state_idle
      → (get_ep (in_ep n) c.dev).transfer_length ≡ 0
      → (get_ep (in_ep n) c.dev).transfer_data ≡ at
      → in_data p o app (in_ep n) c
        ≡ tell_data app.transmitted
            (start_of at c.itf.transmit_length)
            c.itf.transmit_length
            (on_cdc (λ i. record i { transmit_length = 0 }) c)
  unfolding in_data account report ep_addr2ref
  zero_transfer_lem n at c a b s l d = ground arith

  sent_lem :
      (n : ℕ) (c : CdcCtx)
      → c.itf.in_ep_num ≡ 128 + n
      → n < 16
      → (get_ep (in_ep n) c.dev).state ≡ state_idle
      → splits p o app (in_ep n) c.dev ≡ true
      → let e = get_ep (in_ep n) c.dev in
        let send = pd_ep_send (128 + n) (memory e.transfer_data) 0 in
        let v = finish (in_ep n) (in_data p o app (in_ep n) c) in
        ((get_ep (in_ep n) v.dev).transfer_length ≡ p.transfer send e.transfer_length)
        × ((get_ep (in_ep n) v.dev).transfer_data ≡ p.transfer_at send e.transfer_data)
        × ((get_ep (in_ep n) v.dev).state ≡ state_idle)
        × (v.itf ≡ record c.itf { transmit_length = e.transfer_length })
  unfolding in_data account report ep_addr2ref transmit ep_send
  sent_lem n c a b s w = ground arith

  -- A transfer of whole packets is reported once, after the zero length packet that follows it: with
  -- the address and the length of the data, and with the stored length cleared. (The driver takes a
  -- new length and address with a send.)
  pub whole_transfer_told :
      (n : ℕ) (c : CdcCtx)
      → c.itf.in_ep_num ≡ 128 + n
      → n < 16
      → (get_ep (in_ep n) c.dev).state ≡ state_idle
      → splits p o app (in_ep n) c.dev ≡ true
      → ((a x l : ℕ) → p.transfer (pd_ep_send a (memory x) 0) l ≡ 0)
      → ((a x y : ℕ) → p.transfer_at (pd_ep_send a (memory x) 0) y ≡ x)
      → let e = get_ep (in_ep n) c.dev in
        let v = finish (in_ep n) (in_data p o app (in_ep n) c) in
        in_data p o app (in_ep n) v
        ≡ tell_data app.transmitted
            (start_of e.transfer_data e.transfer_length)
            e.transfer_length
            (on_cdc (λ i. record i { transmit_length = 0 }) v)
  whole_transfer_told n c a b s w tl ta =
      let e = get_ep (in_ep n) c.dev in
      let v = finish (in_ep n) (in_data p o app (in_ep n) c) in
      let (l, d, idle, i) = sent_lem n c a b s w in
      zero_transfer_lem n e.transfer_data v (ap (λ x. x.in_ep_num) i ∙ a) b idle (l ∙ tl _ _ _)
        (d ∙ ta _ _ _)
      ∙ ap
          (λ len.
            tell_data app.transmitted (start_of e.transfer_data len) len
              (on_cdc (λ x. record x { transmit_length = 0 }) v))
          (ap (λ x. x.transmit_length) i)

  -- An IN address has its highest bit set, so it is above the number of endpoints, and the notification
  -- is refused without a call of the driver.
  pub notify_refused :
      (notice len : ℕ) (c : CdcCtx)
      → 128 ≤ c.itf.not_ep_num
      → p.max_ep_count ≤ 16
      → notify p o app notice len c ≡ (e_error, c)
  unfolding notify
  notify_refused notice len c a b = ground arith
