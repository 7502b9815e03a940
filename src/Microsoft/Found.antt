-- ===== src/Microsoft/Found.antt =====
-- How a host finds the MS OS 2.0 descriptors of a device.
use usbdevice.Base.{
  ℕ, ◌+◌, ◌*◌, ◌/◌, ◌<◌, ◌≡◌, true, Option, List, [], ◌∷◌, length, take, drop, take-append, get_or,
  arith, refl, ap, ◌∙◌, sym,
}
use usbdevice.Device.{
  e_ok, is_setup, direction_in, type_standard, req_get_descriptor, SetupRequest, ctrl_data_buffer,
  pd_ep_send, Platform, Device,
}
use usbdevice.Control.{ctrl_send_data}
use usbdevice.World.{World, Class}
use usbdevice.Descriptor.{send_written}
use usbdevice.Request.Features.{asking}
use usbdevice.Microsoft.{ms_os_desc, get_ms_descriptor2, send_desc}
use usbdevice.Microsoft.Store.{
  version_2, StoreOptions, bos_desc, get_bos, get_store_descriptor, store_dev_request, type_vendor,
  req_microsoft_os, desc_type_bos,
}

-- The length of the set in a BOS descriptor.
abbrev pub set_length_at : ℕ
set_length_at = 36

abbrev pub stated_length : List ℕ → ℕ
stated_length bos = get_or bos set_length_at 0 + 256 * get_or bos (set_length_at + 1) 0

-- The request for the BOS descriptor, and the one for the set with this length.
pub record AsksStore (s : SetupRequest) : Type 0 where
  pub standard : s.type ≡ type_standard
  pub asks : s.request ≡ req_get_descriptor
  pub bos : s.value / 256 ≡ desc_type_bos
  pub inward : s.direction ≡ direction_in

pub record AsksSet (s : SetupRequest) : Type 0 where
  pub vendor : s.type ≡ type_vendor
  pub asks : s.request ≡ req_microsoft_os
  pub index : s.index ≡ 7
  pub inward : s.direction ≡ direction_in

module _ {S : Type 0} (p : Platform) (c : Class S) (o : StoreOptions)
    (ids : ℕ → Option (List ℕ)) where
  bos_sent :
      (w : World S)
      → o.version ≡ version_2
      → is_setup (w.dev.ep_out 0).state ≡ true
      → AsksStore w.dev.setup
      → let v = store_dev_request p c o ids w in
        let len = length (ms_os_desc ids w.dev) in
        (v.0 ≡ e_ok)
        × (take 40 v.1.dev.ctrl_data ≡ bos_desc o len)
        × (stated_length v.1.dev.ctrl_data ≡ stated_length (bos_desc o len))
        × (v.1.dev.ifs ≡ w.dev.ifs)
        × (v.1.dev.if_count ≡ w.dev.if_count)
        × ((v.1.dev.ep_out 0).state ≡ (w.dev.ep_out 0).state)
  unfolding store_dev_request get_store_descriptor get_bos send_written ctrl_send_data bos_desc
  bos_sent w v2 st a = ground arith

  bos_states : (n : ℕ) → o.version ≡ version_2 → n < 65536 → stated_length (bos_desc o n) ≡ n
  unfolding bos_desc
  bos_states n v2 h = rw v2 (omega (arith, h))

  same_set :
      (d e : Device) → e.ifs ≡ d.ifs → e.if_count ≡ d.if_count → ms_os_desc ids e ≡ ms_os_desc ids d
  unfolding ms_os_desc
  same_set d e h k = rw (h, k) refl

  desc_sent :
      (l : List ℕ) (d : Device)
      → 0 < length l
      → is_setup (d.ep_out 0).state ≡ true
      → d.setup.direction ≡ direction_in
      → d.setup.length ≡ length l
      → let v = send_desc ids p l d in
        (v.0 ≡ e_ok)
        × (take (length l) v.1.ctrl_data ≡ l)
        × (v.1.calls ≡ pd_ep_send 0x80 ctrl_data_buffer (length l) ∷ d.calls)
  unfolding ctrl_send_data
  desc_sent [] d pos st dir len = absurd (omega arith)
  desc_sent (b ∷ l) d pos st dir len =
      ground (arith, len, take-append (b ∷ l) (drop (length (b ∷ l)) d.ctrl_data))

  vendor_sent :
      (w : World S)
      → o.version ≡ version_2
      → AsksSet w.dev.setup
      → (store_dev_request p c o ids w).0 ≡ (send_desc ids p (ms_os_desc ids w.dev) w.dev).0
  unfolding store_dev_request get_ms_descriptor2
  vendor_sent w v2 a = ground arith

  vendor_stored :
      (w : World S)
      → o.version ≡ version_2
      → AsksSet w.dev.setup
      → (store_dev_request p c o ids w).1.dev ≡ (send_desc ids p (ms_os_desc ids w.dev) w.dev).1
  unfolding store_dev_request get_ms_descriptor2
  vendor_stored w v2 a = ground arith

  set_sent :
      (w : World S) (l : List ℕ)
      → o.version ≡ version_2
      → AsksSet w.dev.setup
      → ms_os_desc ids w.dev ≡ l
      → 0 < length l
      → is_setup (w.dev.ep_out 0).state ≡ true
      → w.dev.setup.length ≡ length l
      → let v = store_dev_request p c o ids w in
        (v.0 ≡ e_ok)
        × (take (length l) v.1.dev.ctrl_data ≡ l)
        × (v.1.dev.calls ≡ pd_ep_send 0x80 ctrl_data_buffer (length l) ∷ w.dev.calls)
  set_sent w l v2 a same pos st len =
      let (ok, taken, calls) = desc_sent l w.dev pos st a.inward len in
      let stored = vendor_stored w v2 a ∙ ap (λ k. (send_desc ids p k w.dev).1) same in
      (
        vendor_sent w v2 a ∙ (ap (λ k. (send_desc ids p k w.dev).0) same ∙ ok),
        ap (λ d. take (length l) d.ctrl_data) stored ∙ taken,
        ap (λ d. d.calls) stored ∙ calls,
      )

  -- A host that reads the BOS descriptor finds in it the length of the set of MS OS 2.0 descriptors, and
  -- its vendor request with that length is answered by the whole set, in one transfer of that length.
  -- (For a set that is not empty and shorter than 65536 bytes, and requests in their setup stage.)
  pub store_leads :
      (w : World S) (s : SetupRequest)
      → o.version ≡ version_2
      → 0 < length (ms_os_desc ids w.dev)
      → length (ms_os_desc ids w.dev) < 65536
      → is_setup (w.dev.ep_out 0).state ≡ true
      → AsksStore w.dev.setup
      → AsksSet s
      → s.length ≡ stated_length (store_dev_request p c o ids w).1.dev.ctrl_data
      → let v = store_dev_request p c o ids w in
        let u = store_dev_request p c o ids (asking s v.1) in
        (v.0 ≡ e_ok)
        × (u.0 ≡ e_ok)
        × (take s.length u.1.dev.ctrl_data ≡ ms_os_desc ids w.dev)
        × (u.1.dev.calls ≡ pd_ep_send 0x80 ctrl_data_buffer s.length ∷ v.1.dev.calls)
  store_leads w s v2 pos small st a b len =
      let v = store_dev_request p c o ids w in
      let w' = asking s v.1 in
      let set = ms_os_desc ids w.dev in
      let (ok, bos, stated, ifs, count, state) = bos_sent w v2 st a in
      let same = same_set w.dev w'.dev ifs count in
      let n = len ∙ (stated ∙ bos_states (length set) v2 small) in
      let (ok', taken, calls) = set_sent w' set v2 b same pos (ap is_setup state ∙ st) n in
      let u = store_dev_request p c o ids w' in
      (
        ok,
        ok',
        ap (λ k. take k u.1.dev.ctrl_data) n ∙ taken,
        calls ∙ ap (λ k. pd_ep_send 0x80 ctrl_data_buffer k ∷ v.1.dev.calls) (sym n),
      )
