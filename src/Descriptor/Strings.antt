-- ===== src/Descriptor/Strings.antt =====
-- The strings of the device as a host receives them.
use usbdevice.Base.{
  ℕ, ◌+◌, ◌*◌, ◌≤◌, ◌<◌, ◌≡◌, ◌∙◌, ap, true, List, ◌∷◌, length, take, drop, take-append, arith,
  ◌++◌, sym,
}
use usbdevice.Device.{e_ok, is_setup, direction_in, ctrl_data_buffer, pd_ep_send, Platform}
use usbdevice.Control.{ctrl_send_data}
use usbdevice.World.{World, Class}
use usbdevice.Text.{string_desc, unit_bytes}
use usbdevice.Text.Strings.{IsString, string_desc_lem, string_read, read_units, length-unit_bytes}
use usbdevice.Descriptor.{get_string, get_descriptor, send_written}

module _ {S : Type 0} (p : Platform) (c : Class S) where
  written_sent :
      (bytes : List ℕ) (n : ℕ) (w : World S)
      → length bytes ≡ n
      → 0 < n
      → n ≤ w.dev.setup.length
      → w.dev.setup.direction ≡ direction_in
      → is_setup (w.dev.ep_out 0).state ≡ true
      → let v = send_written p c (n, bytes) w in
        (v.0 ≡ e_ok)
        × (v.1.dev.calls ≡ pd_ep_send 0x80 ctrl_data_buffer n ∷ w.dev.calls)
        × (take n v.1.dev.ctrl_data ≡ bytes)
  unfolding send_written ctrl_send_data
  written_sent bytes n w same pos le dir st =
      let whole : take n (bytes ++ drop (length bytes) w.dev.ctrl_data) ≡ bytes =
        ap (λ k. take k (bytes ++ drop (length bytes) w.dev.ctrl_data)) (sym same)
        ∙ take-append bytes (drop (length bytes) w.dev.ctrl_data) in
      ground (arith, whole)

  vendor_name_asked :
      (w : World S)
      → w.dev.setup.value ≡ 0x310
      → get_descriptor p c w ≡ send_written p c (string_desc w.dev.desc.vendor_name) w
  unfolding get_descriptor get_string
  vendor_name_asked w q = ground (arith, q)

  -- The request for the string of the vendor is answered: the driver is asked to send the descriptor from
  -- the control buffer, and a host that reads it finds its length and type, and the characters of the
  -- name up to its terminator, whether it is kept in ASCII or in Unicode. (For a name of 1 to 126 units,
  -- in ASCII of at least 2, in Unicode with a first one below 256, and a request in its setup stage that
  -- asks for the whole.)
  pub vendor_name_sent :
      (w : World S) (us : List ℕ)
      → IsString us w.dev.desc.vendor_name
      → length us < 127
      → w.dev.setup.value ≡ 0x310
      → 2 + 2 * length us ≤ w.dev.setup.length
      → w.dev.setup.direction ≡ direction_in
      → is_setup (w.dev.ep_out 0).state ≡ true
      → let n = 2 + 2 * length us in
        let v = get_descriptor p c w in
        (v.0 ≡ e_ok)
        × (v.1.dev.calls ≡ pd_ep_send 0x80 ctrl_data_buffer n ∷ w.dev.calls)
        × (read_units (take n v.1.dev.ctrl_data) ≡ (n + 256 * 3) ∷ us)
  vendor_name_sent w us h lt q len dir st =
      let n = 2 + 2 * length us in
      let bytes = n ∷ 3 ∷ unit_bytes us in
      let size : length bytes ≡ n = omega (arith, length-unit_bytes us) in
      let (ok, calls, sent) = written_sent bytes n w size (omega arith) len dir st in
      let same =
        vendor_name_asked w q
        ∙ ap (λ x. send_written p c x w) (string_desc_lem us w.dev.desc.vendor_name h lt) in
      (
        ap (λ v. v.0) same ∙ ok,
        ap (λ v. v.1.dev.calls) same ∙ calls,
        ap (λ v. read_units (take n v.1.dev.ctrl_data)) same
            ∙ (ap read_units sent ∙ string_read us w.dev.desc.vendor_name h),
      )
