-- ===== src/Bus/Prompt.antt =====
-- The requests that the stack answers itself: one that is accepted has started its data stage, or has
-- none.
use usbdevice.Base.{
  Option, none, some, [], ◌∷◌, overwrite, length, ℕ, ◌≡◌, arith, List, ◌==◌, ◌||◌, Bool, true,
}
use usbdevice.Device.{
  get_ep, ctrl_data_buffer, rom, speed_full, speed_high, Platform, Device, ReturnType, e_ok,
  e_invalid, is_data, is_stall, Buffer, touch_if,
}
use usbdevice.Control.{ctrl_send_data}
use usbdevice.Text.{string_desc}
use usbdevice.Endpoint.{ep_addr2ref}
use usbdevice.World.{World, Class, on_dev, on_dev_result}
use usbdevice.Bus.Descriptors.{serial_desc}
use usbdevice.Descriptor.{
  send_if_string, get_string, other_speed_config, string_if, if_string, lang_id_desc, config_desc,
  device_desc, dev_qual_desc, get_descriptor, send_written, send_rom,
}
use usbdevice.Request.{bit, features_w, get_status, get_config, ep_get_status}

-- A data stage is under way.
abbrev pub has_data : Device → Bool
has_data d = is_data (d.ep_in 0).state || is_data (d.ep_out 0).state

-- An answer that is accepted has started its data stage, unless it has none.
pub record IsPrompt {S : Type 0} (x : ReturnType × World S) : Type 0 where
  pub prompt : x.0 ≡ e_ok → (x.1.dev.setup.length == 0) || has_data x.1.dev ≡ true

module _ {S : Type 0} (p : Platform) (c : Class S) where
  pub send_data-IsPrompt :
      (b : Buffer) (n : ℕ) (w : World S) → IsPrompt (on_dev_result (ctrl_send_data p b n) w)
  unfolding ctrl_send_data
  send_data-IsPrompt b n w = record { prompt = λ e. ground arith }

  pub after_prompt :
      {r : ReturnType} (w : World S)
      → (r ≡ e_ok → (w.dev.setup.length == 0) || has_data w.dev ≡ true)
      → IsPrompt (r, w)
  after_prompt w h = record { prompt = h }

  pub refused : (w : World S) → IsPrompt (e_invalid, w)
  refused w = record { prompt = λ e. ground (arith, e) }

  pub accepted : (w : World S) → w.dev.setup.length ≡ 0 → IsPrompt (e_ok, w)
  accepted w h = record { prompt = λ e. ground (arith, h) }

  pub written-IsPrompt : (x : ℕ × List ℕ) (w : World S) → IsPrompt (send_written p c x w)
  unfolding send_written
  written-IsPrompt (len, bytes) w =
      let v = on_dev (λ d. record d { ctrl_data = overwrite bytes d.ctrl_data }) w in
      ground (arith, refused v, send_data-IsPrompt ctrl_data_buffer len v)

  pub rom-IsPrompt : (bytes : List ℕ) (w : World S) → IsPrompt (send_rom p c bytes w)
  unfolding send_rom
  rom-IsPrompt bytes w = send_data-IsPrompt (rom bytes) (length bytes) w

  pub if_string-IsPrompt : (o : Option (List ℕ)) (w : World S) → IsPrompt (send_if_string p c o w)
  if_string-IsPrompt none w = refused w
  if_string-IsPrompt (some str) w = written-IsPrompt (string_desc str) w

  pub string-IsPrompt : (w : World S) → IsPrompt (get_string p c w)
  unfolding get_string
  string-IsPrompt w = ground (
    arith,
    if_string-IsPrompt (if_string p c w) (on_dev (touch_if p (string_if p c w)) w),
    rom-IsPrompt lang_id_desc w,
    written-IsPrompt (string_desc w.dev.desc.vendor_name) w,
    written-IsPrompt (string_desc w.dev.desc.product_name) w,
    written-IsPrompt (string_desc w.dev.desc.config_name) w,
    written-IsPrompt (serial_desc p w.dev) w,
  )

  pub descriptor-IsPrompt : (w : World S) → IsPrompt (get_descriptor p c w)
  unfolding get_descriptor other_speed_config
  descriptor-IsPrompt w =
      let full = on_dev (λ d. record d { speed = speed_full }) w in
      let back = on_dev (λ d. record d { speed = speed_high }) w in
      ground (
        arith,
        refused w,
        written-IsPrompt (config_desc p c w) w,
        written-IsPrompt (config_desc p c full) back,
        written-IsPrompt (18, device_desc p w.dev) w,
        string-IsPrompt w,
        rom-IsPrompt dev_qual_desc w,
      )

  pub status-IsPrompt : (w : World S) → IsPrompt (on_dev_result (get_status p) w)
  unfolding get_status
  status-IsPrompt w =
      send_data-IsPrompt ctrl_data_buffer 2
        (on_dev (λ d. record d { ctrl_data = overwrite (features_w d ∷ 0 ∷ []) d.ctrl_data }) w)

  pub get_config-IsPrompt : (w : World S) → IsPrompt (on_dev_result (get_config p) w)
  unfolding get_config
  get_config-IsPrompt w =
      send_data-IsPrompt ctrl_data_buffer 1
        (on_dev (λ d. record d { ctrl_data = overwrite (d.config_selector ∷ []) d.ctrl_data }) w)

  pub ep_status-IsPrompt : (a : ℕ) (w : World S) → IsPrompt (on_dev_result (ep_get_status p a) w)
  unfolding ep_get_status
  ep_status-IsPrompt a w = send_data-IsPrompt ctrl_data_buffer 2 (
      on_dev
        (λ d. record d {
          ctrl_data =
              overwrite (bit (is_stall (get_ep (ep_addr2ref a) d).state) ∷ 0 ∷ []) d.ctrl_data;
        })
        w)
