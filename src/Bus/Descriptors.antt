-- ===== src/Bus/Descriptors.antt =====
-- The descriptor requests leave the configuration of a device alone.
use usbdevice.Base.{
  ◌∷◌, ◌*◌, Bool, true, false, if◌then◌else◌, overwrite, length, none, some, Option, ◌==◌, ℕ, ◌+◌,
  ◌%◌, ◌≡◌, refl, arith, List, true,
}
use usbdevice.Text.{uint2unicode, string_desc}
use usbdevice.Device.{
  touch_if, e_invalid, speed_full, ctrl_data_buffer, rom, speed_high, Platform, Device, Speed,
  EpRef, in_ep, out_ep, ReturnType, ep_call, PdCall, EndPointState, set_ep_state, Buffer,
}
use usbdevice.Control.{ctrl_send_data}
use usbdevice.World.{World, Class, on_dev, on_dev_result}
use usbdevice.Descriptor.{
  string_if, if_string, lang_id_desc, config_desc, device_desc, dev_qual_desc, send_if_string,
  get_descriptor, send_written, send_rom, get_string, other_speed_config,
}
use usbdevice.Bus.Kept.{KeepsMount, Own, Own-refl, Own-trans, Own-dev, touch-Own}

pub ep_state-mount :
    (r : EpRef) (s : EndPointState) (d : Device) → KeepsMount d (set_ep_state r s d)
ep_state-mount (in_ep n) s d = record { count = refl; ifs = refl; config = refl; setup = refl }
ep_state-mount (out_ep n) s d = record { count = refl; ifs = refl; config = refl; setup = refl }

pub ep_call-mount :
    (p : Platform) (r : EpRef) (k : PdCall) (d : Device) → KeepsMount d (ep_call p r k d)
ep_call-mount p (in_ep n) k d = record { count = refl; ifs = refl; config = refl; setup = refl }
ep_call-mount p (out_ep n) k d = record { count = refl; ifs = refl; config = refl; setup = refl }

pub send_data-mount :
    (p : Platform) (b : Buffer) (n : ℕ) (d : Device) → KeepsMount d (ctrl_send_data p b n d).1
unfolding ctrl_send_data
send_data-mount p b n d = record {
  count = ground arith;
  ifs = ground arith;
  config = ground arith;
  setup = ground arith;
}

-- What a request leaves alone when it is answered.
pub record Keeps {S : Type 0} (w : World S) (x : ReturnType × World S) : Type 0 where
  pub kept : Own w x.1

keep_if :
    {S : Type 0} {w : World S} (b : Bool) {x y : ReturnType × World S}
    → Keeps w x
    → Keeps w y
    → Keeps w (if b then x else y)
keep_if true h k = h
keep_if false h k = k

pub keep_after :
    {S : Type 0} {w v : World S} {x : ReturnType × World S} → Own w v → Keeps v x → Keeps w x
keep_after h k = record { kept = Own-trans h k.kept }

pub keep_same : {S : Type 0} {r : ReturnType} (w : World S) → Keeps w (r, w)
keep_same w = record { kept = Own-refl w }

pub keep_kept : {S : Type 0} {r : ReturnType} {w v : World S} → Own w v → Keeps w (r, v)
keep_kept h = record { kept = h }

pub keep_result :
    {S : Type 0} (f : Device → ReturnType × Device) (w : World S)
    → KeepsMount w.dev (f w.dev).1
    → Keeps w (on_dev_result f w)
keep_result f w h = record { kept = Own-dev (λ d. (f d).1) w h }

pub plain :
    {S : Type 0} (f : Device → Device) (w : World S)
    → (f w.dev).if_count ≡ w.dev.if_count
    → (f w.dev).ifs ≡ w.dev.ifs
    → (f w.dev).config_selector ≡ w.dev.config_selector
    → (f w.dev).setup ≡ w.dev.setup
    → Own w (on_dev f w)
plain f w h k l m = Own-dev f w (record { count = h; ifs = k; config = l; setup = m })

-- The descriptor of the serial number.
abbrev pub serial_desc : Platform → Device → ℕ × List ℕ
serial_desc p d = (
  2 + p.serial_bcd_size * 2,
  (2 + p.serial_bcd_size * 2) % 256 ∷ 3 ∷ uint2unicode d.desc.serial_number p.serial_bcd_size,
)

module _ {S : Type 0} (p : Platform) (c : Class S) where
  pub send_data-Keeps :
      (b : Buffer) (n : ℕ) (w : World S) → Keeps w (on_dev_result (ctrl_send_data p b n) w)
  send_data-Keeps b n w = keep_result (ctrl_send_data p b n) w (send_data-mount p b n w.dev)

  written-Keeps : (x : ℕ × List ℕ) (w : World S) → Keeps w (send_written p c x w)
  unfolding send_written
  written-Keeps (len, bytes) w =
      let f = λ (d : Device). record d { ctrl_data = overwrite bytes d.ctrl_data } in
      let v = plain f w refl refl refl refl in
      keep_if (len == 0) (record { kept = v })
        (keep_after v (send_data-Keeps ctrl_data_buffer len (on_dev f w)))

  rom-Keeps : (bytes : List ℕ) (w : World S) → Keeps w (send_rom p c bytes w)
  unfolding send_rom
  rom-Keeps bytes w = send_data-Keeps (rom bytes) (length bytes) w

  if_string-Keeps : (o : Option (List ℕ)) (w : World S) → Keeps w (send_if_string p c o w)
  if_string-Keeps none w = keep_same w
  if_string-Keeps (some str) w = written-Keeps (string_desc str) w

  speed-Own : (s : Speed) (w : World S) → Own w (on_dev (λ d. record d { speed = s }) w)
  speed-Own s w = plain (λ d. record d { speed = s }) w refl refl refl refl

  string-Keeps : (w : World S) → Keeps w (get_string p c w)
  unfolding get_string
  string-Keeps w = ground (
    arith,
    keep_after (touch-Own p (string_if p c w) w)
        (if_string-Keeps (if_string p c w) (on_dev (touch_if p (string_if p c w)) w)),
    rom-Keeps lang_id_desc w,
    written-Keeps (string_desc w.dev.desc.vendor_name) w,
    written-Keeps (string_desc w.dev.desc.product_name) w,
    written-Keeps (string_desc w.dev.desc.config_name) w,
    written-Keeps (serial_desc p w.dev) w,
  )

  other_speed-Keeps : (w : World S) → Keeps w (other_speed_config p c w)
  unfolding other_speed_config
  other_speed-Keeps w = ground (
    arith,
    keep_same {r = e_invalid} w,
    keep_after (speed-Own speed_high w) (
        written-Keeps (config_desc p c (on_dev (λ d. record d { speed = speed_full }) w))
          (on_dev (λ d. record d { speed = speed_high }) w)),
  )

  pub descriptor-Keeps : (w : World S) → Keeps w (get_descriptor p c w)
  unfolding get_descriptor
  descriptor-Keeps w = ground (
    arith,
    keep_same {r = e_invalid} w,
    written-Keeps (config_desc p c w) w,
    written-Keeps (18, device_desc p w.dev) w,
    string-Keeps w,
    rom-Keeps dev_qual_desc w,
    other_speed-Keeps w,
  )
