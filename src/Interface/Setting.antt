-- ===== src/Interface/Setting.antt =====
-- The requests that are addressed to an interface.
use usbdevice.Base.{ℕ, ◌%◌, ◌≤◌, ◌<◌, ◌≡◌, ◌≢◌, ◌⊎◌, true, ltb, arith, if◌then◌else◌}
use usbdevice.Device.{e_ok, e_invalid, type_standard, req_set_interface, Platform, touch_if}
use usbdevice.World.{World, Class, on_dev, set_alt_selector, if_class_init, if_class_deinit}
use usbdevice.Interface.{if_request, set_interface}
use usbdevice.Interface.Config.{IsTame}

module _ {S : Type 0} (p : Platform) (c : Class S) where
  -- A request for an interface that the device does not have, or on a device that is not configured,
  -- is refused, and no class is called: only the early read from `IF` shows.
  pub if_request_refused :
      (w : World S)
      → (w.dev.config_selector ≡ 0) ⊎ (w.dev.if_count ≤ w.dev.setup.index % 256)
      → if_request p c w ≡ (e_invalid, on_dev (touch_if p (w.dev.setup.index % 256)) w)
  unfolding if_request
  if_request_refused w h = ground arith

  module _ (ti : IsTame S (if_class_init c)) (td : IsTame S (if_class_deinit c)) where
    -- SET_INTERFACE to an interface of a configured device selects the setting of wValue, exactly if the
    -- interface has that setting: its class stops it in the old setting, and starts it when the new one is
    -- stored. Otherwise the request is refused, and nothing changes but for the record of the access to
    -- `IF`. (For classes that leave the settings alone when they start and stop.)
    pub set_interface_lem :
        (w : World S)
        → w.dev.setup.type ≡ type_standard
        → w.dev.setup.request ≡ req_set_interface
        → w.dev.config_selector ≢ 0
        → w.dev.setup.index % 256 < w.dev.if_count
        → let r = w.dev.ifs (w.dev.setup.index % 256) in
          let alt = w.dev.setup.value % 256 in
          ((if_request p c w).0 ≡ (if ltb alt (w.itf r).alt_count then e_ok else e_invalid))
          × ((if_request p c w).1 ≡ (
              if ltb alt (w.itf r).alt_count
              then if_class_init c r (
                  set_alt_selector r alt
                    (if_class_deinit c r (on_dev (touch_if p (w.dev.setup.index % 256)) w)))
              else on_dev (touch_if p (w.dev.setup.index % 256)) w))
          × (((if_request p c w).1.itf r).alt_selector
              ≡ (if ltb alt (w.itf r).alt_count then alt else (w.itf r).alt_selector))
    unfolding if_request set_interface
    set_interface_lem w t q cfg i =
        ground (arith, ti.keeps_alt r r (set_alt_selector r alt (if_class_deinit c r v)))
      where
        r : ℕ
        r = w.dev.ifs (w.dev.setup.index % 256)

        alt : ℕ
        alt = w.dev.setup.value % 256

        v : World S
        v = on_dev (touch_if p (w.dev.setup.index % 256)) w

-- The handle of an interface is looked up in `IF` before its number is tested: the host can make the
-- stack read past the end of the array.
pub if_request_reads_past :
    {S : Type 0} (p : Platform) (c : Class S) (w : World S)
    → w.dev.if_count ≤ p.max_if_count
    → p.max_if_count ≤ w.dev.setup.index % 256
    → ((if_request p c w).1.dev.out_of_range ≡ true) × ((if_request p c w).0 ≡ e_invalid)
unfolding if_request
if_request_reads_past p c w h k = ground arith
