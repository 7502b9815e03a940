-- ===== src/Interface.antt =====
-- Interface management, Device/usbd_if.c: configuration of the interfaces, and the requests that are
-- addressed to one.
pub mod Change
pub mod Config
pub mod Setting
use usbdevice.Base.{ℕ, zero, suc, ◌+◌, ◌%◌, not, ◌||◌, ltb, leb, ◌==◌, if◌then◌else◌}
use usbdevice.Device.{
  ReturnType, e_ok, e_invalid, type_standard, req_get_interface, req_set_interface, itf_field,
  alt_selector_field, Platform, touch_if,
}
use usbdevice.Control.{ctrl_send_data}
use usbdevice.World.{
  World, Class, on_dev, on_dev_result, set_alt_selector, if_class_init, if_class_deinit,
  if_class_setup_stage,
}

module _ {S : Type 0} (p : Platform) (c : Class S) where
  -- The body of the loop that clears a configuration.
  unfoldable pub clear_interface : ℕ → World S → World S
  clear_interface i w =
      let v = if_class_deinit c (w.dev.ifs i) (on_dev (touch_if p i) w) in
      set_alt_selector (v.dev.ifs i) 0 v

  -- The body of the loop that sets a configuration.
  unfoldable pub start_interface : ℕ → World S → World S
  start_interface i w = if_class_init c (w.dev.ifs i) (on_dev (touch_if p i) w)

  -- `for (ifNum = 0; ifNum < dev->IfCount; ifNum++)`, from `i` on. The counter is a byte, and so is
  -- the bound, which is read again in each round: 256 rounds of fuel are enough.
  unfoldable pub for_interfaces : (ℕ → World S → World S) → ℕ → ℕ → World S → World S
  for_interfaces body zero i w = w
  for_interfaces body (suc fuel) i w =
      let rest = for_interfaces body fuel (i + 1) (body i w) in
      if ltb i w.dev.if_count then rest else w

  -- The configuration is cleared if one was selected, and set if one is.
  unfoldable pub clear_config : World S → World S
  clear_config w = if w.dev.config_selector == 0 then w else for_interfaces clear_interface 256 0 w

  unfoldable pub start_config : World S → World S
  start_config w = if w.dev.config_selector == 0 then w else for_interfaces start_interface 256 0 w

  -- `USBD_IfConfig`
  unfoldable pub if_config : ℕ → World S → World S
  if_config n w =
      if w.dev.config_selector == n
      then w
      else start_config (on_dev (λ d. record d { config_selector = n }) (clear_config w))

  -- The case USB_REQ_SET_INTERFACE of `USBD_IfRequest`, for the handle at `r`.
  unfoldable pub set_interface : ℕ → World S → ReturnType × World S
  set_interface r w =
      let alt = w.dev.setup.value % 256 in
      if ltb alt (w.itf r).alt_count
      then (e_ok, if_class_init c r (set_alt_selector r alt (if_class_deinit c r w)))
      else (e_invalid, w)

  -- `USBD_IfRequest`; the handle is read from `IF` before the index is tested.
  unfoldable pub if_request : World S → ReturnType × World S
  if_request w =
      let i = w.dev.setup.index % 256 in
      let r = w.dev.ifs i in
      let v = on_dev (touch_if p i) w in
      if (w.dev.config_selector == 0) || leb w.dev.if_count i
      then (e_invalid, v)
      else if not (w.dev.setup.type == type_standard)
      then if_class_setup_stage c r v
      else if w.dev.setup.request == req_get_interface
      then on_dev_result (ctrl_send_data p (itf_field r alt_selector_field) 1) v
      else if w.dev.setup.request == req_set_interface
      then set_interface r v
      else if_class_setup_stage c r v
