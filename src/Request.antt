-- ===== src/Request.antt =====
-- The standard requests to the device and to an endpoint: USBD_DevRequest and its helpers of
-- Device/usbd.c, in the build with USBD_MS_OS_DESC_VERSION 0, and USBD_EpRequest of Device/usbd_ep.c.
pub mod Safety
pub mod Features
use usbdevice.Base.{
  ℕ, ◌+◌, ◌*◌, ◌%◌, Bool, true, false, ◌&&◌, ◌||◌, [], ◌∷◌, leb, ◌==◌, if◌then◌else◌, overwrite,
}
use usbdevice.Device.{
  ReturnType, e_ok, e_error, e_invalid, is_stall, state_idle, state_stall, type_standard,
  req_get_status, req_clear_feature, req_set_feature, req_set_address, req_get_descriptor,
  req_get_configuration, req_set_configuration, feature_ep_halt, feature_remote_wakeup,
  ctrl_data_buffer, pd_set_remote_wakeup, pd_clear_remote_wakeup, pd_set_address, pd_ep_set_stall,
  pd_ep_clear_stall, Platform, Device, get_ep, set_ep_state, set_transfer_length, touch_ep,
  touch_if, call, ep_call,
}
use usbdevice.Endpoint.{ep_addr2ref, ep_index}
use usbdevice.Control.{ctrl_send_data}
use usbdevice.World.{World, Class, on_dev, on_dev_result, if_class_in_data, if_class_out_data}
use usbdevice.Interface.{if_config}
use usbdevice.Descriptor.{get_descriptor}

abbrev pub max_configuration_count : ℕ
max_configuration_count = 1

-- `USBD_SetRemoteWakeup` and `USBD_ClearRemoteWakeup`
unfoldable pub signal_remote_wakeup : Device → ReturnType × Device
signal_remote_wakeup d =
    if d.remote_wakeup then (e_ok, call pd_set_remote_wakeup d) else (e_error, d)

unfoldable pub clear_remote_wakeup : Device → ReturnType × Device
clear_remote_wakeup d =
    if d.remote_wakeup then (e_ok, call pd_clear_remote_wakeup d) else (e_error, d)

-- `USBD_SetAddress`
unfoldable pub set_address : Platform → Device → ReturnType × Device
set_address p d =
    if (d.setup.index == 0) && (d.setup.length == 0) && (d.config_selector == 0)
    then (
      e_ok,
      if p.set_address_immediate then call (pd_set_address (d.setup.value % 128)) d else d,
    )
    else (e_invalid, d)

-- `USBD_GetConfig`
unfoldable pub get_config : Platform → Device → ReturnType × Device
get_config p d =
    ctrl_send_data p ctrl_data_buffer 1
      (record d { ctrl_data = overwrite (d.config_selector ∷ []) d.ctrl_data })

abbrev pub bit : Bool → ℕ
bit true = 1
bit false = 0

-- `Features.w`: bit 0 for self powered, bit 1 for remote wakeup; no other bit is ever set.
abbrev pub features_w : Device → ℕ
features_w d = bit d.self_powered + 2 * bit d.remote_wakeup

-- `USBD_GetStatus`
unfoldable pub get_status : Platform → Device → ReturnType × Device
get_status p d =
    ctrl_send_data p ctrl_data_buffer 2
      (record d { ctrl_data = overwrite (features_w d ∷ 0 ∷ []) d.ctrl_data })

-- `USBD_SetFeature` and `USBD_ClearFeature`
unfoldable pub set_feature : Device → ReturnType × Device
set_feature d =
    if d.setup.value == feature_remote_wakeup
    then (e_ok, record d { remote_wakeup = true })
    else (e_invalid, d)

unfoldable pub clear_feature : Device → ReturnType × Device
clear_feature d =
    if d.setup.value == feature_remote_wakeup
    then (e_ok, record d { remote_wakeup = false })
    else (e_invalid, d)

-- The cases USB_REQ_SET_FEATURE and USB_REQ_GET_STATUS of `USBD_EpRequest`.
unfoldable pub ep_set_halt : Platform → ℕ → Device → ReturnType × Device
ep_set_halt p addr d =
    let r = ep_addr2ref addr in
    if d.setup.value == feature_ep_halt
    then (
      e_ok,
      if is_stall (get_ep r d).state
          then d
          else set_ep_state r state_stall (ep_call p r (pd_ep_set_stall addr) d),
    )
    else (e_invalid, d)

unfoldable pub ep_get_status : Platform → ℕ → Device → ReturnType × Device
ep_get_status p addr d = ctrl_send_data p ctrl_data_buffer 2 (record d {
  ctrl_data = overwrite (bit (is_stall (get_ep (ep_addr2ref addr) d).state) ∷ 0 ∷ []) d.ctrl_data;
})

module _ {S : Type 0} (p : Platform) (c : Class S) where
  -- `USBD_SetConfig`
  unfoldable pub set_config : World S → ReturnType × World S
  set_config w =
      let n = w.dev.setup.value % 256 in
      if leb n max_configuration_count then (e_ok, if_config p c n w) else (e_invalid, w)

  -- `USBD_DevRequest`
  unfoldable pub dev_request : World S → ReturnType × World S
  dev_request w =
      let q = w.dev.setup.request in
      if w.dev.setup.type == type_standard
      then (if q == req_get_descriptor
          then get_descriptor p c w
          else if q == req_set_address
          then on_dev_result (set_address p) w
          else if q == req_set_configuration
          then set_config w
          else if q == req_get_configuration
          then on_dev_result (get_config p) w
          else if q == req_get_status
          then on_dev_result (get_status p) w
          else if q == req_set_feature
          then on_dev_result set_feature w
          else if q == req_clear_feature
          then on_dev_result clear_feature w
          else (e_invalid, w))
      else (e_invalid, w)

  -- The class of the interface that owns the endpoint is told that it is ready again.
  unfoldable pub notify_ready : ℕ → World S → World S
  notify_ready addr w =
      let r = ep_addr2ref addr in
      let i = (get_ep r w.dev).if_num in
      let v = on_dev (touch_if p i) w in
      if addr == addr % 16
      then if_class_out_data c (w.dev.ifs i) r v
      else if_class_in_data c (w.dev.ifs i) r v

  -- The case USB_REQ_CLEAR_FEATURE of `USBD_EpRequest`.
  unfoldable pub ep_clear_halt : ℕ → World S → ReturnType × World S
  ep_clear_halt addr w =
      let r = ep_addr2ref addr in
      let ready =
        on_dev
          (λ d.
            set_transfer_length r 0
              (set_ep_state r state_idle (ep_call p r (pd_ep_clear_stall addr) d)))
          w in
      if w.dev.setup.value == feature_ep_halt
      then (e_ok, if is_stall (get_ep r w.dev).state then notify_ready addr ready else w)
      else (e_invalid, w)

  -- `USBD_EpRequest`
  unfoldable pub ep_request : World S → ReturnType × World S
  ep_request w =
      let addr = w.dev.setup.index % 256 in
      let num = addr % 16 in
      let q = w.dev.setup.request in
      let v = on_dev (touch_ep p (ep_index (ep_addr2ref addr))) w in
      if leb p.max_ep_count num || (num == 0) || (w.dev.config_selector == 0)
      then (e_invalid, w)
      else if w.dev.setup.type == type_standard
      then (if q == req_set_feature
          then on_dev_result (ep_set_halt p addr) v
          else if q == req_clear_feature
          then ep_clear_halt addr v
          else if q == req_get_status
          then on_dev_result (ep_get_status p addr) v
          else (e_invalid, w))
      else (e_invalid, w)
