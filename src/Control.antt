-- ===== src/Control.antt =====
-- Control transfers, Device/usbd_ctrl.c: the functions on endpoint 0 that call no class.
use usbdevice.Base.{ℕ, not, ◌&&◌, ltb, if◌then◌else◌}
use usbdevice.Device.{
  ReturnType, e_ok, e_error, is_in, state_stall, state_data, state_status, is_setup, Buffer, null,
  pd_ep_set_stall, pd_ep_send, pd_ep_receive, Platform, Device, in_ep, out_ep, set_ep_state,
  ep_call,
}

-- `USBD_CtrlSendError`
unfoldable pub ctrl_send_error : Platform → Device → Device
ctrl_send_error p d = set_ep_state (out_ep 0) state_stall (
    ep_call p (out_ep 0) (pd_ep_set_stall 0x00)
      (set_ep_state (in_ep 0) state_stall (ep_call p (in_ep 0) (pd_ep_set_stall 0x80) d)))

-- `USBD_CtrlSendStatus`
unfoldable pub ctrl_send_status : Platform → Device → Device
ctrl_send_status p d =
    ep_call p (in_ep 0) (pd_ep_send 0x80 null 0) (set_ep_state (in_ep 0) state_status d)

-- `USBD_CtrlReceiveStatus`
unfoldable pub ctrl_receive_status : Platform → Device → Device
ctrl_receive_status p d =
    ep_call p (out_ep 0) (pd_ep_receive 0x00 null 0) (set_ep_state (out_ep 0) state_status d)

-- The length of a data stage: no more than the host has asked for.
abbrev pub limit_length : Device → ℕ → ℕ
limit_length d len = if ltb d.setup.length len then d.setup.length else len

-- `USBD_CtrlSendData`
unfoldable pub ctrl_send_data : Platform → Buffer → ℕ → Device → ReturnType × Device
ctrl_send_data p buf len d =
    if is_in d.setup.direction && is_setup (d.ep_out 0).state
    then (
      e_ok,
      ep_call p (in_ep 0) (pd_ep_send 0x80 buf (limit_length d len))
          (set_ep_state (in_ep 0) state_data d),
    )
    else (e_error, d)

-- `USBD_CtrlReceiveData`
unfoldable pub ctrl_receive_data : Platform → Buffer → ℕ → Device → ReturnType × Device
ctrl_receive_data p buf len d =
    if not (is_in d.setup.direction) && is_setup (d.ep_out 0).state
    then (
      e_ok,
      ep_call p (out_ep 0) (pd_ep_receive 0x00 buf (limit_length d len))
          (set_ep_state (out_ep 0) state_data d),
    )
    else (e_error, d)
