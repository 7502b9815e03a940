-- ===== src/Endpoint.antt =====
-- Endpoint management: the inline functions of Include/private/usbd_internal.h, and USBD_EpSend and
-- USBD_EpReceive of Device/usbd_ep.c.
pub mod Address
pub mod Transfers
use usbdevice.Base.{ℕ, Bool, ◌+◌, ◌-◌, ◌%◌, ◌||◌, ltb, if◌then◌else◌}
use usbdevice.Device.{
  ReturnType, e_ok, e_busy, EndPointType, is_isochronous, state_closed, state_idle, state_stall,
  state_data, is_idle, Endpoint, Buffer, pd_ep_open, pd_ep_close, pd_ep_flush, pd_ep_set_stall,
  pd_ep_clear_stall, pd_ep_send, pd_ep_receive, Platform, Device, EpRef, in_ep, out_ep, get_ep,
  set_ep_state, touch_ep, ep_call,
}

-- `USBD_EpAddr2Ref`: only the IN side masks the address.
unfoldable pub ep_addr2ref : ℕ → EpRef
ep_addr2ref addr = if ltb 0x7F addr then in_ep (addr % 16) else out_ep addr

-- `USBD_EpRef2Addr`: the place in the array OUT, which lies behind the array IN, counts on from it.
ep_position : Platform → EpRef → ℕ
ep_position p (in_ep n) = n
ep_position p (out_ep n) = p.max_ep_count + n

unfoldable pub ep_ref2addr : Platform → EpRef → ℕ
unfolding ep_position
ep_ref2addr p r =
    let a = ep_position p r % 256 in
    if ltb a p.max_ep_count then 0x80 + a % 128 else a - p.max_ep_count

abbrev pub ep_index : EpRef → ℕ
ep_index (in_ep n) = n
ep_index (out_ep n) = n

unfoldable pub ep_open : Platform → ℕ → EndPointType → ℕ → Device → Device
ep_open p addr type mps d =
    let r = ep_addr2ref addr in
    set_ep_state r state_idle (touch_ep p (ep_index r) (ep_call p r (pd_ep_open addr type mps) d))

unfoldable pub ep_close : Platform → ℕ → Device → Device
ep_close p addr d =
    let r = ep_addr2ref addr in
    set_ep_state r state_closed (touch_ep p (ep_index r) (ep_call p r (pd_ep_close addr) d))

unfoldable pub ep_flush : Platform → ℕ → Device → Device
ep_flush p addr d =
    let r = ep_addr2ref addr in
    set_ep_state r state_idle (touch_ep p (ep_index r) (ep_call p r (pd_ep_flush addr) d))

unfoldable pub ep_set_stall : Platform → ℕ → Device → Device
ep_set_stall p addr d =
    let r = ep_addr2ref addr in
    set_ep_state r state_stall (touch_ep p (ep_index r) (ep_call p r (pd_ep_set_stall addr) d))

unfoldable pub ep_clear_stall : Platform → ℕ → Device → Device
ep_clear_stall p addr d =
    let r = ep_addr2ref addr in
    set_ep_state r state_idle (touch_ep p (ep_index r) (ep_call p r (pd_ep_clear_stall addr) d))

-- The test of USBD_EpSend and USBD_EpReceive.
abbrev pub is_free : Endpoint → Bool
is_free e = is_idle e.state || is_isochronous e.type

-- `USBD_EpSend`
unfoldable pub ep_send : Platform → ℕ → Buffer → ℕ → Device → ReturnType × Device
ep_send p addr buf len d =
    let r = in_ep (addr % 16) in
    let touched = touch_ep p (addr % 16) d in
    if is_free (get_ep r d)
    then (e_ok, ep_call p r (pd_ep_send addr buf len) (set_ep_state r state_data touched))
    else (e_busy, touched)

-- `USBD_EpReceive`: the address of an OUT endpoint is its number, and is not masked.
unfoldable pub ep_receive : Platform → ℕ → Buffer → ℕ → Device → ReturnType × Device
ep_receive p addr buf len d =
    let r = out_ep addr in
    let touched = touch_ep p addr d in
    if is_free (get_ep r d)
    then (e_ok, ep_call p r (pd_ep_receive addr buf len) (set_ep_state r state_data touched))
    else (e_busy, touched)
