-- ===== src/Callback.antt =====
-- The entry points of the stack: the callbacks that the peripheral driver calls (Device/usbd.c,
-- Device/usbd_ctrl.c and Device/usbd_ep.c) and the functions that the application calls.
pub mod Address
pub mod Describe
pub mod Halt
pub mod Reset
pub mod Transfer
use usbdevice.Base.{
  ℕ, ◌-◌, ◌*◌, ◌/◌, ◌%◌, Bool, false, not, ◌&&◌, ltb, leb, ◌==◌, if◌then◌else◌, bit_and, update,
}
use usbdevice.Device.{
  ReturnType, e_ok, e_invalid, Speed, is_full, is_in, is_isochronous, state_closed, state_idle,
  state_setup, recipient_device, recipient_interface, recipient_endpoint, req_set_address,
  request_type_b, Endpoint, null, pd_init, pd_deinit, pd_start, pd_stop, pd_ctrl_ep_open,
  pd_set_address, pd_ep_send, Platform, Description, Device, in_ep, out_ep, set_ep_state, touch_if,
  call, ep_call,
}
use usbdevice.Control.{ctrl_send_error, ctrl_send_status, ctrl_receive_status}
use usbdevice.World.{World, Class, on_dev, if_class_data_stage, if_class_in_data, if_class_out_data}
use usbdevice.Interface.{if_config, if_request}
use usbdevice.Request.{dev_request, ep_request}

-- `USBD_Init`
unfoldable pub init : Description → Device → Device
init desc d = call pd_init (record d {
  desc = desc;
  config_selector = 0;
  remote_wakeup = false;
  self_powered = desc.config_b / 64 % 2 == 1;
  ep_in = update d.ep_in 0 (record (d.ep_in 0) { max_packet_size = 64 });
  ep_out = update d.ep_out 0 (record (d.ep_out 0) { max_packet_size = 64 });
})

-- `USBD_Connect`
unfoldable pub connect : Device → Device
connect d = call pd_start d

-- The test of `USBD_CtrlInCallback`: the last packet was full, and the host expects more.
unfoldable pub needs_zlp : Device → Bool
needs_zlp d =
    let e = d.ep_in 0 in
    ltb e.transfer_length d.setup.length
    && leb e.max_packet_size e.transfer_length
    && (bit_and e.transfer_length (e.max_packet_size - 1) == 0)

-- The address of a SET_ADDRESS request, unless it was set at once.
unfoldable pub apply_address : Platform → Device → Device
apply_address p d =
    if not p.set_address_immediate
      && (request_type_b d.setup == 0)
      && (d.setup.request == req_set_address)
    then call (pd_set_address (d.setup.value % 128)) d
    else d

-- The adjustment of an endpoint for full speed in `USBD_ResetCallback`.
unfoldable pub limit_ep : Endpoint → Endpoint
limit_ep e =
    if is_isochronous e.type
    then record e { max_packet_size = e.max_packet_size * 8 % 65536 }
    else if ltb 64 e.max_packet_size
    then record e { max_packet_size = 64 }
    else e

-- The loop from the last OUT endpoint down to the first IN endpoint, which is left out: the OUT
-- endpoints, then the IN endpoints but 0.
unfoldable pub limit_eps : Platform → Device → Device
limit_eps p d = record d {
  ep_out = λ n. if ltb n p.max_ep_count then limit_ep (d.ep_out n) else d.ep_out n;
  ep_in = λ n. if ltb 0 n && ltb n p.max_ep_count then limit_ep (d.ep_in n) else d.ep_in n;
}

-- The loop of `USBD_UnmountInterfaces` over the endpoints from 1 on.
unfoldable pub close_ep : Platform → ℕ → Endpoint → Endpoint
close_ep p n e =
    if ltb 0 n && ltb n p.max_ep_count
    then record e { max_packet_size = 0; state = state_closed }
    else e

unfoldable pub close_eps : Platform → Device → Device
close_eps p d = record d {
  ep_out = λ n. close_ep p n (d.ep_out n);
  ep_in = λ n. close_ep p n (d.ep_in n);
}

module _ {S : Type 0} (p : Platform) (c : Class S) where
  -- The class that the setup request is addressed to is told that its data stage is over.
  unfoldable pub data_stage : World S → World S
  data_stage w =
      let i = w.dev.setup.index % 256 in
      if_class_data_stage c (w.dev.ifs i) (on_dev (touch_if p i) w)

  -- `USBD_CtrlInCallback`
  unfoldable pub ctrl_in_callback : World S → World S
  ctrl_in_callback w =
      let v = on_dev (set_ep_state (in_ep 0) state_idle) w in
      if needs_zlp w.dev
      then on_dev (ep_call p (in_ep 0) (pd_ep_send 0x80 null 0)) w
      else if is_in w.dev.setup.direction
      then on_dev (ctrl_receive_status p) (
          if not (w.dev.config_selector == 0) && (w.dev.setup.recipient == recipient_interface)
          then data_stage v
          else v)
      else on_dev (apply_address p) v

  -- `USBD_CtrlOutCallback`
  unfoldable pub ctrl_out_callback : World S → World S
  ctrl_out_callback w =
      if ltb 0 w.dev.setup.length && not (is_in w.dev.setup.direction)
      then on_dev (ctrl_send_status p) (if w.dev.config_selector == 0 then w else data_stage w)
      else w

  -- `USBD_EpInCallback` and `USBD_EpOutCallback`
  unfoldable pub ep_in_callback : ℕ → World S → World S
  ep_in_callback n w =
      let i = (w.dev.ep_in n).if_num in
      if n == 0
      then ctrl_in_callback w
      else if_class_in_data c (w.dev.ifs i) (in_ep n)
          (on_dev (λ d. touch_if p i (set_ep_state (in_ep n) state_idle d)) w)

  unfoldable pub ep_out_callback : ℕ → World S → World S
  ep_out_callback n w =
      let i = (w.dev.ep_out n).if_num in
      let v = on_dev (set_ep_state (out_ep n) state_idle) w in
      if n == 0
      then ctrl_out_callback v
      else if_class_out_data c (w.dev.ifs i) (out_ep n) (on_dev (touch_if p i) v)

  -- The switch over the recipient in `USBD_SetupCallback`.
  unfoldable pub route_request : World S → ReturnType × World S
  route_request w =
      let r = w.dev.setup.recipient in
      if r == recipient_device
      then dev_request p c w
      else if r == recipient_interface
      then if_request p c w
      else if r == recipient_endpoint
      then ep_request p c w
      else (e_invalid, w)

  -- What `USBD_SetupCallback` does with the answer.
  unfoldable pub finish_setup : ReturnType × World S → World S
  finish_setup (e_ok, w) = if w.dev.setup.length == 0 then on_dev (ctrl_send_status p) w else w
  finish_setup (_, w) = on_dev (ctrl_send_error p) w

  -- `USBD_SetupCallback`
  unfoldable pub setup_callback : World S → World S
  setup_callback w = finish_setup (route_request (on_dev (set_ep_state (out_ep 0) state_setup) w))

  -- `USBD_ResetCallback`
  unfoldable pub reset_callback : Speed → World S → World S
  reset_callback speed w =
      let v = if_config p c 0 (on_dev (λ d. record d { speed = speed }) w) in
      on_dev
        (λ d.
          set_ep_state (out_ep 0) state_idle
            (call pd_ctrl_ep_open (if p.hs_support && is_full speed then limit_eps p d else d)))
        v

  -- `USBD_Deinit`, `USBD_Disconnect`, `USBD_UnmountInterfaces`
  unfoldable pub deinit : World S → World S
  deinit w = on_dev (call pd_deinit) (if_config p c 0 w)

  unfoldable pub disconnect : World S → World S
  disconnect w = on_dev (call pd_stop) (if_config p c 0 w)

  unfoldable pub unmount_interfaces : World S → World S
  unmount_interfaces w = on_dev (λ d. close_eps p (record d { if_count = 0 })) (if_config p c 0 w)
