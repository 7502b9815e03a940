-- ===== src/Bus/Events.antt =====
-- What holds at first, and is kept by every class and by the stack, holds after every sequence of
-- events.
use usbdevice.Base.{overwrite, ◌&&◌, if◌then◌else◌, ℕ, ◌%◌, refl, arith}
use usbdevice.Device.{
  call, pd_ctrl_ep_open, is_full, ep_call, pd_ep_send, null, Platform, Device, Speed, EpRef, in_ep,
  out_ep, ReturnType, e_ok, e_error, e_busy, e_invalid, set_ep_state, set_transfer_length,
  state_idle, state_setup, touch_if,
}
use usbdevice.Control.{ctrl_send_error, ctrl_send_status, ctrl_receive_status}
use usbdevice.World.{World, Class, on_dev}
use usbdevice.Interface.{if_config}
use usbdevice.Callback.{
  setup_callback, finish_setup, ep_in_callback, ep_out_callback, ctrl_in_callback,
  ctrl_out_callback, data_stage, apply_address, reset_callback, limit_eps, route_request,
}
use usbdevice.Bus.{
  received, Step, setup_packet, in_done, out_done, bus_reset, stored, filled, counted, set_body,
  Reach, here, later,
}
use usbdevice.Bus.Kept.{KeepsMount, Own, Own-dev, touch-Own}
use usbdevice.Bus.Descriptors.{plain, ep_state-mount, ep_call-mount}
use usbdevice.Bus.Answers.{IsInvariant, route_request-Safe}

error-Own : {S : Type 0} (p : Platform) (w : World S) → Own w (on_dev (ctrl_send_error p) w)
unfolding ctrl_send_error
error-Own p w = plain (ctrl_send_error p) w refl refl refl refl

status-Own : {S : Type 0} (p : Platform) (w : World S) → Own w (on_dev (ctrl_send_status p) w)
unfolding ctrl_send_status
status-Own p w = plain (ctrl_send_status p) w refl refl refl refl

receive-Own : {S : Type 0} (p : Platform) (w : World S) → Own w (on_dev (ctrl_receive_status p) w)
unfolding ctrl_receive_status
receive-Own p w = plain (ctrl_receive_status p) w refl refl refl refl

address-mount : (p : Platform) (d : Device) → KeepsMount d (apply_address p d)
unfolding apply_address
address-mount p d = record {
  count = ground arith;
  ifs = ground arith;
  config = ground arith;
  setup = ground arith;
}

length-mount : (r : EpRef) (l : ℕ) (d : Device) → KeepsMount d (set_transfer_length r l d)
length-mount (in_ep n) l d = record { count = refl; ifs = refl; config = refl; setup = refl }
length-mount (out_ep n) l d = record { count = refl; ifs = refl; config = refl; setup = refl }

-- What a reset does after the configuration is cleared.
abbrev reopen : Platform → Speed → Device → Device
reopen p s d =
    set_ep_state (out_ep 0) state_idle
      (call pd_ctrl_ep_open (if p.hs_support && is_full s then limit_eps p d else d))

reopen-mount : (p : Platform) (s : Speed) (d : Device) → KeepsMount d (reopen p s d)
unfolding limit_eps
reopen-mount p s d = record {
  count = ground arith;
  ifs = ground arith;
  config = ground arith;
  setup = ground arith;
}

module _ {S : Type 0} (p : Platform) (c : Class S) (Fills : S → S → Type 0) (I : World S → Type 0)
    (inv : IsInvariant p c I)
    (fill : (r : ℕ) (b : S) (w : World S) → Fills (w.itf r).body b → I w → I (set_body r b w)) where
  finish_holds : (x : ReturnType × World S) → I x.1 → I (finish_setup p c x)
  unfolding finish_setup
  finish_holds (e_ok, w) h = ground (arith, h, inv.own (status-Own p w) h)
  finish_holds (e_error, w) h = inv.own (error-Own p w) h
  finish_holds (e_busy, w) h = inv.own (error-Own p w) h
  finish_holds (e_invalid, w) h = inv.own (error-Own p w) h

  setup_holds : (w : World S) → I w → I (setup_callback p c w)
  unfolding setup_callback
  setup_holds w h =
      let v = on_dev (set_ep_state (out_ep 0) state_setup) w in
      let hv =
        inv.own
          (Own-dev (set_ep_state (out_ep 0) state_setup) w
            (ep_state-mount (out_ep 0) state_setup w.dev))
          h in
      finish_holds (route_request p c v) (route_request-Safe p c I inv v hv).sound

  data_stage_holds : (w : World S) → I w → I (data_stage p c w)
  unfolding data_stage
  data_stage_holds w h =
      let i = w.dev.setup.index % 256 in
      let v = on_dev (touch_if p i) w in
      let hv = inv.own (touch-Own p i w) h in inv.data_stage (w.dev.ifs i) v hv

  idle_holds : (r : EpRef) (w : World S) → I w → I (on_dev (set_ep_state r state_idle) w)
  idle_holds r w h =
      inv.own (Own-dev (set_ep_state r state_idle) w (ep_state-mount r state_idle w.dev)) h

  dev_holds :
      (g : Device → Device) (w : World S) → KeepsMount w.dev (g w.dev) → I w → I (on_dev g w)
  dev_holds g w k h = inv.own (Own-dev g w k) h

  -- A packet to the host: none when the transfer is over.
  ctrl_in_holds : (w : World S) → I w → I (ctrl_in_callback p c w)
  unfolding ctrl_in_callback
  ctrl_in_holds w h =
      let zlp = pd_ep_send 0x80 null 0 in
      let v = on_dev (set_ep_state (in_ep 0) state_idle) w in
      let hv = idle_holds (in_ep 0) w h in
      let u = data_stage p c v in
      ground (
        arith,
        dev_holds (ep_call p (in_ep 0) zlp) w (ep_call-mount p (in_ep 0) zlp w.dev) h,
        inv.own (receive-Own p u) (data_stage_holds v hv),
        inv.own (receive-Own p v) hv,
        dev_holds (apply_address p) v (address-mount p v.dev) hv,
      )

  ctrl_out_holds : (w : World S) → I w → I (ctrl_out_callback p c w)
  unfolding ctrl_out_callback
  ctrl_out_holds w h = ground (
    arith,
    h,
    inv.own (status-Own p w) h,
    inv.own (status-Own p (data_stage p c w)) (data_stage_holds w h),
  )

  in_holds : (k : ℕ) (w : World S) → I w → I (ep_in_callback p c k w)
  unfolding ep_in_callback
  in_holds k w h =
      let i = (w.dev.ep_in k).if_num in
      let v = on_dev (set_ep_state (in_ep k) state_idle) w in
      let u = on_dev (touch_if p i) v in
      let hu = inv.own (touch-Own p i v) (idle_holds (in_ep k) w h) in
      ground (arith, ctrl_in_holds w h, inv.in_data (w.dev.ifs i) (in_ep k) u hu)

  out_holds : (k : ℕ) (w : World S) → I w → I (ep_out_callback p c k w)
  unfolding ep_out_callback
  out_holds k w h =
      let i = (w.dev.ep_out k).if_num in
      let v = on_dev (set_ep_state (out_ep k) state_idle) w in
      let u = on_dev (touch_if p i) v in
      let hv = idle_holds (out_ep k) w h in
      ground (
        arith,
        ctrl_out_holds v hv,
        inv.out_data (w.dev.ifs i) (out_ep k) u (inv.own (touch-Own p i v) hv),
      )

  reset_holds : (s : Speed) (w : World S) → I w → I (reset_callback p c s w)
  unfolding reset_callback
  reset_holds s w h =
      let v = on_dev (λ d. record d { speed = s }) w in
      let hv = inv.own (plain (λ d. record d { speed = s }) w refl refl refl refl) h in
      dev_holds (reopen p s) (if_config p c 0 v) (reopen-mount p s _)
        (inv.configure 0 v (omega arith) hv)

  step_holds : {w v : World S} → Step p c Fills w v → I w → I v
  step_holds {w = w} (setup_packet s) h = setup_holds (received s w) (inv.receives s w h)
  step_holds {w = w} (in_done k) h = in_holds k w h
  step_holds {w = w} (out_done k) h = out_holds k w h
  step_holds {w = w} (bus_reset s) h = reset_holds s w h
  step_holds {w = w} (stored b) h =
      inv.own (plain (λ d. record d { ctrl_data = overwrite b d.ctrl_data }) w refl refl refl refl)
        h
  step_holds {w = w} (filled r b x) h = fill r b w x h
  step_holds {w = w} (counted r l) h =
      dev_holds (set_transfer_length r l) w (length-mount r l w.dev) h

  pub reach_holds : {w v : World S} → I w → Reach p c Fills w v → I v
  reach_holds h here = h
  reach_holds h (later r st) = step_holds st (reach_holds h r)
