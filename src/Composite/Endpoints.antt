-- ===== src/Composite/Endpoints.antt =====
-- The functions on endpoints mount no interface, and leave the configuration alone.
use usbdevice.Base.{List, overwrite, ℕ, refl, arith}
use usbdevice.Device.{
  EndPointType, state_idle, state_closed, state_stall, Buffer, PdCall, EndPointState, pd_ep_open,
  pd_ep_close, pd_ep_set_stall, Platform, Device, EpRef, in_ep, out_ep, set_ep_state, touch_ep,
  ep_call,
}
use usbdevice.Endpoint.{ep_addr2ref, ep_index, ep_open, ep_close, ep_set_stall, ep_send, ep_receive}
use usbdevice.Bulk.{set_max_packet_size, reset_mps, data_packet_size}
use usbdevice.Bus.Kept.{KeepsMount, KeepsMount-refl, KeepsMount-trans}
use usbdevice.Bus.Descriptors.{ep_state-mount, ep_call-mount}

pub stored-mount :
    (b : List ℕ) (d : Device) → KeepsMount d (record d { ctrl_data = overwrite b d.ctrl_data })
stored-mount b d = record { count = refl; ifs = refl; config = refl; setup = refl }

touch-mount : (p : Platform) (n : ℕ) (d : Device) → KeepsMount d (touch_ep p n d)
touch-mount p n d = record { count = refl; ifs = refl; config = refl; setup = refl }

-- A call of the driver about an endpoint that is then in another state.
switch-mount :
    (p : Platform) (r : EpRef) (k : PdCall) (n : ℕ) (s : EndPointState) (d : Device)
    → KeepsMount d (set_ep_state r s (touch_ep p n (ep_call p r k d)))
switch-mount p r k n s d =
    let called = ep_call p r k d in
    KeepsMount-trans (ep_call-mount p r k d)
      (KeepsMount-trans (touch-mount p n called) (ep_state-mount r s (touch_ep p n called)))

pub open-mount :
    (p : Platform) (a : ℕ) (t : EndPointType) (m : ℕ) (d : Device)
    → KeepsMount d (ep_open p a t m d)
unfolding ep_open
open-mount p a t m d =
    switch-mount p (ep_addr2ref a) (pd_ep_open a t m) (ep_index (ep_addr2ref a)) state_idle d

pub close-mount : (p : Platform) (a : ℕ) (d : Device) → KeepsMount d (ep_close p a d)
unfolding ep_close
close-mount p a d =
    switch-mount p (ep_addr2ref a) (pd_ep_close a) (ep_index (ep_addr2ref a)) state_closed d

pub stall-mount : (p : Platform) (a : ℕ) (d : Device) → KeepsMount d (ep_set_stall p a d)
unfolding ep_set_stall
stall-mount p a d =
    switch-mount p (ep_addr2ref a) (pd_ep_set_stall a) (ep_index (ep_addr2ref a)) state_stall d

pub send-mount :
    (p : Platform) (a : ℕ) (b : Buffer) (n : ℕ) (d : Device) → KeepsMount d (ep_send p a b n d).1
unfolding ep_send
send-mount p a b n d = record {
  count = ground arith;
  ifs = ground arith;
  config = ground arith;
  setup = ground arith;
}

pub receive-mount :
    (p : Platform) (a : ℕ) (b : Buffer) (n : ℕ) (d : Device) → KeepsMount d (ep_receive p a b n d).1
unfolding ep_receive
receive-mount p a b n d = record {
  count = ground arith;
  ifs = ground arith;
  config = ground arith;
  setup = ground arith;
}

size-mount : (r : EpRef) (n : ℕ) (d : Device) → KeepsMount d (set_max_packet_size r n d)
size-mount (in_ep k) n d = record { count = refl; ifs = refl; config = refl; setup = refl }
size-mount (out_ep k) n d = record { count = refl; ifs = refl; config = refl; setup = refl }

pub reset_mps-mount : (p : Platform) (a b : ℕ) (d : Device) → KeepsMount d (reset_mps p a b d)
reset_mps-mount p a b d =
    let first = set_max_packet_size (ep_addr2ref a) (data_packet_size p) d in
    ground (
      arith,
      KeepsMount-refl d,
      KeepsMount-trans (size-mount (ep_addr2ref a) (data_packet_size p) d)
          (size-mount (ep_addr2ref b) (data_packet_size p) first),
    )
