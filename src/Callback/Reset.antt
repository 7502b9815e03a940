-- ===== src/Callback/Reset.antt =====
-- A reset on the bus, and the removal of the interfaces.
use usbdevice.Base.{ℕ, ◌*◌, ◌%◌, ◌≤◌, ◌<◌, ◌≡◌, ◌∷◌, true, false, arith}
use usbdevice.Device.{
  Speed, speed_full, type_isochronous, is_isochronous, state_idle, state_closed, pd_ctrl_ep_open,
  Platform,
}
use usbdevice.World.{World, Class, if_class_init, if_class_deinit, on_dev}
use usbdevice.Interface.{if_config}
use usbdevice.Interface.Config.{IsTame}
use usbdevice.Interface.Change.{if_config-config_selector}
use usbdevice.Callback.{
  reset_callback, unmount_interfaces, limit_ep, limit_eps, close_ep, close_eps,
}

module _ {S : Type 0} (p : Platform) (c : Class S) (ti : IsTame S (if_class_init c))
    (td : IsTame S (if_class_deinit c)) where
  -- A reset leaves the device unconfigured and endpoint 0 idle, and has the driver open endpoint 0
  -- last.
  reset_lem :
      (s : Speed) (w : World S)
      → w.dev.if_count < 256
      → let v = on_dev (λ d. record d { speed = s }) w in
        let d = (reset_callback p c s w).dev in
        (d.config_selector ≡ 0)
        × ((d.ep_out 0).state ≡ state_idle)
        × (d.calls ≡ pd_ctrl_ep_open ∷ (if_config p c 0 v).dev.calls)
  unfolding reset_callback limit_eps limit_ep
  reset_lem s w lt =
      let v = on_dev (λ d. record d { speed = s }) w in
      ground (arith, if_config-config_selector p c ti td 0 v lt)

  -- After the interfaces are unmounted, the device is unconfigured and has none, and every endpoint
  -- but 0 is closed, in both directions.
  pub unmount_lem :
      (w : World S) (n : ℕ)
      → w.dev.if_count < 256
      → 0 < n
      → n < p.max_ep_count
      → let d = (unmount_interfaces p c w).dev in
        (d.config_selector ≡ 0)
        × (d.if_count ≡ 0)
        × ((d.ep_in n).state ≡ state_closed)
        × ((d.ep_out n).state ≡ state_closed)
        × ((d.ep_in n).max_packet_size ≡ 0)
        × ((d.ep_out n).max_packet_size ≡ 0)
  unfolding unmount_interfaces close_eps close_ep
  unmount_lem w n lt pos h = ground (arith, if_config-config_selector p c ti td 0 w lt)

-- On a device that supports high speed, a reset to full speed limits the packets of every OUT endpoint
-- that is not isochronous to 64 bytes.
pub reset_limits :
    {S : Type 0} (p : Platform) (c : Class S) (w : World S) (n : ℕ)
    → p.hs_support ≡ true
    → n < p.max_ep_count
    → is_isochronous ((reset_callback p c speed_full w).dev.ep_out n).type ≡ false
    → ((reset_callback p c speed_full w).dev.ep_out n).max_packet_size ≤ 64
unfolding reset_callback limit_eps limit_ep
reset_limits p c w n hs lt iso = ground arith

-- The packets of an isochronous endpoint grow with every reset to full speed, also if the speed was
-- full before: two resets of an unconfigured device multiply them by 64, not by 8.
pub reset_twice :
    {S : Type 0} (p : Platform) (c : Class S) (w : World S) (n : ℕ)
    → p.hs_support ≡ true
    → w.dev.config_selector ≡ 0
    → n < p.max_ep_count
    → (w.dev.ep_out n).type ≡ type_isochronous
    → ((reset_callback p c speed_full (reset_callback p c speed_full w)).dev.ep_out
        n).max_packet_size
      ≡ (w.dev.ep_out n).max_packet_size * 64 % 65536
unfolding reset_callback limit_eps limit_ep if_config
reset_twice p c w n hs cfg lt iso = ground arith
