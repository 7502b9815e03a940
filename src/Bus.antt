-- ===== src/Bus.antt =====
-- A device on a bus: the events that the peripheral driver reports, one after another, in any order
-- (the callbacks of Device/usbd.c, usbd_ctrl.c and usbd_ep.c).
pub mod Kept
pub mod Prompt
pub mod Answer
pub mod Answers
pub mod Bodies
pub mod Config
pub mod Descriptors
pub mod Events
pub mod Requests
pub mod Sound
use usbdevice.Base.{ℕ, ◌≤◌, List, overwrite, update}
use usbdevice.Device.{Speed, SetupRequest, EpRef, Platform, set_transfer_length}
use usbdevice.World.{World, Class, on_dev}
use usbdevice.Callback.{setup_callback, ep_in_callback, ep_out_callback, reset_callback}

abbrev pub received : {S : Type 0} → SetupRequest → World S → World S
received s w = on_dev (λ d. record d { setup = s }) w

abbrev pub set_body : {S : Type 0} → ℕ → S → World S → World S
set_body r b w = record w { itf = update w.itf r (record (w.itf r) { body = b }) }

module _ {S : Type 0} (p : Platform) (c : Class S) (Fills : S → S → Type 0) where
  -- One event. Before a transfer is reported, the driver has stored what the host has sent, in `CtrlData`
  -- or in the handle of an interface, and how much was transferred: `Fills a b` tells which fields of a
  -- handle `a` the driver may have written to make it `b`.
  pub data Step (w : World S) : World S → Type 0 where
    setup_packet : (s : SetupRequest) → Step w (setup_callback p c (received s w))
    in_done : (n : ℕ) → Step w (ep_in_callback p c n w)
    out_done : (n : ℕ) → Step w (ep_out_callback p c n w)
    bus_reset : (s : Speed) → Step w (reset_callback p c s w)
    stored :
        (b : List ℕ) → Step w (on_dev (λ d. record d { ctrl_data = overwrite b d.ctrl_data }) w)
    filled : (r : ℕ) (b : S) → Fills (w.itf r).body b → Step w (set_body r b w)
    counted : (r : EpRef) (l : ℕ) → Step w (on_dev (set_transfer_length r l) w)

  -- The states that a device comes to from `start`.
  pub data Reach (start : World S) : World S → Type 0 where
    here : Reach start start
    later : {v w : World S} → Reach start v → Step v w → Reach start w
