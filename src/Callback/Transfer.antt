-- ===== src/Callback/Transfer.antt =====
-- How a control transfer with a data stage to the host ends.
use usbdevice.Base.{
  ℕ, ◌<◌, ◌∷◌, ◌≡◌, true, false, min, arith, refl, if◌then◌else◌, Bool-cases, inl, inr,
}
use usbdevice.Device.{
  is_setup, direction_in, state_status, null, Buffer, pd_ep_send, Platform, Device, in_ep, ep_call,
}
use usbdevice.Control.{ctrl_send_data, ctrl_receive_data, ctrl_receive_status}
use usbdevice.World.{World, Class, on_dev}
use usbdevice.Callback.{ctrl_in_callback, needs_zlp}

-- A zero length packet is owed exactly if the transfer was shorter than the host had asked for, and
-- its last packet was full. After that packet, with nothing sent in it, none is owed.
needs_zlp_zero :
    (d : Device)
    → (d.ep_in 0).transfer_length ≡ 0
    → 0 < (d.ep_in 0).max_packet_size
    → needs_zlp d ≡ false
unfolding needs_zlp
needs_zlp_zero d e h = ground arith

module _ {S : Type 0} (p : Platform) (c : Class S) where
  ctrl_in_status :
      (w : World S)
      → w.dev.setup.direction ≡ direction_in
      → needs_zlp w.dev ≡ false
      → (((ctrl_in_callback p c w).dev.ep_out 0).state ≡ state_status)
  unfolding ctrl_in_callback ctrl_receive_status
  ctrl_in_status w dir z = rw (z, dir) (ground arith)

  abbrev sent : World S → World S
  sent w = on_dev (ep_call p (in_ep 0) (pd_ep_send 0x80 null 0)) w

  send_zlp : (w : World S) → needs_zlp w.dev ≡ true → ctrl_in_callback p c w ≡ sent w
  unfolding ctrl_in_callback
  send_zlp w z = rw z refl

  -- A transfer to the host ends: after the completion of its data stage, and of the zero length packet
  -- if one is owed, the stack waits for the status packet of the host. (If the driver gives that
  -- packet the length 0.)
  pub in_transfer_ends :
      (w : World S)
      → ((l : ℕ) → p.transfer (pd_ep_send 0x80 null 0) l ≡ 0)
      → w.dev.setup.direction ≡ direction_in
      → 0 < (w.dev.ep_in 0).max_packet_size
      → let w' = if needs_zlp w.dev then ctrl_in_callback p c w else w in
        ((ctrl_in_callback p c w').dev.ep_out 0).state ≡ state_status
  in_transfer_ends w law dir mps = elim (Bool-cases (needs_zlp w.dev)) [
    | inl z ↦
        rw (z, send_zlp w z) (ctrl_in_status (sent w) dir (needs_zlp_zero (sent w).dev (law _) mps))
    | inr z ↦ rw z (ctrl_in_status w dir z)
  ]

-- A data stage, in either direction, moves no more bytes than the host has asked for, and one that is
-- started within the setup stage is accepted; it is refused in the other direction.
pub ctrl_send_data_lem :
    (p : Platform) (b : Buffer) (len : ℕ) (d : Device)
    → is_setup (d.ep_out 0).state ≡ true
    → d.setup.direction ≡ direction_in
    → ((ctrl_send_data p b len d).1.calls ≡ pd_ep_send 0x80 b (min len d.setup.length) ∷ d.calls)
      × ((ctrl_receive_data p b len d).1.calls ≡ d.calls)
unfolding ctrl_send_data ctrl_receive_data
ctrl_send_data_lem p b len d s dir = ground arith
