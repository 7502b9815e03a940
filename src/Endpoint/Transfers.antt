-- ===== src/Endpoint/Transfers.antt =====
-- Transfers over an endpoint: one at a time.
use usbdevice.Base.{ℕ, ◌%◌, ◌≡◌, false, arith}
use usbdevice.Device.{e_ok, e_busy, is_isochronous, Buffer, Platform, Device}
use usbdevice.Endpoint.{ep_send}

-- While a transfer is under way on an endpoint that is not isochronous, a second one is refused:
-- after a send that was accepted, the next send answers BUSY and gives the driver no call.
pub one_transfer :
    (p : Platform) (addr : ℕ) (b b' : Buffer) (len len' : ℕ) (d : Device)
    → is_isochronous (d.ep_in (addr % 16)).type ≡ false
    → (ep_send p addr b len d).0 ≡ e_ok
    → ((ep_send p addr b' len' (ep_send p addr b len d).1).0 ≡ e_busy)
      × ((ep_send p addr b' len' (ep_send p addr b len d).1).1.calls
          ≡ (ep_send p addr b len d).1.calls)
unfolding ep_send
one_transfer p addr b b' len len' d iso ok = ground arith
