-- ===== src/Endpoint/Address.antt =====
-- The addresses of endpoints, and the places in the arrays that they stand for.
use usbdevice.Base.{◌≤◌, ◌<◌, ◌≡◌, arith}
use usbdevice.Device.{Platform, EpRef, in_ep, out_ep}
use usbdevice.Endpoint.{ep_addr2ref, ep_ref2addr, ep_index}

-- On a device with at most 16 endpoints in each direction the address of an endpoint leads back to
-- that endpoint.
pub ep_addr2ref-ep_ref2addr :
    (p : Platform) (r : EpRef)
    → p.max_ep_count ≤ 16
    → ep_index r < p.max_ep_count
    → ep_addr2ref (ep_ref2addr p r) ≡ r
unfolding ep_addr2ref ep_ref2addr
ep_addr2ref-ep_ref2addr p (in_ep n) h k = ground arith
ep_addr2ref-ep_ref2addr p (out_ep n) h k = ground arith
