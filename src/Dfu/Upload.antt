-- ===== src/Dfu/Upload.antt =====
-- The upload of firmware, block by block.
use usbdevice.Base.{
  ℕ, ◌+◌, ◌-◌, ◌≤◌, ◌<◌, ◌≡◌, ◌⊎◌, true, none, some, List, ◌∷◌, ltb, if◌then◌else◌, min, arith,
}
use usbdevice.Device.{e_ok, direction_in, is_setup, ctrl_data_buffer, pd_ep_send, Platform}
use usbdevice.Control.{ctrl_send_data}
use usbdevice.Dfu.{idle, upload_idle, AppCall, app_read, Ctx}
use usbdevice.Dfu.Requests.{start_block, next_block, upload, upload_block, upload_end}
use usbdevice.Dfu.Region.{Fits}

-- A request for the block that is due: in dfuIDLE the first one, in dfuUPLOAD-IDLE the one after the
-- last.
pub record IsNextRead (p : Platform) (c : Ctx) : Type 0 where
  pub inward : c.dev.setup.direction ≡ direction_in
  pub in_setup : is_setup (c.dev.ep_out 0).state ≡ true
  pub ready : (c.itf.state ≡ idle) ⊎ (c.itf.state ≡ upload_idle)
  pub numbered : c.dev.setup.value ≡ next_block (start_block c.itf)
  pub some_bytes : 0 < c.dev.setup.length
  pub one_buffer : c.dev.setup.length ≤ p.ep0_buffer_size
  pub byte_count : c.dev.setup.length < 65536
  pub low : c.itf.app.firmware_address ≤ (start_block c.itf).address
  pub high : (start_block c.itf).address ≤ c.itf.app.firmware_address + c.itf.app.total_size

-- An upload request for the block that is due is answered by OK: the application is asked to read at
-- the address of the block as many bytes as the host asks for, but none behind the firmware, and as
-- many are sent; the address grows by their number. A block that is cut short ends the upload in
-- dfuIDLE, a whole one leads to dfuUPLOAD-IDLE. (For an application that can read, and firmware that
-- lies below the end of the address space.)
pub upload_lem :
    (p : Platform) (f : List AppCall → List ℕ) (c : Ctx)
    → c.itf.app.read ≡ some f
    → Fits p c.itf.app
    → IsNextRead p c
    → let start = (start_block c.itf).address in
      let left = c.itf.app.firmware_address + c.itf.app.total_size - start in
      let len = min c.dev.setup.length left in
      let v = upload p c in
      (v.0 ≡ e_ok)
      × (v.1.itf.log ≡ app_read start len ∷ c.itf.log)
      × (v.1.dev.calls ≡ pd_ep_send 0x80 ctrl_data_buffer len ∷ c.dev.calls)
      × (v.1.itf.address ≡ start + len)
      × (v.1.itf.state ≡ (if ltb left c.dev.setup.length then idle else upload_idle))
unfolding upload upload_block start_block ctrl_send_data
upload_lem p f c r fits b = rw r (ground arith)

-- An upload request to an application that cannot read is answered by OK although the host expects
-- bytes: the driver is asked to send nothing.
pub upload_unreadable :
    (p : Platform) (c : Ctx)
    → c.itf.app.read ≡ none
    → 0 < c.dev.setup.length
    → c.dev.setup.length ≤ p.ep0_buffer_size
    → ((upload p c).0 ≡ e_ok) × ((upload p c).1.dev.calls ≡ c.dev.calls)
unfolding upload upload_end
upload_unreadable p c r pos le = ground arith
