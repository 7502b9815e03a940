-- ===== src/Dfu/Region.antt =====
-- The memory that the interface asks the application to erase, write and read.
use usbdevice.Base.{◌+◌, ◌≤◌, ◌<◌, ◌≡◌, Bool, true, false, List, [], ◌∷◌, arith}
use usbdevice.Device.{Platform}
use usbdevice.Control.{ctrl_send_data, ctrl_receive_data}
use usbdevice.Dfu.{
  error_none, State, dnload_sync, dnload_busy, in_dfu_mode, App, AppCall, app_erase, app_write,
  app_read, Dfu, Ctx, u32_mod,
}
use usbdevice.Dfu.Requests.{
  detach, start_block, download_block, download, upload_block, upload_end, upload, advance,
  get_status, clear_status, get_state, abort,
}
use usbdevice.Dfu.Setup.{refuse}

-- A call of the application stays within its firmware.
abbrev pub Inside : App → AppCall → Type 0
Inside a (app_write addr bytes len) =
    (a.firmware_address ≤ addr) × (addr + len ≤ a.firmware_address + a.total_size)
Inside a (app_read addr len) =
    (a.firmware_address ≤ addr) × (addr + len ≤ a.firmware_address + a.total_size)
Inside a (app_erase addr) = addr ≡ a.firmware_address
Inside a _ = Unit

abbrev pub AllInside : App → List AppCall → Type 0
AllInside a [] = Unit
AllInside a (x ∷ xs) = Inside a x × AllInside a xs

-- The firmware lies below the end of the address space by at least the size of a block.
abbrev pub Fits : Platform → App → Type 0
Fits p a = a.firmware_address + a.total_size + p.ep0_buffer_size < u32_mod

-- A block is waiting to be written.
abbrev pub is_loading : State → Bool
is_loading dnload_sync = true
is_loading dnload_busy = true
is_loading _ = false

-- In firmware upgrade mode the address lies within the firmware, and so does the block that waits;
-- outside of it there is no error.
pub record InRegion (p : Platform) (i : Dfu) : Type 0 where
  pub fits : Fits p i.app
  pub low : in_dfu_mode i.state ≡ true → i.app.firmware_address ≤ i.address
  pub high : in_dfu_mode i.state ≡ true → i.address ≤ i.app.firmware_address + i.app.total_size
  pub block :
      is_loading i.state ≡ true
      → i.address + i.block_length ≤ i.app.firmware_address + i.app.total_size
  pub app_quiet : in_dfu_mode i.state ≡ false → i.status ≡ error_none
  pub inside : AllInside i.app i.log

module _ (p : Platform) (tolerant : Bool) where
  pub start_block-InRegion : (i : Dfu) → InRegion p i → InRegion p (start_block i)
  unfolding start_block
  start_block-InRegion i v = ground arith

  pub download-InRegion :
      (c : Ctx)
      → in_dfu_mode c.itf.state ≡ true
      → InRegion p c.itf
      → InRegion p (download p c).1.itf
  unfolding download download_block start_block ctrl_receive_data
  download-InRegion c m v = ground arith

  pub upload-InRegion :
      (c : Ctx) → in_dfu_mode c.itf.state ≡ true → InRegion p c.itf → InRegion p (upload p c).1.itf
  unfolding upload upload_block upload_end start_block ctrl_send_data
  upload-InRegion c m v = ground arith

  pub get_status-InRegion : (c : Ctx) → InRegion p c.itf → InRegion p (get_status p c).1.itf
  unfolding get_status advance ctrl_send_data
  get_status-InRegion c v = ground arith

  pub refuse-InRegion : (c : Ctx) → InRegion p c.itf → InRegion p (refuse c).1.itf
  unfolding refuse
  refuse-InRegion c v = ground arith

  pub get_state-InRegion : (c : Ctx) → InRegion p c.itf → InRegion p (get_state p c).1.itf
  unfolding get_state ctrl_send_data
  get_state-InRegion c v = ground arith

  pub detach-InRegion :
      (c : Ctx)
      → in_dfu_mode c.itf.state ≡ false
      → InRegion p c.itf
      → InRegion p (detach tolerant c).1.itf
  unfolding detach
  detach-InRegion c m v = ground arith

  pub abort-InRegion :
      (c : Ctx) → in_dfu_mode c.itf.state ≡ true → InRegion p c.itf → InRegion p (abort c).1.itf
  unfolding abort
  abort-InRegion c m v = ground arith

  pub clear_status-InRegion :
      (c : Ctx)
      → in_dfu_mode c.itf.state ≡ true
      → InRegion p c.itf
      → InRegion p (clear_status c).1.itf
  unfolding clear_status
  clear_status-InRegion c m v = ground arith
