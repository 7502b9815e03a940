-- ===== src/Dfu.antt =====
-- The device firmware upgrade class: the types of Include/usbd_dfu.h, and the constants of
-- Class/DFU/usbd_dfu.c; the build with USBD_DFU_ST_EXTENSION is in Extension, and
-- that with USBD_DFU_ALTSETTINGS in Alternates.
pub mod Alternates
pub mod Boot
pub mod Download
pub mod Events
pub mod Extension
pub mod Machine
pub mod Pointer
pub mod Region
pub mod Requests
pub mod Safety
pub mod Setup
pub mod Stages
pub mod Upload
use usbdevice.Base.{
  ℕ, ◌+◌, ◌-◌, ◌*◌, ◌/◌, ◌%◌, ◌^◌, Bool, true, false, Option, List, [], ◌∷◌, leb, if◌then◌else◌,
}
use usbdevice.Device.{Device}

-- `USBD_DFU_StateType`, in the order of its numbers.
pub data State : Type 0 where
  app_idle app_detach idle dnload_sync dnload_busy dnload_idle : State
  manifest_sync manifest manifest_wait_reset upload_idle error : State

abbrev pub code : State → ℕ
code app_idle = 0
code app_detach = 1
code idle = 2
code dnload_sync = 3
code dnload_busy = 4
code dnload_idle = 5
code manifest_sync = 6
code manifest = 7
code manifest_wait_reset = 8
code upload_idle = 9
code error = 10

-- `State += 1`, which the code does in two states only.
abbrev pub succ_state : State → State
succ_state app_idle = app_detach
succ_state app_detach = idle
succ_state idle = dnload_sync
succ_state dnload_sync = dnload_busy
succ_state dnload_busy = dnload_idle
succ_state dnload_idle = manifest_sync
succ_state manifest_sync = manifest
succ_state manifest = manifest_wait_reset
succ_state manifest_wait_reset = upload_idle
succ_state upload_idle = error
succ_state error = error

abbrev pub is_idle : State → Bool
is_idle idle = true
is_idle _ = false

abbrev pub is_dnload_sync : State → Bool
is_dnload_sync dnload_sync = true
is_dnload_sync _ = false

abbrev pub is_manifest_sync : State → Bool
is_manifest_sync manifest_sync = true
is_manifest_sync _ = false

-- `State >= DFU_STATE_IDLE`
abbrev pub in_dfu_mode : State → Bool
in_dfu_mode s = leb (code idle) (code s)

-- `USBD_DFU_StatusType`: the numbers that the class sets itself.
abbrev pub error_none : ℕ
error_none = 0x00

abbrev pub error_firmware : ℕ
error_firmware = 0x0A

abbrev pub error_stalledpkt : ℕ
error_stalledpkt = 0x0F

-- `USBD_DFU_RequestType`
abbrev pub req_detach : ℕ
req_detach = 0

abbrev pub req_dnload : ℕ
req_dnload = 1

abbrev pub req_upload : ℕ
req_upload = 2

abbrev pub req_getstatus : ℕ
req_getstatus = 3

abbrev pub req_clrstatus : ℕ
req_clrstatus = 4

abbrev pub req_getstate : ℕ
req_getstate = 5

abbrev pub req_abort : ℕ
req_abort = 6

-- The calls of the application's functions, with their arguments, and of the reboot function.
pub data AppCall : Type 0 where
  app_init app_deinit app_manifest reboot : AppCall
  app_erase : ℕ → AppCall
  app_write : ℕ → List ℕ → ℕ → AppCall
  app_read : ℕ → ℕ → AppCall

-- `USBD_DFU_AppType`, which the application gives: `none` and `false` stand for NULL. What a function
-- answers may depend on all calls so far, its own first: `read` gives the bytes that it stores.
pub record App : Type 0 where
  pub firmware_address : ℕ
  pub total_size : ℕ
  pub has_init : Bool
  pub has_deinit : Bool
  pub manifest_fn : Option (List AppCall → ℕ)
  pub erase : Option (List AppCall → ℕ)
  pub write : Option (List AppCall → ℕ)
  pub read : Option (List AppCall → List ℕ)
  pub get_timeout : Option (ℕ → ℕ → ℕ)

-- `USBD_DFU_IfHandleType` with its reference, and the calls of the application so far, the last first.
pub record Dfu : Type 0 where
  pub self : ℕ
  pub app : App
  pub has_reboot : Bool
  pub detach_timeout : ℕ
  pub tag0 : ℕ
  pub tag1 : ℕ
  pub block_num : ℕ
  pub block_length : ℕ
  pub address : ℕ
  pub status : ℕ
  pub poll_timeout : ℕ
  pub state : State
  pub i_string : ℕ
  pub log : List AppCall

-- The handle, and the device that it is mounted on (`Base.Device`).
pub record Ctx : Type 0 where
  pub itf : Dfu
  pub dev : Device

abbrev pub u32_mod : ℕ
u32_mod = 2 ^ 32

-- `DFU_MODE_TAG` and its complement, as `uint32_t`.
abbrev pub mode_tag : ℕ
mode_tag = 0xB00770DF

abbrev pub mode_tag_inv : ℕ
mode_tag_inv = u32_mod - 1 - mode_tag

-- `dfu_desc.DFUFD.bmAttributes`; the options are added by `get_desc`.
abbrev pub attributes : Bool → ℕ
attributes tolerant = (if tolerant then 4 else 0) + 8

abbrev pub will_detach : Bool → Bool
will_detach tolerant = leb 1 (attributes tolerant / 8 % 2)

-- The first address behind the firmware, as `uint32_t`.
abbrev pub firmware_end : App → ℕ
firmware_end a = (a.firmware_address + a.total_size) % u32_mod

abbrev pub on_itf : (Dfu → Dfu) → Ctx → Ctx
on_itf f c = record c { itf = f c.itf }
