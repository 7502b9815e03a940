-- ===== src/Msc.antt =====
-- The mass storage class: the types of Include/usbd_msc.h, with the buffer of 512 bytes that is its
-- default, and the constants of Include/private/usbd_msc_private.h.
pub mod Blocks
pub mod Commands
pub mod Medium
pub mod Mount
pub mod Reading
pub mod Recovery
pub mod Run
pub mod Transport
pub mod Units
pub mod Wrapper
use usbdevice.Base.{ℕ, ◌+◌, ◌*◌, ◌^◌, Bool, List, get_or}
use usbdevice.Device.{ReturnType, Device}

-- `USBD_MSC_StateType` and `USBD_MSC_StatusType`
pub data MscState : Type 0 where
  command_out data_out data_in status_in stall : MscState

pub data MscStatus : Type 0 where
  normal recovery failing : MscStatus

-- `USBD_MSC_CSWStatusType`
abbrev pub cmd_passed : ℕ
cmd_passed = 0

abbrev pub cmd_failed : ℕ
cmd_failed = 1

abbrev pub msc_buffer_size : ℕ
msc_buffer_size = 512

-- `USBD_MSC_CommandBlockWrapperType` and `USBD_MSC_CommandStatusWrapperType`
pub record CommandBlock : Type 0 where
  pub signature : ℕ
  pub tag : ℕ
  pub data_length : ℕ
  pub flags : ℕ
  pub lun : ℕ
  pub cb_length : ℕ
  pub cb : List ℕ

pub record CommandStatus : Type 0 where
  pub signature : ℕ
  pub tag : ℕ
  pub data_residue : ℕ
  pub status : ℕ

-- The calls of a logical unit: the unit, the first block and the number of blocks, and what is written.
pub data LuCall : Type 0 where
  lu_init lu_deinit : ℕ → LuCall
  lu_read : ℕ → ℕ → ℕ → LuCall
  lu_write : ℕ → List ℕ → ℕ → ℕ → LuCall

-- `USBD_MSC_LUType` with its status. What a function answers may depend on all calls so far, its own
-- first; `read` gives the bytes that it stores too. `inquiry` is the memory from the standard inquiry
-- data on; `false` stands for NULL.
pub record LogicalUnit : Type 0 where
  pub read : List LuCall → ReturnType × List ℕ
  pub write : List LuCall → ReturnType
  pub block_count : ℕ
  pub block_size : ℕ
  pub is_ready : Bool
  pub is_writable : Bool
  pub has_init : Bool
  pub has_deinit : Bool
  pub inquiry : List ℕ

-- `USBD_MSC_IfHandleType` with its reference, and the calls of the logical units so far, the last first.
pub record Msc : Type 0 where
  pub self : ℕ
  pub lus : ℕ → LogicalUnit
  pub out_ep_num : ℕ
  pub in_ep_num : ℕ
  pub max_lun : ℕ
  pub buffer : List ℕ
  pub cbw : CommandBlock
  pub csw : CommandStatus
  pub state : MscState
  pub status : MscStatus
  pub sense_key : ℕ
  pub sense_asc : ℕ
  pub address : ℕ
  pub rem_length : ℕ
  pub log : List LuCall

pub record MscCtx : Type 0 where
  pub itf : Msc
  pub dev : Device

-- The logical unit of the current command.
abbrev pub current : Msc → LogicalUnit
current i = i.lus i.cbw.lun

-- Words of a command block, the high byte first.
abbrev pub be16 : List ℕ → ℕ → ℕ
be16 xs n = 256 * get_or xs n 0 + get_or xs (n + 1) 0

abbrev pub be32 : List ℕ → ℕ → ℕ
be32 xs n = 65536 * be16 xs n + be16 xs (n + 2)

abbrev pub word_mod : ℕ
word_mod = 2 ^ 32
