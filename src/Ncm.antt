-- ===== src/Ncm.antt =====
-- The network control model: the types of Include/usbd_ncm.h, and the layout of a network transfer block
-- in Class/CDC/usbd_ncm.c.
pub mod Describe
pub mod Walk
pub mod Space
pub mod Locked
pub mod Events
pub mod Sending
pub mod Verify
pub mod Arrival
pub mod Gathering
pub mod Bytes
pub mod Steps
pub mod Reading
pub mod Filling
pub mod Block
pub mod Layout
pub mod Stages
pub mod Send
pub mod Receive
use usbdevice.Base.{ℕ, ◌+◌, ◌*◌, ◌/◌, ◌%◌, ◌-◌, ◌^◌, Bool, Option, none, some, List, ◌==◌, update}
use usbdevice.Device.{ReturnType, Device}

-- `NTBStateType`
pub data NtbState : Type 0 where
  ntb_empty ntb_processing ntb_transferring ntb_ready : NtbState

abbrev pub is_ntb_empty : NtbState → Bool
is_ntb_empty ntb_empty = Bool.true
is_ntb_empty _ = Bool.false

abbrev pub is_ntb_processing : NtbState → Bool
is_ntb_processing ntb_processing = Bool.true
is_ntb_processing _ = Bool.false

abbrev pub is_ntb_ready : NtbState → Bool
is_ntb_ready ntb_ready = Bool.true
is_ntb_ready _ = Bool.false

-- The bytes from the start of a page of a double buffer on, and the fields in them, the low byte first.
abbrev pub Bytes : Type 0
Bytes = ℕ → ℕ

unfoldable pub get16 : Bytes → ℕ → ℕ
get16 b i = b i + 256 * b (i + 1)

unfoldable pub get32 : Bytes → ℕ → ℕ
get32 b i = get16 b i + 65536 * get16 b (i + 2)

unfoldable pub put16 : ℕ → ℕ → Bytes → Bytes
put16 i v b = update (update b i (v % 256)) (i + 1) (v / 256 % 256)

unfoldable pub put32 : ℕ → ℕ → Bytes → Bytes
put32 i v b = put16 (i + 2) (v / 65536) (put16 i v b)

-- `nth16_sign` and `ndp16_sign`: "NCMH" and "NCM0" read as words.
abbrev pub nth16_sign : ℕ
nth16_sign = 0x484D434E

abbrev pub ndp16_sign : ℕ
ndp16_sign = 0x304D434E

-- The sizes of `USBD_NCM_TransferHeaderType.V16`, and of `USBD_NCM_DatagramPointerTableType.V16` with
-- its one datagram; the offsets of their fields.
abbrev pub header_size : ℕ
header_size = 12

abbrev pub table_size : ℕ
table_size = 12

abbrev pub header_length_at : ℕ
header_length_at = 4

abbrev pub sequence_at : ℕ
sequence_at = 6

abbrev pub block_length_at : ℕ
block_length_at = 8

abbrev pub ndp_index_at : ℕ
ndp_index_at = 10

-- The fields of the table at `pt`, and of its entry `n`.
abbrev pub table_length_at : ℕ → ℕ
table_length_at pt = pt + 4

abbrev pub next_ndp_at : ℕ → ℕ
next_ndp_at pt = pt + 6

abbrev pub dg_index_at : ℕ → ℕ → ℕ
dg_index_at pt n = pt + 8 + 4 * n

abbrev pub dg_length_at : ℕ → ℕ → ℕ
dg_length_at pt n = pt + 10 + 4 * n

-- `USBD_NCM_IfHandleType` with its reference and the fields of `Base` and `Notify` that change. A page is
-- 0 or 1. `out_at` and `in_at` are the addresses of `Out.Data[page]` and `In.Data[page]`, `notify_at`
-- and `connection_at` those of `Notify` and `Notify.Connection`; `out_table` is the offset in its page
-- that `Out.PT` points to.
pub record Ncm : Type 0 where
  pub self : ℕ
  pub alt_selector : ℕ
  pub out_ep_num : ℕ
  pub in_ep_num : ℕ
  pub not_ep_num : ℕ
  pub notify_at : ℕ
  pub connection_at : ℕ
  pub out_at : ℕ → ℕ
  pub in_at : ℕ → ℕ
  pub connection : ℕ
  pub bit_rate : ℕ
  pub out_bytes : ℕ → Bytes
  pub out_table : ℕ
  pub out_page : ℕ
  pub out_dx : ℕ
  pub out_state : ℕ → NtbState
  pub in_bytes : ℕ → Bytes
  pub max_size : ℕ
  pub rem_size : ℕ
  pub in_index : ℕ
  pub in_page : ℕ
  pub dg_count : ℕ
  pub send_state : NtbState
  pub fill_state : NtbState

pub record NcmCtx : Type 0 where
  pub itf : Ncm
  pub dev : Device

-- USBD_NCM_MAX_IN_SIZE and USBD_NCM_MAX_OUT_SIZE, and the size of a page, which is one of words.
pub record NcmOptions : Type 0 where
  pub max_in_size : ℕ
  pub max_out_size : ℕ

abbrev pub in_page_size : NcmOptions → ℕ
in_page_size o = 4 * (o.max_in_size / 4)

abbrev pub out_page_size : NcmOptions → ℕ
out_page_size o = 4 * (o.max_out_size / 4)

-- `USBD_NCM_AppType`: the functions of the application, `none` for NULL. They may call the stack.
pub record NcmApp : Type 0 where
  pub name : List ℕ
  pub net_address : List ℕ
  pub app_init : Option (NcmCtx → NcmCtx)
  pub app_deinit : Option (NcmCtx → NcmCtx)
  pub received : Option (NcmCtx → NcmCtx)

abbrev pub on_ncm : (Ncm → Ncm) → NcmCtx → NcmCtx
on_ncm f c = record c { itf = f c.itf }

abbrev pub on_ncm_dev : (Device → Device) → NcmCtx → NcmCtx
on_ncm_dev f c = record c { dev = f c.dev }

abbrev pub on_ncm_result : (Device → ReturnType × Device) → NcmCtx → ReturnType × NcmCtx
on_ncm_result f c = let (r, d) = f c.dev in (r, record c { dev = d })

-- `USBD_SAFE_CALLBACK`
abbrev pub tell : Option (NcmCtx → NcmCtx) → NcmCtx → NcmCtx
tell none c = c
tell (some f) c = f c

-- `1 - page`
abbrev pub other : ℕ → ℕ
other page = (257 - page) % 256

-- A 32-bit subtraction.
abbrev pub sub32 : ℕ → ℕ → ℕ
sub32 a b = (a + 2 ^ 32 - b) % 2 ^ 32

-- The space of a fresh block: its size without the header and the table.
abbrev pub fresh_size : ℕ → ℕ
fresh_size max = sub32 max (header_size + table_size)

-- `(n + 3) & (~3)`
abbrev pub align4 : ℕ → ℕ
align4 n = 4 * ((n + 3) / 4)
