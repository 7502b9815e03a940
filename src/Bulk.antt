-- ===== src/Bulk.antt =====
-- What the classes share: the sizes of packets in Include/usb_types.h, and the steps that the mount
-- functions and the descriptor functions of Class/MSC/usbd_msc.c, Class/CDC/usbd_cdc.c and
-- Class/HID/usbd_hid.c take in the same way.
use usbdevice.Base.{ℕ, ◌+◌, ◌-◌, ◌^◌, ◌%◌, ◌&&◌, List, if◌then◌else◌, update}
use usbdevice.Device.{
  is_high, is_full, EndPointType, type_bulk, Platform, Device, EpRef, get_ep, put_ep,
}
use usbdevice.Endpoint.{ep_addr2ref}
use usbdevice.Descriptor.{ep_desc}

-- `USB_EP_BULK_HS_MPS` and `USB_EP_BULK_FS_MPS`
abbrev pub bulk_hs_mps : ℕ
bulk_hs_mps = 512

abbrev pub bulk_fs_mps : ℕ
bulk_fs_mps = 64

-- The size of the packets at the speed of the device, and the one that an endpoint is mounted with.
abbrev pub bulk_mps : Platform → Device → ℕ
bulk_mps p d = if p.hs_support && is_high d.speed then bulk_hs_mps else bulk_fs_mps

abbrev pub data_packet_size : Platform → ℕ
data_packet_size p = if p.hs_support then bulk_hs_mps else bulk_fs_mps

abbrev pub set_max_packet_size : EpRef → ℕ → Device → Device
set_max_packet_size r n d = put_ep r (record (get_ep r d) { max_packet_size = n }) d

-- The sizes of the packets return to those of the mount when the endpoints are closed.
abbrev pub reset_mps : Platform → ℕ → ℕ → Device → Device
reset_mps p in_ep_num out_ep_num d =
    if p.hs_support
    then set_max_packet_size (ep_addr2ref out_ep_num) (data_packet_size p)
        (set_max_packet_size (ep_addr2ref in_ep_num) (data_packet_size p) d)
    else d

-- An endpoint descriptor, whose packet size is the one of full speed if the device runs at it.
abbrev pub bulk_desc : Platform → ℕ → Device → List ℕ
bulk_desc p addr d =
    let r = ep_addr2ref addr in
    if p.hs_support && is_full d.speed
    then ep_desc addr (set_max_packet_size r bulk_fs_mps d)
    else ep_desc addr d

-- An endpoint that is bound to the next interface.
abbrev pub bind_ep : EndPointType → ℕ → ℕ → Device → Device
bind_ep type mps addr d =
    let r = ep_addr2ref addr in
    put_ep r (record (get_ep r d) { type = type; max_packet_size = mps; if_num = d.if_count }) d

abbrev pub bind_bulk : Platform → ℕ → Device → Device
bind_bulk p addr d = bind_ep type_bulk (data_packet_size p) addr d

-- The handle takes the next place of `IF`.
abbrev pub mount_at : ℕ → Device → Device
mount_at self d = record d { ifs = update d.ifs d.if_count self; if_count = (d.if_count + 1) % 256 }

-- The address of the start of a transfer of `len` bytes, whose data pointer the driver has advanced.
abbrev pub start_of : ℕ → ℕ → ℕ
start_of at len = (at + 2 ^ 32 - len) % 2 ^ 32
