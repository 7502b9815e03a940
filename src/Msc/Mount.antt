-- ===== src/Msc/Mount.antt =====
-- The class on its device: Class/MSC/usbd_msc.c, its descriptor, initialisation and mounting.
use usbdevice.Base.{ℕ, zero, suc, ◌+◌, ◌%◌, List, ◌∷◌, ◌++◌, ltb, leb, if◌then◌else◌}
use usbdevice.Device.{ReturnType, e_ok, e_error, type_bulk, Platform, Device}
use usbdevice.Endpoint.{ep_open, ep_close}
use usbdevice.Bulk.{bulk_mps, reset_mps, bulk_desc, bind_bulk, mount_at}
use usbdevice.Msc.{normal, lu_init, lu_deinit, Msc, MscCtx}
use usbdevice.Msc.Blocks.{on_msc, on_msc_dev, receive_cbw}

-- `csw_sign.dw`, the bytes `USBS` read as a word.
abbrev pub csw_sign : ℕ
csw_sign = 0x53425355

-- The loops over the logical units. The counter is a byte, and with MaxLUN below 255 the 256 rounds of
-- fuel are enough; with 255 the loop of the source does not end.
unfoldable pub for_units : (ℕ → Msc → Msc) → ℕ → ℕ → Msc → Msc
for_units body zero lun i = i
for_units body (suc fuel) lun i =
    let rest = for_units body fuel (lun + 1) (body lun i) in if leb lun i.max_lun then rest else i

unfoldable pub init_unit : ℕ → Msc → Msc
init_unit lun i = if (i.lus lun).has_init then record i { log = lu_init lun ∷ i.log } else i

unfoldable pub deinit_unit : ℕ → Msc → Msc
deinit_unit lun i = if (i.lus lun).has_deinit then record i { log = lu_deinit lun ∷ i.log } else i

-- `msc_init`
unfoldable pub init : Platform → MscCtx → MscCtx
init p c =
    let mps = bulk_mps p c.dev in
    let open_eps = λ (d : Device).
      ep_open p c.itf.out_ep_num type_bulk mps (ep_open p c.itf.in_ep_num type_bulk mps d) in
    let ready =
      on_msc (λ i. record i { status = normal; csw = record i.csw { signature = csw_sign } }) c in
    on_msc (for_units init_unit 256 0) (receive_cbw p (on_msc_dev open_eps ready))

-- `msc_deinit`
unfoldable pub deinit : Platform → MscCtx → MscCtx
deinit p c =
    let close_eps = λ (d : Device). ep_close p c.itf.out_ep_num (ep_close p c.itf.in_ep_num d) in
    on_msc (for_units deinit_unit 256 0)
      (on_msc_dev (λ (d : Device). reset_mps p c.itf.in_ep_num c.itf.out_ep_num (close_eps d)) c)

-- `msc_getDesc`; with a single interface the index is 0.
unfoldable pub get_desc : Platform → ℕ → MscCtx → List ℕ
get_desc p if_num c =
    let several = ltb 1 p.max_if_count in
    9
    ∷ 4
    ∷ (if several then if_num else 0)
    ∷ 0
    ∷ 2
    ∷ 0x08
    ∷ 0x06
    ∷ 0x50
    ∷ (if several then (1 + if_num) % 256 else 1)
    ∷ (bulk_desc p c.itf.out_ep_num c.dev ++ bulk_desc p c.itf.in_ep_num c.dev)

-- `USBD_MSC_MountInterface`
unfoldable pub mount_interface : Platform → MscCtx → ReturnType × MscCtx
mount_interface p c =
    let bind = λ (d : Device). bind_bulk p c.itf.out_ep_num (bind_bulk p c.itf.in_ep_num d) in
    if ltb c.dev.if_count p.max_if_count
    then (e_ok, on_msc_dev (λ (d : Device). mount_at c.itf.self (bind d)) c)
    else (e_error, c)
