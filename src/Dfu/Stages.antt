-- ===== src/Dfu/Stages.antt =====
-- The other callbacks of the class, and the functions that an application calls:
-- Class/DFU/usbd_dfu.c, dfu_init, dfu_deinit, dfu_dataStage and the exported functions.
use usbdevice.Base.{
  ℕ, ◌+◌, ◌%◌, Bool, ◌&&◌, Option, none, some, List, ◌∷◌, ltb, ◌==◌, if◌then◌else◌, take, update,
}
use usbdevice.Device.{ReturnType, e_ok, e_error, type_class, Platform}
use usbdevice.Dfu.{
  State, app_idle, dnload_sync, dnload_busy, manifest, manifest_sync, manifest_wait_reset, error,
  idle, in_dfu_mode, error_none, error_firmware, req_getstatus, App, AppCall, app_init, app_deinit,
  app_manifest, reboot, app_erase, app_write, Dfu, Ctx, u32_mod, mode_tag, mode_tag_inv, on_itf,
}
use usbdevice.Dfu.Requests.{is_some, abort}

-- `dfu_init`
unfoldable pub init : Ctx → Ctx
init c =
    let cleared = on_itf (λ i. record i { i_string = 0; poll_timeout = 0; tag0 = 0; tag1 = 0 }) c in
    let ready =
      on_itf
        (λ i. record i {
          address = i.app.firmware_address;
          log = if i.app.has_init then app_init ∷ i.log else i.log;
        })
        (abort cleared).1 in
    if in_dfu_mode c.itf.state then ready else cleared

-- `dfu_deinit`
unfoldable pub deinit : Ctx → Ctx
deinit c =
    on_itf
      (λ i.
        if in_dfu_mode i.state && i.app.has_deinit
        then record i { log = app_deinit ∷ i.log }
        else i)
      c

-- A call of a function of the application that answers with a status; a NULL is called as if it
-- answered 0, and the log shows the call.
abbrev pub answer : Option (List AppCall → ℕ) → List AppCall → ℕ
answer none log = 0
answer (some f) log = f log

abbrev pub ask : (App → Option (List AppCall → ℕ)) → AppCall → Dfu → Dfu
ask f a i = record i { status = answer (f i.app) (a ∷ i.log); log = a ∷ i.log }

-- The first block of the firmware is preceded by its erasure.
unfoldable pub erase_first : Dfu → Dfu
erase_first i =
    if i.address == i.app.firmware_address then ask (λ a. a.erase) (app_erase i.address) i else i

unfoldable pub write_block : List ℕ → Dfu → Dfu
write_block buf i =
    let w = ask (λ a. a.write) (app_write i.address (take i.block_length buf) i.block_length) i in
    if i.status == error_none
    then record w { address = (i.address + i.block_length) % u32_mod }
    else i

-- The case DFU_STATE_DNLOAD_BUSY of `dfu_dataStage`.
unfoldable pub do_download : List ℕ → Dfu → Dfu
do_download buf i = record (write_block buf (erase_first i)) {
  state = dnload_sync;
  block_length = 0;
  poll_timeout = 0;
}

-- The application verifies the new firmware, if it can.
abbrev pub ask_manifest : Dfu → Dfu
ask_manifest i = if is_some i.app.manifest_fn then ask (λ a. a.manifest_fn) app_manifest i else i

-- The case DFU_STATE_MANIFEST: `shutdown` is USBD_Deinit, which calls `deinit` of this interface too.
unfoldable pub do_manifest : Bool → (Ctx → Ctx) → Ctx → Ctx
do_manifest tolerant shutdown c =
    let done = on_itf ask_manifest c in
    let again =
      on_itf (λ i. record i { state = manifest_sync; block_length = 0; poll_timeout = 0 }) done in
    let off = shutdown (on_itf (λ i. record i { state = manifest_wait_reset }) done) in
    let rebooted =
      on_itf (λ i. record i { log = if i.has_reboot then reboot ∷ i.log else i.log }) off in
    if done.itf.status == error_none then (if tolerant then again else rebooted) else done

-- The switch over the state in `dfu_dataStage`.
unfoldable pub work : Bool → (Ctx → Ctx) → State → Ctx → Ctx
work tolerant shutdown dnload_busy c = on_itf (do_download c.dev.ctrl_data) c
work tolerant shutdown manifest c = do_manifest tolerant shutdown c
work tolerant shutdown _ c = c

-- Any error leads to the error state.
unfoldable pub settle : Dfu → Dfu
settle i = if i.status == error_none then i else record i { state = error }

-- `dfu_dataStage`
unfoldable pub data_stage : Bool → (Ctx → Ctx) → Ctx → Ctx
data_stage tolerant shutdown c =
    let s = c.dev.setup in
    on_itf settle (
      if (s.type == type_class) && (s.request == req_getstatus)
      then work tolerant shutdown c.itf.state c
      else c)

-- `USBD_DFU_IsRequested`
unfoldable pub is_requested : Dfu → Bool
is_requested i = (i.tag0 == mode_tag) && (i.tag1 == mode_tag_inv)

-- `USBD_DFU_BootInit`, on the fields of the class.
unfoldable pub boot_init : Bool → App → Dfu → Dfu
boot_init has_reboot app i =
    let bound = record i { app = app; has_reboot = has_reboot } in
    if is_requested i
    then record bound { state = idle; status = error_none }
    else record bound { state = error; status = error_firmware }

-- `USBD_DFU_AppInit`
unfoldable pub app_init_itf : ℕ → Dfu → Dfu
app_init_itf timeout i = record i {
  detach_timeout = timeout;
  state = app_idle;
  status = error_none;
}

-- `USBD_DFU_MountInterface`
unfoldable pub mount_interface : Platform → Ctx → ReturnType × Ctx
mount_interface p c =
    let d = c.dev in
    if ltb d.if_count p.max_if_count
    then (
      e_ok,
      record c {
        dev = record d {
          ifs = update d.ifs d.if_count c.itf.self;
          if_count = (d.if_count + 1) % 256;
        };
      },
    )
    else (e_error, c)

-- `USBD_DFU_MountRebootOnly`
unfoldable pub mount_reboot_only : Platform → Ctx → ReturnType × Ctx
mount_reboot_only p c =
    let run = record c.itf {
      state = app_idle;
      status = error_none;
      i_string = 0;
      poll_timeout = 0;
    } in
    if ltb c.dev.if_count p.max_if_count
    then mount_interface p (record c { itf = run })
    else (e_error, c)
