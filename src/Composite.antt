-- ===== src/Composite.antt =====
-- A composite device: the upgrade interface of Class/DFU/usbd_dfu.c, its runtime part, and the mass
-- storage of Class/MSC/usbd_msc.c, behind one device. The stack calls each interface by its class, the
-- tables `dfu_cbks`, `rodfu_cbks` and `msc_cbks`.
pub mod Endpoints
pub mod Storage
pub mod Modest
pub mod Upgrade
pub mod Region
use usbdevice.Base.{
  ℕ, Bool, true, false, not, ◌&&◌, Option, none, some, List, ◌∷◌, ◌==◌, if◌then◌else◌,
}
use usbdevice.Device.{ReturnType, SetupRequest, type_class, Platform, EpRef}
use usbdevice.World.{World, Class}
use usbdevice.Callback.{deinit}
use usbdevice.Bus.{set_body}
use usbdevice.Dfu.{
  State, manifest, manifest_wait_reset, error_none, req_getstatus, reboot, Dfu, Ctx,
}
use usbdevice.Dfu.Setup.{get_desc, ro_get_desc, setup_stage, ro_setup_stage}
use usbdevice.Dfu.Stages
use usbdevice.Dfu.Stages.{ask_manifest, settle, data_stage}
use usbdevice.Msc.{CommandBlock, Msc, MscCtx}
use usbdevice.Msc.Mount
use usbdevice.Msc.Blocks
use usbdevice.Msc.Transport

-- What a handle of `IF` points to.
pub data Handle : Type 0 where
  dfu_handle rodfu_handle : Dfu → Handle
  msc_handle : Msc → Handle

-- A function of a class on the handle at `r`: the new handle and the new device.
abbrev pub store_dfu : (Dfu → Handle) → ℕ → World Handle → Ctx → World Handle
store_dfu tag r w c = set_body r (tag c.itf) (record w { dev = c.dev })

abbrev pub store_msc : ℕ → World Handle → MscCtx → World Handle
store_msc r w c = set_body r (msc_handle c.itf) (record w { dev = c.dev })

abbrev pub dfu_at : Dfu → World Handle → Ctx
dfu_at i w = record { itf = i; dev = w.dev }

abbrev pub msc_at : Msc → World Handle → MscCtx
msc_at i w = record { itf = i; dev = w.dev }

-- A change of the upgrade handle at `r`.
abbrev pub on_dfu : (Dfu → Dfu) → Handle → Handle
on_dfu f (dfu_handle i) = dfu_handle (f i)
on_dfu f h = h

abbrev pub at_dfu : (Dfu → Dfu) → ℕ → World Handle → World Handle
at_dfu f r w = set_body r (on_dfu f (w.itf r).body) w

abbrev pub is_manifest : State → Bool
is_manifest manifest = true
is_manifest _ = false

-- The reboot function is called if there is one.
abbrev pub log_reboot : Dfu → Dfu
log_reboot i = record i { log = if i.has_reboot then reboot ∷ i.log else i.log }

-- `names` gives the strings of the application: the name of the firmware, and of the product of the
-- first logical unit.
module _ (p : Platform) (tolerant : Bool) (names : Handle → Option (List ℕ)) where
  -- The members `GetDescriptor` and `SetupStage`.
  unfoldable pub get_descriptor : Handle → ℕ → World Handle → List ℕ
  get_descriptor (dfu_handle i) n w = get_desc p tolerant n i
  get_descriptor (rodfu_handle i) n w = ro_get_desc p tolerant n i
  get_descriptor (msc_handle i) n w = Mount.get_desc p n (msc_at i w)

  abbrev answer_dfu :
      (Dfu → Handle) → ℕ → World Handle → ReturnType × Ctx → ReturnType × World Handle
  answer_dfu tag r w (x, c) = (x, store_dfu tag r w c)

  abbrev answer_msc : ℕ → World Handle → ReturnType × MscCtx → ReturnType × World Handle
  answer_msc r w (x, c) = (x, store_msc r w c)

  unfoldable pub class_setup_stage : Handle → ℕ → World Handle → ReturnType × World Handle
  class_setup_stage (dfu_handle i) r w =
      answer_dfu dfu_handle r w (setup_stage p tolerant (dfu_at i w))
  class_setup_stage (rodfu_handle i) r w =
      answer_dfu rodfu_handle r w (ro_setup_stage p tolerant (dfu_at i w))
  class_setup_stage (msc_handle i) r w = answer_msc r w (Transport.setup_stage p (msc_at i w))

  -- The members `Init` and `Deinit`: the runtime part has none.
  unfoldable pub class_init : Handle → Option (ℕ → World Handle → World Handle)
  class_init (dfu_handle i) = some (λ r w. store_dfu dfu_handle r w (Stages.init (dfu_at i w)))
  class_init (rodfu_handle i) = none
  class_init (msc_handle i) = some (λ r w. store_msc r w (Mount.init p (msc_at i w)))

  unfoldable pub class_deinit : Handle → Option (ℕ → World Handle → World Handle)
  class_deinit (dfu_handle i) = some (λ r w. store_dfu dfu_handle r w (Stages.deinit (dfu_at i w)))
  class_deinit (rodfu_handle i) = none
  class_deinit (msc_handle i) = some (λ r w. store_msc r w (Mount.deinit p (msc_at i w)))

  -- The members `OutData` and `InData`: only the storage has endpoints.
  unfoldable pub class_out_data : Handle → Option (ℕ → EpRef → World Handle → World Handle)
  class_out_data (msc_handle i) =
      some (λ r e w. store_msc r w (Transport.out_data p e (msc_at i w)))
  class_out_data _ = none

  unfoldable pub class_in_data : Handle → Option (ℕ → EpRef → World Handle → World Handle)
  class_in_data (msc_handle i) = some (λ r e w. store_msc r w (Blocks.in_data p (msc_at i w)))
  class_in_data _ = none

  -- The classes without the member `DataStage`, which `USBD_Deinit` does not call.
  abbrev pub stoppable : Class Handle
  stoppable = record {
    get_descriptor = λ b. some (λ r n w. get_descriptor b n w);
    get_string = λ b. some (λ r n w. names b);
    init = class_init;
    deinit = class_deinit;
    setup_stage = λ b. some (class_setup_stage b);
    data_stage = λ b. none;
    out_data = class_out_data;
    in_data = class_in_data;
  }

  -- The case DFU_STATE_MANIFEST of `dfu_dataStage`, when the new firmware is accepted and the device
  -- does not stay: `USBD_Deinit` stops all interfaces, and the system is rebooted.
  unfoldable pub leave : ℕ → Dfu → World Handle → World Handle
  leave r i w =
      let waiting = record (ask_manifest i) { state = manifest_wait_reset } in
      let off = deinit p stoppable (set_body r (dfu_handle waiting) w) in
      at_dfu settle r (at_dfu log_reboot r off)

  abbrev pub leaves : Dfu → SetupRequest → Bool
  leaves i s =
      (s.type == type_class)
      && (s.request == req_getstatus)
      && is_manifest i.state
      && ((ask_manifest i).status == error_none)
      && not tolerant

  -- The member `DataStage`, `dfu_dataStage`.
  unfoldable pub class_data_stage : Handle → Option (ℕ → World Handle → World Handle)
  class_data_stage (dfu_handle i) = some (λ r w.
      if leaves i w.dev.setup
      then leave r i w
      else store_dfu dfu_handle r w (data_stage tolerant (λ c. c) (dfu_at i w)))
  class_data_stage _ = none

  -- The classes of the device.
  abbrev pub classes : Class Handle
  classes = record stoppable { data_stage = class_data_stage }

-- The driver receives command wrappers and blocks into the handle of the storage.
pub data Fills : Handle → Handle → Type 0 where
  fills_storage :
      (i : Msc) (b : CommandBlock) (bytes : List ℕ)
      → Fills (msc_handle i) (msc_handle (record i { cbw = b; buffer = bytes }))
