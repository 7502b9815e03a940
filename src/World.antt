-- ===== src/World.antt =====
-- The interfaces that are mounted on a device, and the functions of their classes: the handles
-- USBD_IfHandleType and USBD_ClassType of Include/usbd_types.h, and the USBD_IfClass_... functions of
-- Include/private/usbd_private.h.
use usbdevice.Base.{ℕ, Option, none, some, List, update}
use usbdevice.Device.{ReturnType, e_invalid, Device, EpRef}

-- `USBD_IfHandleType` with the fields that a class adds to it, of the type `S`.
pub record Interface (S : Type 0) : Type 0 where
  pub alt_selector : ℕ
  pub alt_count : ℕ
  pub body : S

-- The device and the store of interface handles. `dev.ifs` refers into the store, so that one handle
-- may stand at several places of `IF`.
pub record World (S : Type 0) : Type 0 where
  pub dev : Device
  pub itf : ℕ → Interface S

-- `USBD_ClassType`: what the members of the class of a handle point to, `none` for NULL. A function
-- takes the reference of the handle. The class of a handle shows in its body.
pub record Class (S : Type 0) : Type 0 where
  pub get_descriptor : S → Option (ℕ → ℕ → World S → List ℕ)
  pub get_string : S → Option (ℕ → ℕ → World S → Option (List ℕ))
  pub init : S → Option (ℕ → World S → World S)
  pub deinit : S → Option (ℕ → World S → World S)
  pub setup_stage : S → Option (ℕ → World S → ReturnType × World S)
  pub data_stage : S → Option (ℕ → World S → World S)
  pub out_data : S → Option (ℕ → EpRef → World S → World S)
  pub in_data : S → Option (ℕ → EpRef → World S → World S)

abbrev pub on_dev : {S : Type 0} → (Device → Device) → World S → World S
on_dev f w = record w { dev = f w.dev }

abbrev pub on_dev_result :
    {S : Type 0} → (Device → ReturnType × Device) → World S → ReturnType × World S
on_dev_result f w = let (r, d) = f w.dev in (r, record w { dev = d })

abbrev pub set_alt_selector : {S : Type 0} → ℕ → ℕ → World S → World S
set_alt_selector r n w = record w { itf = update w.itf r (record (w.itf r) { alt_selector = n }) }

module _ {S : Type 0} (c : Class S) where
  -- `USBD_SAFE_CALLBACK` of the members that take the handle alone, or the handle and an endpoint.
  abbrev pub safe_callback : Option (ℕ → World S → World S) → ℕ → World S → World S
  safe_callback none r w = w
  safe_callback (some f) r w = f r w

  abbrev pub safe_ep_callback :
      Option (ℕ → EpRef → World S → World S) → ℕ → EpRef → World S → World S
  safe_ep_callback none r e w = w
  safe_ep_callback (some f) r e w = f r e w

  unfoldable pub if_class_init : ℕ → World S → World S
  if_class_init r w = safe_callback (c.init (w.itf r).body) r w

  unfoldable pub if_class_deinit : ℕ → World S → World S
  if_class_deinit r w = safe_callback (c.deinit (w.itf r).body) r w

  unfoldable pub if_class_data_stage : ℕ → World S → World S
  if_class_data_stage r w = safe_callback (c.data_stage (w.itf r).body) r w

  unfoldable pub if_class_in_data : ℕ → EpRef → World S → World S
  if_class_in_data r e w = safe_ep_callback (c.in_data (w.itf r).body) r e w

  unfoldable pub if_class_out_data : ℕ → EpRef → World S → World S
  if_class_out_data r e w = safe_ep_callback (c.out_data (w.itf r).body) r e w

  abbrev pub safe_setup_callback :
      Option (ℕ → World S → ReturnType × World S) → ℕ → World S → ReturnType × World S
  safe_setup_callback none r w = (e_invalid, w)
  safe_setup_callback (some f) r w = f r w

  unfoldable pub if_class_setup_stage : ℕ → World S → ReturnType × World S
  if_class_setup_stage r w = safe_setup_callback (c.setup_stage (w.itf r).body) r w
