-- ===== src/Mounts.antt =====
-- The classes on one device: the mount functions of Class/MSC/usbd_msc.c, Class/CDC/usbd_cdc.c,
-- Class/CDC/usbd_ncm.c, Class/HID/usbd_hid.c and Class/DFU/usbd_dfu.c, called one after the other.
use usbdevice.Base.{
  ℕ, ◌+◌, ◌≤◌, ◌<◌, ◌≡◌, refl, arith, Bool, true, false, ltb, if◌then◌else◌, List, [], ◌∷◌, ltb→lt,
  ◌∙◌,
}
use usbdevice.Device.{ReturnType, EndPointType, type_bulk, type_interrupt, Platform, Device}
use usbdevice.Endpoint.{ep_addr2ref}
use usbdevice.Bulk.{data_packet_size, bind_ep, bind_bulk, mount_at}
use usbdevice.Msc.{Msc, MscCtx}
use usbdevice.Msc.Mount as Storage
use usbdevice.Cdc.{Cdc, CdcCtx, CdcOptions, CdcApp, has_notep, not_packet_size}
use usbdevice.Cdc.Mount as Serial
use usbdevice.Hid.{Hid, HidCtx, HidOptions, HidApp, has_out, limit_to}
use usbdevice.Hid.Mount as Human
use usbdevice.Dfu.{Dfu, Ctx}
use usbdevice.Dfu.Stages as Firmware
use usbdevice.Ncm.{Ncm, NcmCtx, NcmOptions, NcmApp}
use usbdevice.Ncm.Stages as Network

-- An interface handle that is to be mounted.
pub data Part : Type 0 where
  storage_part : Msc → Part
  serial_part : CdcOptions → CdcApp → Cdc → Part
  human_part : HidOptions → HidApp → (ℕ → ℕ) → Hid → Part
  network_part : NcmOptions → NcmApp → Ncm → Part
  firmware_part reboot_part : Dfu → Part

-- The places of `IF` are in range, and every endpoint belongs to one of them.
pub record IsMounted (p : Platform) (d : Device) : Type 0 where
  pub count_le : d.if_count ≤ p.max_if_count
  pub in_lt : (n : ℕ) → (d.ep_in n).if_num < p.max_if_count
  pub out_lt : (n : ℕ) → (d.ep_out n).if_num < p.max_if_count

-- What holds in both branches of a test.
branches :
    {A : Type 0} (P : A → Type 0) (b : Bool) (x y : A)
    → (b ≡ true → P x)
    → P y
    → P (if b then x else y)
branches P true x y f g = f refl
branches P false x y f g = g

module _ (p : Platform) where
  unfoldable pub mount_part : Part → Device → Device
  mount_part (storage_part i) d = (Storage.mount_interface p (record { itf = i; dev = d })).1.dev
  mount_part (serial_part o app i) d =
      (Serial.mount_interface p o app (record { itf = i; dev = d })).1.dev
  mount_part (human_part o app ram i) d =
      (Human.mount_interface p o app (record { itf = i; dev = d; ram = ram })).1.dev
  mount_part (network_part o app i) d =
      (Network.mount_interface p o app (record { itf = i; dev = d })).1.dev
  mount_part (firmware_part i) d = (Firmware.mount_interface p (record { itf = i; dev = d })).1.dev
  mount_part (reboot_part i) d = (Firmware.mount_reboot_only p (record { itf = i; dev = d })).1.dev

  unfoldable pub mount_all : List Part → Device → Device
  mount_all [] d = d
  mount_all (x ∷ xs) d = mount_all xs (mount_part x d)

  bind-IsMounted :
      (t : EndPointType) (mps a : ℕ) (d : Device)
      → d.if_count < p.max_if_count
      → IsMounted p d
      → IsMounted p (bind_ep t mps a d) × ((bind_ep t mps a d).if_count ≡ d.if_count)
  unfolding ep_addr2ref
  bind-IsMounted t mps a d h m = (
    record {
      count_le = ground arith;
      in_lt = λ n. ground (arith, m.in_lt n);
      out_lt = λ n. ground (arith, m.out_lt n);
    },
    ground arith,
  )

  place-IsMounted :
      (r : ℕ) (d : Device)
      → d.if_count < p.max_if_count
      → p.max_if_count < 256
      → IsMounted p d
      → IsMounted p (mount_at r d) × ((mount_at r d).if_count ≡ d.if_count + 1)
  place-IsMounted r d h b m =
      (record { count_le = omega arith; in_lt = m.in_lt; out_lt = m.out_lt }, omega arith)

  -- Endpoints that are bound one after the other, to the place that is next.
  data_bound :
      (i o : ℕ) (d : Device)
      → d.if_count < p.max_if_count
      → IsMounted p d
      → let v = bind_bulk p o (bind_bulk p i d) in IsMounted p v × (v.if_count ≡ d.if_count)
  data_bound i o d h m =
      let (m1, c1) = bind-IsMounted type_bulk (data_packet_size p) i d h m in
      let (m2, c2) =
        bind-IsMounted type_bulk (data_packet_size p) o (bind_bulk p i d) (omega (arith, c1, h))
          m1 in
      (m2, c2 ∙ c1)

  optional_bound :
      (b : Bool) (t : EndPointType) (mps a : ℕ) (d : Device)
      → d.if_count < p.max_if_count
      → IsMounted p d
      → let v = if b then bind_ep t mps a d else d in IsMounted p v × (v.if_count ≡ d.if_count)
  optional_bound true t mps a d h m = bind-IsMounted t mps a d h m
  optional_bound false t mps a d h m = (m, refl)

  module _ (small : p.max_if_count < 256) where
    place_bound :
        (r n : ℕ) (d : Device)
        → n < p.max_if_count
        → IsMounted p d × (d.if_count ≡ n)
        → IsMounted p (mount_at r d) × ((mount_at r d).if_count ≡ n + 1)
    place_bound r n d h (m, e) =
        let (k, f) = place-IsMounted r d (omega (arith, h, e)) small m in (k, omega (arith, f, e))

    storage-IsMounted :
        (i : Msc) (d : Device) → IsMounted p d → IsMounted p (mount_part (storage_part i) d)
    unfolding mount_part Storage.mount_interface
    storage-IsMounted i d m =
        branches (λ (v : ReturnType × MscCtx). IsMounted p v.1.dev) (ltb d.if_count p.max_if_count)
          _ _
          (λ h.
            (place_bound i.self d.if_count _ (ltb→lt _ _ h)
              (data_bound i.in_ep_num i.out_ep_num d (ltb→lt _ _ h) m)).0)
          m

    firmware-IsMounted :
        (i : Dfu) (d : Device) → IsMounted p d → IsMounted p (mount_part (firmware_part i) d)
    unfolding mount_part Firmware.mount_interface
    firmware-IsMounted i d m =
        branches (λ (v : ReturnType × Ctx). IsMounted p v.1.dev) (ltb d.if_count p.max_if_count) _ _
          (λ h. (place_bound i.self d.if_count d (ltb→lt _ _ h) (m, refl)).0) m

    reboot-IsMounted :
        (i : Dfu) (d : Device) → IsMounted p d → IsMounted p (mount_part (reboot_part i) d)
    unfolding mount_part Firmware.mount_reboot_only
    reboot-IsMounted i d m =
        branches (λ (v : ReturnType × Ctx). IsMounted p v.1.dev) (ltb d.if_count p.max_if_count) _ _
          (λ h. firmware-IsMounted _ d m) m

    network-IsMounted :
        (o : NcmOptions) (app : NcmApp) (i : Ncm) (d : Device)
        → IsMounted p d
        → IsMounted p (mount_part (network_part o app i) d)
    unfolding mount_part Network.mount_interface
    network-IsMounted o app i d m =
        branches (λ (v : ReturnType × NcmCtx). IsMounted p v.1.dev)
          (ltb (d.if_count + 1) p.max_if_count) _ _
          (λ h.
            let below = ltb→lt _ _ h in
            let (m1, c1) =
              bind-IsMounted type_interrupt Network.not_packet_size i.not_ep_num d
                (omega (arith, below)) m in
            let (m2, c2) = data_bound i.in_ep_num i.out_ep_num _ (omega (arith, c1, below)) m1 in
            (place_bound i.self (d.if_count + 1) _ below
              (place_bound i.self d.if_count _ (omega (arith, below)) (m2, c2 ∙ c1))).0)
          m

    human-IsMounted :
        (o : HidOptions) (app : HidApp) (ram : ℕ → ℕ) (i : Hid) (d : Device)
        → IsMounted p d
        → IsMounted p (mount_part (human_part o app ram i) d)
    unfolding mount_part Human.mount_interface
    human-IsMounted o app ram i d m =
        let size = λ (n : ℕ). limit_to (if p.hs_support then 1024 else 64) n in
        let in_bound =
          λ (x : Device). bind_ep type_interrupt (size app.report.input_max_size) i.in_ep_num x in
        branches (λ (v : ReturnType × HidCtx). IsMounted p v.1.dev) (ltb d.if_count p.max_if_count)
          _ _
          (λ h.
            let below = ltb→lt _ _ h in
            let (m1, c1) =
              bind-IsMounted type_interrupt (size app.report.input_max_size) i.in_ep_num d below
                m in
            let (m2, c2) =
              optional_bound (has_out p o app i) type_interrupt (size app.report.output_max_size)
                i.out_ep_num (in_bound d) (omega (arith, c1, below)) m1 in
            (place_bound i.self d.if_count _ below (m2, c2 ∙ c1)).0)
          m

    serial-IsMounted :
        (o : CdcOptions) (app : CdcApp) (i : Cdc) (d : Device)
        → IsMounted p d
        → IsMounted p (mount_part (serial_part o app i) d)
    unfolding mount_part Serial.mount_interface
    serial-IsMounted o app i d m =
        branches (λ (v : ReturnType × CdcCtx). IsMounted p v.1.dev)
          (ltb (d.if_count + 1) p.max_if_count) _ _
          (λ h.
            let below = ltb→lt _ _ h in
            let (m1, c1) =
              optional_bound (has_notep p o app i) type_interrupt not_packet_size i.not_ep_num d
                (omega (arith, below)) m in
            let (m2, c2) = data_bound i.in_ep_num i.out_ep_num _ (omega (arith, c1, below)) m1 in
            (place_bound i.self (d.if_count + 1) _ below
              (place_bound i.self d.if_count _ (omega (arith, below)) (m2, c2 ∙ c1))).0)
          m

    -- Interfaces of the five classes, of the upgrade also in its runtime form that only reboots, are mounted
    -- in any order and number, whether they find a place or not: the number of places stays within
    -- the array, and every endpoint belongs to one of its places. (For an array of fewer than 256 places,
    -- and a device whose places and endpoints are so at the start.)
    pub mount_all-IsMounted :
        (xs : List Part) (d : Device) → IsMounted p d → IsMounted p (mount_all xs d)
    unfolding mount_all
    mount_all-IsMounted [] d m = m
    mount_all-IsMounted (storage_part i ∷ xs) d m =
        mount_all-IsMounted xs _ (storage-IsMounted i d m)
    mount_all-IsMounted (serial_part o app i ∷ xs) d m =
        mount_all-IsMounted xs _ (serial-IsMounted o app i d m)
    mount_all-IsMounted (human_part o app ram i ∷ xs) d m =
        mount_all-IsMounted xs _ (human-IsMounted o app ram i d m)
    mount_all-IsMounted (network_part o app i ∷ xs) d m =
        mount_all-IsMounted xs _ (network-IsMounted o app i d m)
    mount_all-IsMounted (reboot_part i ∷ xs) d m = mount_all-IsMounted xs _ (reboot-IsMounted i d m)
    mount_all-IsMounted (firmware_part i ∷ xs) d m =
        mount_all-IsMounted xs _ (firmware-IsMounted i d m)
