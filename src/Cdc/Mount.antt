-- ===== src/Cdc/Mount.antt =====
-- The class on its device: Class/CDC/usbd_cdc.c, its descriptor and its mounting.
use usbdevice.Base.{
  ℕ, ◌+◌, ◌%◌, Bool, true, false, ◌&&◌, Option, none, some, List, [], ◌∷◌, ◌++◌, zero, suc, ltb,
  ◌==◌, if◌then◌else◌, drop, get_or,
}
use usbdevice.Device.{ReturnType, e_ok, e_error, type_interrupt, Platform, Device}
use usbdevice.Bulk.{bulk_desc, bind_ep, bind_bulk, mount_at}
use usbdevice.Cdc.{Cdc, CdcCtx, CdcOptions, CdcApp, on_cdc, on_cdc_dev, has_notep, not_packet_size}

abbrev is_called {ℓ} : {A : Type ℓ} → Option A → Bool
is_called none = false
is_called (some f) = true

module _ (p : Platform) (o : CdcOptions) (app : CdcApp) where
  -- The index of a string of the function, and the numbers of its two interfaces.
  abbrev if_string_index : ℕ → ℕ
  if_string_index if_num = if ltb 2 p.max_if_count then (1 + if_num) % 256 else 1

  abbrev master_if : ℕ → ℕ
  master_if if_num = if ltb 2 p.max_if_count then if_num else 0

  abbrev slave_if : ℕ → ℕ
  slave_if if_num = if ltb 2 p.max_if_count then (if_num + 1) % 256 else 1

  abbrev protocol_code : Cdc → ℕ
  protocol_code i = if i.protocol == 0 then 1 else i.protocol

  -- `cdc_desc`, part by part, with the fields that `cdc_getDesc` sets.
  abbrev assoc_desc : ℕ → Cdc → List ℕ
  assoc_desc n i =
      8 ∷ 0x0B ∷ master_if n ∷ 2 ∷ 0x02 ∷ 0x02 ∷ protocol_code i ∷ if_string_index n ∷ []

  abbrev comm_desc : ℕ → Cdc → List ℕ
  comm_desc n i =
      9
      ∷ 4
      ∷ master_if n
      ∷ 0
      ∷ (if o.notep_used then 1 else 0)
      ∷ 0x02
      ∷ 0x02
      ∷ protocol_code i
      ∷ if_string_index n
      ∷ []

  abbrev acm_caps : ℕ
  acm_caps = if o.break_support && is_called app.send_break then 6 else 2

  abbrev func_descs : ℕ → List ℕ
  func_descs n =
      5
      ∷ 0x24
      ∷ 0x00
      ∷ 0x10
      ∷ 0x01
      ∷ 5
      ∷ 0x24
      ∷ 0x01
      ∷ 0x00
      ∷ slave_if n
      ∷ 4
      ∷ 0x24
      ∷ 0x02
      ∷ acm_caps
      ∷ 5
      ∷ 0x24
      ∷ 0x06
      ∷ master_if n
      ∷ slave_if n
      ∷ []

  abbrev notep_desc : Cdc → List ℕ
  notep_desc i =
      if o.notep_used then 7 ∷ 5 ∷ i.not_ep_num ∷ 3 ∷ not_packet_size ∷ 0 ∷ 20 ∷ [] else []

  abbrev data_desc : ℕ → List ℕ
  data_desc n = 9 ∷ 4 ∷ slave_if n ∷ 0 ∷ 2 ∷ 0x0A ∷ 0x00 ∷ 0x00 ∷ if_string_index n ∷ []

  -- `cdc_getDesc`
  unfoldable pub get_desc : ℕ → CdcCtx → List ℕ
  get_desc n c =
      assoc_desc n c.itf
      ++ (comm_desc n c.itf
          ++ (func_descs n
              ++ (notep_desc c.itf
                  ++ (data_desc n
                      ++ (bulk_desc p c.itf.out_ep_num c.dev
                          ++ bulk_desc p c.itf.in_ep_num c.dev)))))

  -- `USBD_CDC_MountInterface`
  unfoldable pub mount_interface : CdcCtx → ReturnType × CdcCtx
  mount_interface c =
      let i = c.itf in
      let notice = λ (d : Device).
        if has_notep p o app i then bind_ep type_interrupt not_packet_size i.not_ep_num d else d in
      let bind = λ (d : Device). bind_bulk p i.out_ep_num (bind_bulk p i.in_ep_num (notice d)) in
      if ltb (c.dev.if_count + 1) p.max_if_count
      then (
        e_ok,
        on_cdc_dev (λ (d : Device). mount_at i.self (mount_at i.self (bind d)))
            (on_cdc (λ j. record j { transmit_length = 0 }) c),
      )
      else (e_error, c)

-- What a host does with the descriptors of a configuration: it walks them by their lengths.
unfoldable pub walk : ℕ → List ℕ → List (List ℕ)
walk zero l = []
walk (suc n) [] = []
walk (suc n) (b ∷ l) = let rest = walk n (drop b (b ∷ l)) in (b ∷ l) ∷ rest

abbrev pub field : ℕ → List ℕ → ℕ
field k l = get_or l k 0
