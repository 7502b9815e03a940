-- ===== src/Hid/Alternates.antt =====
-- The build of Class/HID/usbd_hid.c with USBD_HID_ALTSETTINGS: an application for each alternate setting.
use usbdevice.Base.{
  ℕ, ◌+◌, ◌*◌, ◌%◌, ◌<◌, ◌≤◌, ◌≡◌, suc, zero, arith, refl, Bool, true, false, Option, none, some,
  List, [], ◌∷◌, ◌++◌, length, map, take, drop, ltb, if◌then◌else◌,
}
use usbdevice.Device.{Platform}
use usbdevice.Descriptor.{le16, ep_desc}
use usbdevice.Cdc.Mount.{walk, field}
use usbdevice.Hid.{HidCtx, HidOptions, HidApp, hid_class_desc, has_out}
use usbdevice.Hid.Mount.{get_desc, interrupt_desc}

-- `desc->HID.bAlternateSetting`, `desc->HID.iInterface` and `desc->HIDCD.sHIDD[0].wItemLength` are set.
abbrev set_fields : ℕ → ℕ → ℕ → List ℕ → List ℕ
set_fields n index len d =
    take 3 d
    ++ (n % 256 ∷ (take 4 (drop 4 d) ++ (index ∷ (take 7 (drop 9 d) ++ (le16 len ++ drop 18 d)))))

module _ (p : Platform) (o : HidOptions) (app : HidApp) where
  -- The loop of `hid_getAltsDesc`; `app` is the application that is selected.
  unfoldable pub alts_loop : ℕ → ℕ → List HidApp → HidCtx → List ℕ
  alts_loop if_num n [] c = []
  alts_loop if_num n (a ∷ as') c =
      let rest = alts_loop if_num (n + 1) as' c in
      set_fields n ((1 + if_num + 16 * n) % 256) a.report.desc_length (get_desc p o app if_num c)
      ++ rest

  -- `hid_getAltsDesc`
  unfoldable pub get_alts_desc : List HidApp → ℕ → HidCtx → List ℕ
  get_alts_desc apps if_num c = alts_loop if_num 0 apps c

  -- `hid_getString` of the string `k`: `n` counts down from `k` along the applications.
  unfoldable pub alt_string : List HidApp → ℕ → ℕ → Option (List ℕ)
  alt_string [] n k =
      if o.report_strings then (elim app.app_string [ none ↦ none | some f ↦ f k ]) else none
  alt_string (a ∷ as') zero k = some a.name
  alt_string (a ∷ as') (suc n) k = alt_string as' n k

  -- The descriptors of the setting `n`, as a host is to find them.
  abbrev pub setting : ℕ → ℕ → HidApp → HidCtx → List (List ℕ)
  setting if_num n a c =
      let two = has_out p o app c.itf in
      (9
        ∷ 4
        ∷ (if ltb 1 p.max_if_count then if_num else 0)
        ∷ n
        ∷ (if two then 2 else 1)
        ∷ 3
        ∷ 0
        ∷ 0
        ∷ (1 + if_num + 16 * n)
        ∷ [])
      ∷ hid_class_desc a.report.desc_length
      ∷ interrupt_desc p o app c.itf.in_ep_num app.report.input_interval_ms c.dev
      ∷ (if two
          then interrupt_desc p o app c.itf.out_ep_num app.report.output_interval_ms c.dev ∷ []
          else [])

  abbrev pub settings : ℕ → ℕ → List HidApp → HidCtx → List (List ℕ)
  settings if_num n [] c = []
  settings if_num n (a ∷ as') c = setting if_num n a c ++ settings if_num (n + 1) as' c

-- The descriptor at the head.
abbrev pub head_desc : List ℕ → List ℕ
head_desc l = take (field 0 l) l

-- How many descriptors a setting has.
abbrev pub desc_count : Bool → ℕ
desc_count true = 4
desc_count false = 3

module _ (p : Platform) (o : HidOptions) (app : HidApp) (if_num : ℕ) (c : HidCtx)
    (h : if_num < 15) where
  with_out :
      (n : ℕ) (apps : List HidApp)
      → has_out p o app c.itf ≡ true
      → n + length apps ≤ 16
      → map head_desc (walk (4 * length apps) (alts_loop p o app if_num n apps c))
        ≡ settings p o app if_num n apps c
  unfolding alts_loop get_desc ep_desc walk
  with_out n [] two k = refl
  with_out n (a ∷ apps) two k =
      let rest = with_out (n + 1) apps two (omega arith) in
      let small : n % 256 ≡ n = omega arith in
      let index : (1 + if_num + 16 * n) % 256 ≡ 1 + if_num + 16 * n = omega arith in
      let one_more : 4 * length (a ∷ apps) ≡ suc (suc (suc (suc (4 * length apps)))) =
        omega arith in
      rw (one_more, two, rest, small, index) refl

  without_out :
      (n : ℕ) (apps : List HidApp)
      → has_out p o app c.itf ≡ false
      → n + length apps ≤ 16
      → map head_desc (walk (3 * length apps) (alts_loop p o app if_num n apps c))
        ≡ settings p o app if_num n apps c
  unfolding alts_loop get_desc ep_desc walk
  without_out n [] two k = refl
  without_out n (a ∷ apps) two k =
      let rest = without_out (n + 1) apps two (omega arith) in
      let small : n % 256 ≡ n = omega arith in
      let index : (1 + if_num + 16 * n) % 256 ≡ 1 + if_num + 16 * n = omega arith in
      let one_more : 3 * length (a ∷ apps) ≡ suc (suc (suc (3 * length apps))) = omega arith in
      rw (one_more, two, rest, small, index) refl

  -- A host that walks the descriptors of the interface by their lengths finds for every setting, in their
  -- order and numbered from 0 on, its interface descriptor with an index of a string of its own, the
  -- descriptor of the class with the length of the setting's report descriptor, and those of the
  -- endpoints, with the intervals of the application that is selected. (For one of the first 15 interfaces,
  -- with at most 16 settings.)
  pub human_found :
      (two : Bool) (apps : List HidApp)
      → has_out p o app c.itf ≡ two
      → length apps ≤ 16
      → map head_desc (walk (desc_count two * length apps) (get_alts_desc p o app apps if_num c))
        ≡ settings p o app if_num 0 apps c
  unfolding get_alts_desc
  human_found true apps e k = with_out 0 apps e (omega arith)
  human_found false apps e k = without_out 0 apps e (omega arith)
