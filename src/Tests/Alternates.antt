-- ===== src/Tests/Alternates.antt =====
-- A firmware upgrade with two alternate settings, and a keyboard with two.
use usbdevice.Base.{ℕ, ◌+◌, ◌≡◌, true, false, none, some, List, [], ◌∷◌, map, refl, arith}
use usbdevice.World.{Class, on_dev}
use usbdevice.Device.{SetupRequest, touch_if}
use usbdevice.Text.{string_desc}
use usbdevice.Descriptor.{get_string, send_written}
use usbdevice.Cdc.Mount.{walk}
use usbdevice.Dfu.Alternates.{
  Alternate, alt_if_desc, any_download, any_upload, get_alts_desc, alt_string, seen, settings_found,
  setting_named,
}
use usbdevice.Hid.{HidApp}
use usbdevice.Hid.Alternates.{
  head_desc, human_found, settings as hid_settings, get_alts_desc as hid_alts_desc,
}
use usbdevice.Tests.Human.{options, config, keys, human}
use usbdevice.Tests.{platform, class, world, get_status_setup}
use usbdevice.Tests.Firmware.{app}

abbrev flash : Alternate
flash = record { app = app; name = some (b'f' ∷ b'l' ∷ []) }

-- A part that can only be read.
abbrev read_only : Alternate
read_only = record { app = record app { erase = none }; name = some (b'o' ∷ b'b' ∷ []) }

abbrev parts : List Alternate
parts = read_only ∷ flash ∷ []

settings_found_example :
    map seen (walk 3 (get_alts_desc platform true 300 parts 1))
    ≡ (4, 1, 0, 2) ∷ (4, 1, 1, 18) ∷ (0x21, 15, 44, 1) ∷ []
unfolding any_download any_upload
settings_found_example = settings_found platform true 300 1 parts (omega arith) (omega arith)

abbrev parts_class : Class ℕ
parts_class = record class { get_string = λ s. some (λ r k v. alt_string parts k) }

-- The string of the setting 1 of the interface 1.
abbrev get_part_name : SetupRequest
get_part_name = record get_status_setup { request = 6; value = 768 + 18; length = 255 }

setting_named_example :
    get_string platform parts_class (world get_part_name 1)
    ≡ send_written platform parts_class
        (string_desc (b'f' ∷ b'l' ∷ []))
        (on_dev (touch_if platform 1) (world get_part_name 1))
unfolding alt_string alt_if_desc
setting_named_example =
    setting_named platform parts_class (world get_part_name 1) (read_only ∷ []) flash [] 1
      (b'f' ∷ b'l' ∷ []) (omega arith) (omega arith) (omega arith) refl refl refl

-- The second setting has a longer report descriptor.
abbrev long_keys : HidApp
long_keys = record keys { report = record config { desc_length = 300 } }

human_found_example :
    map head_desc (
      walk 6
        (hid_alts_desc platform options keys (keys ∷ long_keys ∷ []) 1 (human get_status_setup)))
    ≡ hid_settings platform options keys 1 0 (keys ∷ long_keys ∷ []) (human get_status_setup)
human_found_example =
    human_found platform options keys 1 (human get_status_setup) (omega arith) false
      (keys ∷ long_keys ∷ []) refl (omega arith)
