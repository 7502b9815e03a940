-- ===== src/Tests/Extension.antt =====
-- Runs of the firmware upgrade with the ST extension.
use usbdevice.Base.{◌≡◌, ℕ, List, [], ◌∷◌, refl, arith, inl, inr, true}
use usbdevice.Device.{direction_out, Device}
use usbdevice.Dfu.{idle, error_none, Ctx, app_write}
use usbdevice.Dfu.Stages.{deinit}
use usbdevice.Dfu.Pointer.{
  st_load, st_round, pointer_lem, IsStBlock, IsStatusRequest, pointed_write,
}
use usbdevice.Tests.{platform}
use usbdevice.Tests.Firmware.{request, handle, mounted, app-Writes, get_status_request}

get_status_request-IsStatusRequest : IsStatusRequest get_status_request
get_status_request-IsStatusRequest = record { of_class = refl; asks_status = refl }

-- The command to set the pointer to 1000, in the block 0.
abbrev command : List ℕ
command = 0x21 ∷ 0xE8 ∷ 3 ∷ 0 ∷ 0 ∷ []

abbrev command_block : Ctx
command_block = mounted (request direction_out 1 0 5) (handle idle 1050 0)

command_block-IsStBlock : IsStBlock platform command_block
command_block-IsStBlock = record {
  asks = refl;
  outward = refl;
  in_setup = refl;
  ready = inl refl;
  some_bytes = omega arith;
  one_buffer = omega arith;
  before_end = omega arith;
}

-- The block 2 of two bytes.
abbrev data_device : Device
data_device = (mounted (request direction_out 1 2 2) (handle idle 0 0)).dev

data_block-IsStBlock :
    IsStBlock platform
      (record (st_round platform true deinit get_status_request command command_block) {
        dev = data_device;
      })
data_block-IsStBlock =
    let (address, log, app, state) =
      pointer_lem platform true deinit get_status_request get_status_request-IsStatusRequest command
        command_block app-Writes command_block-IsStBlock refl refl refl refl in
    record {
      asks = refl;
      outward = refl;
      in_setup = refl;
      ready = inr state;
      some_bytes = omega arith;
      one_buffer = omega arith;
      before_end = rw (address, app) (omega arith);
    }

pointed_write_example :
    let pointed = st_round platform true deinit get_status_request command command_block in
    let v =
      (st_load platform true deinit get_status_request
        (7 ∷ 8 ∷ [])
        (record pointed { dev = data_device })).itf in
    (v.log ≡ app_write 1000 (7 ∷ 8 ∷ []) 2 ∷ []) × (v.address ≡ 1000) × (v.status ≡ error_none)
pointed_write_example =
    pointed_write platform true deinit get_status_request get_status_request-IsStatusRequest command
      (7 ∷ 8 ∷ []) command_block data_device app-Writes command_block-IsStBlock refl refl refl refl
      data_block-IsStBlock (omega arith)
