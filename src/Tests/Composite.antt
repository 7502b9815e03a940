-- ===== src/Tests/Composite.antt =====
-- A device with a firmware upgrade and a mass storage.
use usbdevice.Base.{
  if_holds, ◌≡◌, ℕ, ◌==◌, if◌then◌else◌, List, Option, none, true, refl, arith, inr, ◌≢◌, ◌⊎◌,
  false, ◌%◌,
}
use usbdevice.Device.{
  direction_in, direction_out, SetupRequest, e_ok, recipient_interface, touch_if, set_ep_state,
  out_ep, state_setup, state_stall,
}
use usbdevice.World.{Interface, World, if_class_setup_stage, if_class_in_data, on_dev}
use usbdevice.Bus.{received, setup_packet, Reach, here, later}
use usbdevice.Bus.Kept.{IsSound}
use usbdevice.Bus.Sound.{reach-IsSound}
use usbdevice.Bus.Bodies.{AllBodies}
use usbdevice.Bus.Prompt.{has_data}
use usbdevice.Bus.Answer.{answered, setup_answered}
use usbdevice.Callback.{setup_callback}
use usbdevice.Dfu.{idle}
use usbdevice.Composite.{Handle, dfu_handle, msc_handle, Fills, classes, class_in_data}
use usbdevice.Composite.Modest.{classes-IsModest}
use usbdevice.Composite.Region.{HandleInRegion, reach-InRegion}
use usbdevice.Msc.{command_out}
use usbdevice.Tests.{platform, device, get_status_setup, endpoint}
use usbdevice.Tests.Firmware.{request, handle, handle-InRegion}
use usbdevice.Endpoint.{ep_addr2ref}
use usbdevice.Msc.Blocks.{in_data}
use usbdevice.Request.{ep_request}
use usbdevice.Request.Safety.{IsSafeAt, ep_request_stays}
use usbdevice.Tests.Storage.{read_command, storage}

abbrev no_names : Handle → Option (List ℕ)
no_names h = none

abbrev both : ℕ → Interface Handle
both r = record {
  alt_selector = 0;
  alt_count = 1;
  body =
      if r == 0
      then dfu_handle (handle idle 1000 0)
      else msc_handle (storage (read_command 0 1) command_out 0).itf;
}

abbrev composite : World Handle
composite = record { dev = device get_status_setup 0; itf = both }

-- SET_CONFIGURATION 1.
abbrev configure : SetupRequest
configure = record {
  recipient = 0;
  type = 0;
  direction = direction_out;
  request = 9;
  value = 1;
  index = 0;
  length = 0;
}

-- The host configures the device, sends a block of firmware, and asks for the status.
abbrev after_configure : World Handle
after_configure =
    setup_callback platform (classes platform true no_names) (received configure composite)

abbrev after_download : World Handle
after_download =
    setup_callback platform (classes platform true no_names)
      (received (request direction_out 1 0 2) after_configure)

abbrev after_status : World Handle
after_status =
    setup_callback platform (classes platform true no_names)
      (received (request direction_in 3 0 6) after_download)

upgrade : Reach platform (classes platform true no_names) Fills composite after_status
upgrade =
    later (later (later here (setup_packet configure)) (setup_packet (request direction_out 1 0 2)))
      (setup_packet (request direction_in 3 0 6))

composite-IsSound : IsSound 2 (λ i. i) composite
composite-IsSound = record {
  count = refl;
  ifs = refl;
  config = omega arith;
  selected = λ j lt. omega arith;
  settled = λ e j lt. refl;
}

composite-InRegion : AllBodies (HandleInRegion platform) composite
composite-InRegion = λ q. if_holds (HandleInRegion platform) (q == 0) handle-InRegion tt

reach-IsSound_example : IsSound 2 (λ i. i) after_status
reach-IsSound_example =
    reach-IsSound platform (classes platform true no_names)
      (classes-IsModest platform true no_names) 2 (λ i. i) (omega arith) Fills composite-IsSound
      upgrade

reach-InRegion_example : AllBodies (HandleInRegion platform) after_status
reach-InRegion_example = reach-InRegion platform true no_names composite-InRegion upgrade

-- The request for the status, once more, by which the upgrade answers.
abbrev ask_status : World Handle
ask_status = received (request direction_in 3 0 6) after_download

setup_answered_example :
    let c = classes platform true no_names in
    let i = ask_status.dev.setup.index % 256 in
    let v = on_dev (λ d. touch_if platform i (set_ep_state (out_ep 0) state_setup d)) ask_status in
    let x = if_class_setup_stage c (ask_status.dev.ifs i) v in
    (answered (setup_callback platform c ask_status).dev ≡ true)
    ⊎ ((ask_status.dev.setup.recipient ≡ recipient_interface)
        × (x.0 ≡ e_ok)
        × (ask_status.dev.setup.length ≢ 0)
        × (has_data x.1.dev ≡ false))
setup_answered_example =
    setup_answered platform (classes platform true no_names)
      (classes-IsModest platform true no_names) ask_status (inr refl)

-- The host clears the halt of the IN endpoint of the storage.
abbrev clear_halt : SetupRequest
clear_halt = record configure { recipient = 2; request = 1; value = 0; index = 0x81 }

abbrev halted : World Handle
halted = record composite {
  dev = record (device clear_halt 1) {
    ep_in = λ n. record (endpoint n) { state = state_stall; if_num = 1 };
  };
}

halted-IsSafeAt : IsSafeAt Handle (classes platform true no_names) 0x81 halted
unfolding if_class_in_data class_in_data in_data ep_addr2ref
halted-IsSafeAt = record {
  in_safe = λ e. record { stays = λ v h. rw h refl };
  out_safe = λ e. absurd (omega (arith, e));
}

ep_request_stays_example :
    (ep_request platform (classes platform true no_names) halted).1.dev.out_of_range ≡ false
ep_request_stays_example =
    ep_request_stays platform (classes platform true no_names) halted halted-IsSafeAt
      (λ n. omega arith) (λ n. omega arith) (omega arith) refl
