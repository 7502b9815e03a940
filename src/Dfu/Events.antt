-- ===== src/Dfu/Events.antt =====
-- The callbacks of the class as events of a mounted interface, in any order.
use usbdevice.Base.{Bool, List, [], ◌∷◌}
use usbdevice.Device.{Platform, Device}
use usbdevice.Dfu.{Ctx}
use usbdevice.Dfu.Setup.{setup_stage}
use usbdevice.Dfu.Stages.{init, deinit, data_stage}

pub data Event : Type 0 where
  setup_event data_event init_event deinit_event : Event

module _ (p : Platform) (tolerant : Bool) (shutdown : Ctx → Ctx) where
  unfoldable pub step : Event → Ctx → Ctx
  step setup_event c = (setup_stage p tolerant c).1
  step data_event c = data_stage tolerant shutdown c
  step init_event c = init c
  step deinit_event c = deinit c

  -- Before each event the device is changed at will: by the host, which sends the requests and the
  -- data, by the peripheral driver and by the other interfaces.
  unfoldable pub run : List (Event × Device) → Ctx → Ctx
  run [] c = c
  run ((e, d) ∷ es) c = run es (step e (record c { dev = d }))
