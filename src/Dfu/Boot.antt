-- ===== src/Dfu/Boot.antt =====
-- The way from the application to the bootloader, and back to an error.
use usbdevice.Base.{◌≡◌, Bool, true, false, ◌∷◌, arith}
use usbdevice.Device.{e_ok}
use usbdevice.Dfu.{idle, error, error_none, error_firmware, App, reboot, Ctx}
use usbdevice.Dfu.Requests.{detach, abort}
use usbdevice.Dfu.Stages.{init, is_requested, boot_init}

-- The request to detach is answered by OK, reboots the device, and is remembered over the reboot: the
-- bootloader starts in dfuIDLE without an error. Once the interface is initialised there, it is
-- forgotten: the next start finds the firmware missing. (For an interface with a function to reboot.)
pub detach_boots :
    (tolerant : Bool) (c : Ctx) (app : App)
    → c.itf.has_reboot ≡ true
    → let (answer, d) = detach tolerant c in
      let v = d.itf in
      let b = boot_init true app v in
      let b' = boot_init true app (init (record c { itf = b })).itf in
      (answer ≡ e_ok)
      × (v.log ≡ reboot ∷ c.itf.log)
      × (b.state ≡ idle)
      × (b.status ≡ error_none)
      × (b'.state ≡ error)
      × (b'.status ≡ error_firmware)
unfolding detach boot_init is_requested init abort
detach_boots tolerant c app r = ground arith

-- A bootloader that starts without a request has found no firmware, and says so by its status; the
-- first configuration of the device clears that error, and the interface takes requests in dfuIDLE.
pub boot_error_forgotten :
    (b : Bool) (app : App) (c : Ctx)
    → is_requested c.itf ≡ false
    → let v = record c { itf = boot_init b app c.itf } in
      (v.itf.state ≡ error)
      × (v.itf.status ≡ error_firmware)
      × ((init v).itf.state ≡ idle)
      × ((init v).itf.status ≡ error_none)
unfolding boot_init init abort
boot_error_forgotten b app c h = ground arith
