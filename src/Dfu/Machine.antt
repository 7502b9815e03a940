-- ===== src/Dfu/Machine.antt =====
-- The states of the interface: which requests are accepted, and where they lead.
use usbdevice.Base.{
  ℕ, zero, suc, ◌≡◌, refl, Bool, true, false, ◌==◌, ◌&&◌, ◌||◌, ◌⊎◌, if◌then◌else◌, arith,
}
use usbdevice.Device.{e_ok, ReturnType, e_invalid}
use usbdevice.Dfu.{
  State, in_dfu_mode, code, app_idle, app_detach, idle, dnload_sync, dnload_busy, dnload_idle,
  manifest_sync, manifest, manifest_wait_reset, upload_idle, error, error_stalledpkt, req_detach,
  req_dnload, req_upload, req_getstatus, req_clrstatus, req_getstate, req_abort, Ctx,
}
use usbdevice.Dfu.Setup.{is_valid}

abbrev pub at : State → State → Bool
at s t = code s == code t

-- The states in which reading the status changes nothing.
abbrev pub rests : State → Bool
rests s =
    at s app_idle
    || at s app_detach
    || at s idle
    || at s dnload_idle
    || at s upload_idle
    || at s error

-- The diagram of the class specification: `moves q s t` tells whether the request with the number `q`
-- is accepted in the state `s`, and may lead to the state `t`.
abbrev pub moves : ℕ → State → State → Bool
moves q s t =
    if q == req_detach
    then at s app_idle && at t app_detach
    else if q == req_dnload
    then (at s idle || at s dnload_idle) && (at t dnload_sync || at t manifest_sync)
    else if q == req_upload
    then (at s idle || at s upload_idle) && (at t idle || at t upload_idle)
    else if q == req_getstatus
    then at s dnload_sync && (at t dnload_busy || at t dnload_idle)
      || at s manifest_sync && (at t manifest || at t idle)
      || rests s && at t s
    else if q == req_clrstatus
    then at s error && at t idle
    else if q == req_getstate
    then (rests s || at s dnload_sync || at s manifest_sync) && at t s
    else if q == req_abort
    then (at s idle
        || at s dnload_sync
        || at s dnload_idle
        || at s manifest_sync
        || at s upload_idle)
      && at t idle
    else false

-- The requests that the diagram has in each state.
abbrev pub accepts : ℕ → State → Bool
accepts q app_idle = q == req_detach || q == req_getstatus || q == req_getstate
accepts q app_detach = q == req_getstatus || q == req_getstate
accepts q idle =
    q == req_dnload || q == req_upload || q == req_getstatus || q == req_getstate || q == req_abort
accepts q dnload_sync = q == req_getstatus || q == req_getstate || q == req_abort
accepts q dnload_busy = false
accepts q dnload_idle = q == req_dnload || q == req_getstatus || q == req_getstate || q == req_abort
accepts q manifest_sync = q == req_getstatus || q == req_getstate || q == req_abort
accepts q manifest = false
accepts q manifest_wait_reset = false
accepts q upload_idle = q == req_upload || q == req_getstatus || q == req_getstate || q == req_abort
accepts q error = q == req_getstatus || q == req_clrstatus || q == req_getstate

-- The table of valid states, read by its bits, accepts the requests of the diagram.
pub is_valid-accepts : (q : ℕ) (s : State) → is_valid q s ≡ accepts q s
unfolding is_valid
is_valid-accepts zero app_idle = refl
is_valid-accepts zero _ = refl
is_valid-accepts (suc zero) app_idle = refl
is_valid-accepts (suc zero) _ = refl
is_valid-accepts (suc (suc zero)) app_idle = refl
is_valid-accepts (suc (suc zero)) _ = refl
is_valid-accepts (suc (suc (suc zero))) app_idle = refl
is_valid-accepts (suc (suc (suc zero))) _ = refl
is_valid-accepts (suc (suc (suc (suc zero)))) app_idle = refl
is_valid-accepts (suc (suc (suc (suc zero)))) _ = refl
is_valid-accepts (suc (suc (suc (suc (suc zero))))) app_idle = refl
is_valid-accepts (suc (suc (suc (suc (suc zero))))) _ = refl
is_valid-accepts (suc (suc (suc (suc (suc (suc zero)))))) app_idle = refl
is_valid-accepts (suc (suc (suc (suc (suc (suc zero)))))) _ = refl
is_valid-accepts (suc (suc (suc (suc (suc (suc (suc n))))))) app_idle = ground arith
is_valid-accepts (suc (suc (suc (suc (suc (suc (suc n))))))) _ = ground arith

-- What refusing a request in the state `s` comes to.
abbrev IsRefusal : State → ReturnType × Ctx → Type 0
IsRefusal s v =
    (v.0 ≡ e_invalid)
    × ((in_dfu_mode s ≡ true) × (v.1.itf.state ≡ error) × (v.1.itf.status ≡ error_stalledpkt)
        ⊎ (in_dfu_mode s ≡ false) × (v.1.itf.state ≡ app_idle))

-- What a request has come to: it was accepted, and the diagram has the move, or it was refused.
abbrev Outcome : ℕ → State → ReturnType × Ctx → Type 0
Outcome q s v = ((v.0 ≡ e_ok) × (moves q s v.1.itf.state ≡ true)) ⊎ IsRefusal s v
