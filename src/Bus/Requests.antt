-- ===== src/Bus/Requests.antt =====
-- The requests on a device that is in use.
use usbdevice.Base.{[], ◌∷◌, overwrite, ℕ, refl, arith}
use usbdevice.Device.{
  is_stall, get_ep, state_idle, pd_ep_clear_stall, ctrl_data_buffer, Platform, Device, EpRef, in_ep,
  out_ep, ep_call, set_ep_state, set_transfer_length,
}
use usbdevice.World.{World, Class, on_dev, on_dev_result}
use usbdevice.Endpoint.{ep_addr2ref}
use usbdevice.Request.{
  bit, features_w, set_address, get_config, get_status, set_feature, clear_feature, ep_set_halt,
  ep_get_status,
}
use usbdevice.Bus.Kept.{KeepsMount, Own}
use usbdevice.Bus.Descriptors.{Keeps, keep_after, keep_result, plain, send_data-Keeps}

pub set_halt-mount : (p : Platform) (a : ℕ) (d : Device) → KeepsMount d (ep_set_halt p a d).1
unfolding ep_set_halt
set_halt-mount p a d = record {
  count = ground arith;
  ifs = ground arith;
  config = ground arith;
  setup = ground arith;
}

module _ {S : Type 0} (p : Platform) (c : Class S) where
  -- The requests to the device that leave the configuration alone.
  pub get_config-Keeps : (w : World S) → Keeps w (on_dev_result (get_config p) w)
  unfolding get_config
  get_config-Keeps w =
      let f =
        λ (d : Device). record d { ctrl_data = overwrite (d.config_selector ∷ []) d.ctrl_data } in
      keep_after (plain f w refl refl refl refl)
        (send_data-Keeps p c ctrl_data_buffer 1 (on_dev f w))

  pub get_status-Keeps : (w : World S) → Keeps w (on_dev_result (get_status p) w)
  unfolding get_status
  get_status-Keeps w =
      let f =
        λ (d : Device). record d { ctrl_data = overwrite (features_w d ∷ 0 ∷ []) d.ctrl_data } in
      keep_after (plain f w refl refl refl refl)
        (send_data-Keeps p c ctrl_data_buffer 2 (on_dev f w))

  pub set_address-Keeps : (w : World S) → Keeps w (on_dev_result (set_address p) w)
  unfolding set_address
  set_address-Keeps w = keep_result (set_address p) w (record {
    count = ground arith;
    ifs = ground arith;
    config = ground arith;
    setup = ground arith;
  })

  pub set_feature-Keeps : (w : World S) → Keeps w (on_dev_result set_feature w)
  unfolding set_feature
  set_feature-Keeps w = keep_result set_feature w (record {
    count = ground arith;
    ifs = ground arith;
    config = ground arith;
    setup = ground arith;
  })

  pub clear_feature-Keeps : (w : World S) → Keeps w (on_dev_result clear_feature w)
  unfolding clear_feature
  clear_feature-Keeps w = keep_result clear_feature w (record {
    count = ground arith;
    ifs = ground arith;
    config = ground arith;
    setup = ground arith;
  })

  -- The endpoint after its halt is cleared.
  abbrev pub ready : EpRef → ℕ → Device → Device
  ready r a d =
      set_transfer_length r 0 (set_ep_state r state_idle (ep_call p r (pd_ep_clear_stall a) d))

  pub ready-Own : (r : EpRef) (a : ℕ) (w : World S) → Own w (on_dev (ready r a) w)
  ready-Own (in_ep n) a w = plain (ready (in_ep n) a) w refl refl refl refl
  ready-Own (out_ep n) a w = plain (ready (out_ep n) a) w refl refl refl refl

  pub ep_status-Keeps : (a : ℕ) (w : World S) → Keeps w (on_dev_result (ep_get_status p a) w)
  unfolding ep_get_status
  ep_status-Keeps a w =
      let f = λ (d : Device). record d {
        ctrl_data =
            overwrite (bit (is_stall (get_ep (ep_addr2ref a) d).state) ∷ 0 ∷ []) d.ctrl_data;
      } in
      keep_after (plain f w refl refl refl refl)
        (send_data-Keeps p c ctrl_data_buffer 2 (on_dev f w))
