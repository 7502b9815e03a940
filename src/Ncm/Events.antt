-- ===== src/Ncm/Events.antt =====
-- Sequences of calls and events of the interface.
use usbdevice.Base.{ℕ, ◌≤◌, ◌≡◌, arith, List, [], ◌∷◌}
use usbdevice.Device.{Platform, EpRef, Device}
use usbdevice.Ncm.{NtbState, Ncm, NcmCtx, NcmOptions, in_page_size}
use usbdevice.Ncm.Send.{in_data, alloc_datagram, set_datagram, put_datagram}
use usbdevice.Ncm.Receive.{
  get_datagram, advance_datagram, next_datagram, switch_page, receive_page, enter_page,
}
use usbdevice.Ncm.Stages.{data_stage, read32}

-- What the application calls, a transfer that has ended, and the data stage of a request, by the device
-- at that time.
pub data NcmEvent : Type 0 where
  put : List ℕ → NcmEvent
  alloc : ℕ → NcmEvent
  set : NcmEvent
  take : NcmEvent
  sent : EpRef → NcmEvent
  data_in : Device → NcmEvent

-- The host asks for blocks that have room in a page, when it does.
abbrev pub AreInPage : NcmOptions → List NcmEvent → Type 0
AreInPage o [] = Unit
AreInPage o (data_in d ∷ es) = (read32 d.ctrl_data ≤ in_page_size o) × AreInPage o es
AreInPage o (_ ∷ es) = AreInPage o es

-- The application completes no datagram by itself.
abbrev pub AreNoSets : List NcmEvent → Type 0
AreNoSets [] = Unit
AreNoSets (set ∷ es) = ⊥
AreNoSets (_ ∷ es) = AreNoSets es

-- What the OUT side leaves alone.
abbrev pub in_part : Ncm → ℕ × ℕ × ℕ × ℕ × NtbState
in_part i = (i.rem_size, i.in_index, i.dg_count, i.max_size, i.fill_state)

module _ (p : Platform) (o : NcmOptions) where
  unfoldable pub step : NcmEvent → NcmCtx → NcmCtx
  step (put xs) c = (put_datagram p o xs c).1
  step (alloc len) c = (alloc_datagram p o len c).1
  step set c = (set_datagram p o c).1
  step take c = (get_datagram p o c).1
  step (sent ep) c = in_data p o ep c
  step (data_in d) c = data_stage (record c { dev = d })

  unfoldable pub run : List NcmEvent → NcmCtx → NcmCtx
  run [] c = c
  run (e ∷ es) c = run es (step e c)

  next_fill : (i : Ncm) → in_part (next_datagram p o i) ≡ in_part i
  unfolding next_datagram
  next_fill i = ground arith

  switch_fill : (c : NcmCtx) → in_part (switch_page p o c).itf ≡ in_part c.itf
  unfolding switch_page receive_page enter_page
  switch_fill c = ground arith

  pub take_fill : (c : NcmCtx) → in_part (get_datagram p o c).1.itf ≡ in_part c.itf
  unfolding get_datagram advance_datagram
  take_fill c = ground (
    arith,
    switch_fill c,
    switch_fill (record c { itf = next_datagram p o c.itf }),
    next_fill c.itf,
  )
