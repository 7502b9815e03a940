-- ===== src/Dfu/Download.antt =====
-- The download of firmware, block by block.
use usbdevice.Base.{
  ℕ, ◌+◌, ◌≤◌, ◌<◌, ◌≡◌, ◌⊎◌, Bool, true, List, ◌∙◌, ap, ◌∷◌, take, arith, if◌then◌else◌, ◌==◌,
  refl,
}
use usbdevice.Device.{e_ok, e_invalid, direction_out, is_setup, Platform, SetupRequest, type_class}
use usbdevice.Control.{ctrl_receive_data, ctrl_send_data}
use usbdevice.Dfu.{
  idle, dnload_sync, dnload_busy, dnload_idle, error, error_none, req_dnload, req_getstatus, App,
  AppCall, app_erase, app_write, Dfu, Ctx, error_stalledpkt,
}
use usbdevice.Dfu.Requests.{
  is_some, next_block, start_block, download_block, download, advance, get_status,
}
use usbdevice.Dfu.Setup.{class_request, refuse, call_request}
use usbdevice.Dfu.Stages.{answer, erase_first, write_block, do_download, work, settle, data_stage}
use usbdevice.Dfu.Machine.{is_valid-accepts}
use usbdevice.Dfu.Region.{Fits}

-- An application that can be written, and whose functions succeed.
pub record Writes (a : App) : Type 0 where
  pub can_erase : is_some a.erase ≡ true
  pub can_write : is_some a.write ≡ true
  pub erases : (l : List AppCall) → answer a.erase l ≡ error_none
  pub writes : (l : List AppCall) → answer a.write l ≡ error_none

-- The three steps of a block: the download request, the request for the status, and the work after it.
-- `buf` is what the host has sent by then.
abbrev pub load : Platform → Bool → (Ctx → Ctx) → SetupRequest → List ℕ → Ctx → Ctx
load p t shutdown g buf c =
    let c1 = (class_request p t c).1 in
    let c2 =
      (class_request p t (record c1 { dev = record c1.dev { setup = g; ctrl_data = buf } })).1 in
    data_stage t shutdown c2

-- A block that the interface has to accept: in dfuIDLE the first one, in dfuDNLOAD-IDLE the one after
-- the last, and one that ends below the end of the firmware.
pub record IsNextBlock (p : Platform) (c : Ctx) : Type 0 where
  pub asks : c.dev.setup.request ≡ req_dnload
  pub outward : c.dev.setup.direction ≡ direction_out
  pub in_setup : is_setup (c.dev.ep_out 0).state ≡ true
  pub ready : (c.itf.state ≡ idle) ⊎ (c.itf.state ≡ dnload_idle)
  pub numbered : c.dev.setup.value ≡ next_block (start_block c.itf)
  pub some_bytes : 0 < c.dev.setup.length
  pub one_buffer : c.dev.setup.length ≤ p.ep0_buffer_size
  pub ends_before :
      (start_block c.itf).address + c.dev.setup.length
      < c.itf.app.firmware_address + c.itf.app.total_size

-- The handle after an accepted block.
abbrev accepted : Ctx → Dfu
accepted c = record (start_block c.itf) {
  block_num = c.dev.setup.value;
  block_length = c.dev.setup.length;
  state = dnload_sync;
}

-- The calls of the application after a block: it is written, after the erasure if it is the first.
abbrev pub written : List ℕ → Dfu → List AppCall
written buf i =
    app_write i.address (take i.block_length buf) i.block_length
    ∷ (if i.address == i.app.firmware_address then app_erase i.address ∷ i.log else i.log)

module _ (p : Platform) (t : Bool) where
  start_block_lem : (i : Dfu) → ((start_block i).app ≡ i.app) × ((start_block i).status ≡ i.status)
  unfolding start_block
  start_block_lem i = ground arith

  download-accepted :
      (c : Ctx)
      → Writes c.itf.app
      → Fits p c.itf.app
      → IsNextBlock p c
      → ((class_request p t c).0 ≡ e_ok) × ((class_request p t c).1.itf ≡ accepted c)
  unfolding class_request refuse call_request download download_block ctrl_receive_data start_block
  download-accepted c w f b =
      ground (arith, w.can_erase, w.can_write, is_valid-accepts c.dev.setup.request c.itf.state)

  status-busy :
      (c : Ctx)
      → c.dev.setup.request ≡ req_getstatus
      → c.itf.state ≡ dnload_sync
      → 0 < c.itf.block_length
      → let i = (class_request p t c).1.itf in
        let q = (class_request p t c).1 in
        (i.app ≡ c.itf.app)
        × (i.state ≡ dnload_busy)
        × (i.status ≡ c.itf.status)
        × (i.address ≡ c.itf.address)
        × (i.block_length ≡ c.itf.block_length)
        × (i.log ≡ c.itf.log)
        × (q.dev.setup ≡ c.dev.setup)
        × (q.dev.ctrl_data ≡ c.dev.ctrl_data)
  unfolding class_request refuse call_request get_status advance ctrl_send_data
  status-busy c q s l = ground (arith, is_valid-accepts c.dev.setup.request c.itf.state)

  erase_first_lem :
      (i : Dfu)
      → Writes i.app
      → i.status ≡ error_none
      → let start = i.app.firmware_address in
        ((erase_first i).status ≡ error_none)
        × ((erase_first i).log
            ≡ (if i.address == start then app_erase i.address ∷ i.log else i.log))
        × ((erase_first i).address ≡ i.address)
        × ((erase_first i).block_length ≡ i.block_length)
        × ((erase_first i).app ≡ i.app)
  unfolding erase_first
  erase_first_lem i w e = ground (arith, w.erases (app_erase i.address ∷ i.log))

  write_block_lem :
      (buf : List ℕ) (i : Dfu)
      → Writes i.app
      → Fits p i.app
      → i.status ≡ error_none
      → i.address + i.block_length < i.app.firmware_address + i.app.total_size
      → let call = app_write i.address (take i.block_length buf) i.block_length in
        ((write_block buf i).status ≡ error_none)
        × ((write_block buf i).log ≡ call ∷ i.log)
        × ((write_block buf i).address ≡ i.address + i.block_length)
  unfolding write_block
  write_block_lem buf i w f e h =
      ground
        (arith, w.writes (app_write i.address (take i.block_length buf) i.block_length ∷ i.log))

  do_download_lem :
      (buf : List ℕ) (i : Dfu)
      → Writes i.app
      → Fits p i.app
      → i.status ≡ error_none
      → i.address + i.block_length < i.app.firmware_address + i.app.total_size
      → let v = do_download buf i in
        (v.log ≡ written buf i) × (v.address ≡ i.address + i.block_length) × (v.status ≡ error_none)
  unfolding do_download
  do_download_lem buf i w f e h =
      let (status, log, address, len, app) = erase_first_lem i w e in
      let w' : Writes (erase_first i).app = rw app w in
      let f' : Fits p (erase_first i).app = rw app f in
      let (status', log', address') =
        write_block_lem buf (erase_first i) w' f' status (rw (address, len, app) h) in
      (ground (arith, log'), ground (arith, address'), status')

  busy_lem :
      (shutdown : Ctx → Ctx) (c : Ctx)
      → Writes c.itf.app
      → Fits p c.itf.app
      → c.dev.setup.type ≡ type_class
      → c.dev.setup.request ≡ req_getstatus
      → c.itf.state ≡ dnload_busy
      → c.itf.status ≡ error_none
      → c.itf.address + c.itf.block_length < c.itf.app.firmware_address + c.itf.app.total_size
      → let i = (data_stage t shutdown c).itf in
        (i.log ≡ written c.dev.ctrl_data c.itf)
        × (i.address ≡ c.itf.address + c.itf.block_length)
        × (i.status ≡ error_none)
        × ((advance i).state ≡ dnload_idle)
  unfolding data_stage work settle advance do_download
  busy_lem shutdown c w f y q s e h = ground (arith, do_download_lem c.dev.ctrl_data c.itf w f e h)

  sync_lem :
      (shutdown : Ctx → Ctx) (c : Ctx)
      → Writes c.itf.app
      → Fits p c.itf.app
      → c.dev.setup.type ≡ type_class
      → c.dev.setup.request ≡ req_getstatus
      → c.itf.state ≡ dnload_sync
      → c.itf.status ≡ error_none
      → 0 < c.itf.block_length
      → c.itf.address + c.itf.block_length < c.itf.app.firmware_address + c.itf.app.total_size
      → let i = (data_stage t shutdown (class_request p t c).1).itf in
        (i.log ≡ written c.dev.ctrl_data c.itf)
        × (i.address ≡ c.itf.address + c.itf.block_length)
        × (i.status ≡ error_none)
        × ((advance i).state ≡ dnload_idle)
  sync_lem shutdown c w f y q s e l h =
      let v = (class_request p t c).1 in
      let (app, state, status, address, len, log, setup, bytes) = status-busy c q s l in
      let (log', address', status', state') =
        busy_lem shutdown v (rw app w) (rw app f) (rw setup y) (rw setup q) state (rw status e)
          (rw (address, len, app) h) in
      (
        log' ∙ rw (address, len, app, log, bytes) refl,
        address' ∙ rw (address, len) refl,
        status',
        state',
      )

  -- A block of a download goes through: when the host sends the block that is due, then asks for the
  -- status, the interface has the application write the bytes that were sent at the address of the
  -- block, after erasing the firmware if the block is the first; the address grows by the length of the
  -- block, there is no error, and the next request for the status finds dfuDNLOAD-IDLE. (For an
  -- application whose functions succeed, and firmware that lies below the end of the address space.)
  pub load_lem :
      (shutdown : Ctx → Ctx) (g : SetupRequest) (buf : List ℕ) (c : Ctx)
      → Writes c.itf.app
      → Fits p c.itf.app
      → IsNextBlock p c
      → c.itf.status ≡ error_none
      → g.type ≡ type_class
      → g.request ≡ req_getstatus
      → let v = (load p t shutdown g buf c).itf in
        (v.log ≡ written buf (accepted c))
        × (v.address ≡ (start_block c.itf).address + c.dev.setup.length)
        × (v.status ≡ error_none)
        × ((advance v).state ≡ dnload_idle)
  load_lem shutdown g buf c w f b e y q =
      let c1 = (class_request p t c).1 in
      let d = record c1 { dev = record c1.dev { setup = g; ctrl_data = buf } } in
      let (start_app, start_status) = start_block_lem c.itf in
      let e1 : c1.itf ≡ accepted c = (download-accepted c w f b).1 in
      let (log, address, status, state) =
        sync_lem shutdown d (rw (e1, start_app) w) (rw (e1, start_app) f) y q (rw e1 refl)
          (rw (e1, start_status) e) (rw e1 b.some_bytes) (rw (e1, start_app) b.ends_before) in
      (log ∙ ap (written buf) e1, address ∙ ap (λ i. i.address + i.block_length) e1, status, state)

-- A download of a block that would end exactly at the end of the firmware is refused, whatever its
-- number and its bytes: the last byte of the firmware cannot be written.
pub last_block_refused :
    (p : Platform) (t : Bool) (c : Ctx)
    → Fits p c.itf.app
    → c.itf.state ≡ dnload_idle
    → c.dev.setup.request ≡ req_dnload
    → 0 < c.dev.setup.length
    → c.dev.setup.length ≤ p.ep0_buffer_size
    → c.itf.address + c.dev.setup.length ≡ c.itf.app.firmware_address + c.itf.app.total_size
    → ((class_request p t c).0 ≡ e_invalid)
      × ((class_request p t c).1.itf.state ≡ error)
      × ((class_request p t c).1.itf.status ≡ error_stalledpkt)
unfolding class_request refuse call_request download download_block start_block
last_block_refused p t c f s q pos le e =
    ground (arith, is_valid-accepts c.dev.setup.request c.itf.state)
