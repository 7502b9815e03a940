-- ===== src/Dfu/Pointer.antt =====
-- The download with the ST extension: the address pointer, and the blocks behind it.
use usbdevice.Base.{
  ℕ, ◌+◌, ◌-◌, ◌*◌, ◌%◌, ◌≤◌, ◌<◌, ◌≡◌, ◌⊎◌, Bool, true, List, ◌∷◌, take, get_or, arith, refl, ◌∙◌,
  ap,
}
use usbdevice.Device.{e_ok, direction_out, is_setup, Platform, Device, SetupRequest, type_class}
use usbdevice.Control.{ctrl_receive_data, ctrl_send_data}
use usbdevice.Dfu.{
  idle, dnload_sync, dnload_busy, dnload_idle, error_none, req_dnload, req_getstatus, app_write,
  Dfu, Ctx, firmware_end, u32_mod,
}
use usbdevice.Dfu.Requests.{advance, get_status}
use usbdevice.Dfu.Setup.{refuse, call_request}
use usbdevice.Dfu.Stages.{settle}
use usbdevice.Dfu.Machine.{is_valid-accepts}
use usbdevice.Dfu.Download.{Writes}
use usbdevice.Dfu.Extension.{
  cmd_setaddresspointer, block_address, command_address, st_download, st_download_block,
  st_class_request, run_command, st_do_download, st_work, st_data_stage,
}

-- The three steps of a block: the download request, the request `g` for the status, and the work after
-- it. `buf` is what the host has sent by then.
abbrev pub st_load : Platform → Bool → (Ctx → Ctx) → SetupRequest → List ℕ → Ctx → Ctx
st_load p t shutdown g buf c =
    let c1 = (st_class_request p t c).1 in
    let c2 =
      (st_class_request p t (record c1 { dev = record c1.dev { setup = g; ctrl_data = buf } })).1 in
    st_data_stage p t shutdown c2

-- The same, and the next request for the status, which ends the block.
abbrev pub st_round : Platform → Bool → (Ctx → Ctx) → SetupRequest → List ℕ → Ctx → Ctx
st_round p t shutdown g buf c =
    let v = st_load p t shutdown g buf c in
    (st_class_request p t (record v { dev = record v.dev { setup = g } })).1

-- A block that passes the test of its range, which is made at the address pointer.
pub record IsStBlock (p : Platform) (c : Ctx) : Type 0 where
  pub asks : c.dev.setup.request ≡ req_dnload
  pub outward : c.dev.setup.direction ≡ direction_out
  pub in_setup : is_setup (c.dev.ep_out 0).state ≡ true
  pub ready : (c.itf.state ≡ idle) ⊎ (c.itf.state ≡ dnload_idle)
  pub some_bytes : 0 < c.dev.setup.length
  pub one_buffer : c.dev.setup.length ≤ p.ep0_buffer_size
  pub before_end : (c.itf.address + c.dev.setup.length) % u32_mod < firmware_end c.itf.app

-- The request for the status.
pub record IsStatusRequest (g : SetupRequest) : Type 0 where
  pub of_class : g.type ≡ type_class
  pub asks_status : g.request ≡ req_getstatus

small_address : (a : ℕ) → a < u32_mod → a % u32_mod ≡ a
small_address a h = omega arith

module _ (p : Platform) (t : Bool) where
  st_accepted :
      (c : Ctx)
      → Writes c.itf.app
      → IsStBlock p c
      → (st_class_request p t c).1.itf ≡ record c.itf {
        block_num = c.dev.setup.value;
        block_length = c.dev.setup.length;
        state = dnload_sync;
      }
  unfolding st_class_request refuse st_download st_download_block ctrl_receive_data
  st_accepted c w b =
      ground (arith, w.can_erase, w.can_write, is_valid-accepts c.dev.setup.request c.itf.state)

  st_answer : (c : Ctx) → Writes c.itf.app → IsStBlock p c → (st_class_request p t c).0 ≡ e_ok
  unfolding st_class_request refuse st_download st_download_block ctrl_receive_data
  st_answer c w b =
      ground (arith, w.can_erase, w.can_write, is_valid-accepts c.dev.setup.request c.itf.state)

  -- A handle whose block waits for the request for the status.
  st_busy :
      (c : Ctx)
      → c.dev.setup.request ≡ req_getstatus
      → c.itf.state ≡ dnload_sync
      → 0 < c.itf.block_length
      → let q = (st_class_request p t c).1 in
        (q.itf.app ≡ c.itf.app)
        × (q.itf.state ≡ dnload_busy)
        × (q.itf.status ≡ c.itf.status)
        × (q.itf.address ≡ c.itf.address)
        × (q.itf.block_num ≡ c.itf.block_num)
        × (q.itf.block_length ≡ c.itf.block_length)
        × (q.itf.log ≡ c.itf.log)
        × (q.dev.setup ≡ c.dev.setup)
        × (q.dev.ctrl_data ≡ c.dev.ctrl_data)
  unfolding st_class_request refuse call_request get_status advance ctrl_send_data
  st_busy c q s l = ground (arith, is_valid-accepts c.dev.setup.request c.itf.state)

  -- A block that is written is over with the next request for the status.
  st_rested :
      (c : Ctx)
      → c.dev.setup.request ≡ req_getstatus
      → c.itf.state ≡ dnload_sync
      → c.itf.block_length ≡ 0
      → (st_class_request p t c).1.itf ≡ record c.itf { state = dnload_idle }
  unfolding st_class_request refuse call_request get_status advance ctrl_send_data
  st_rested c q s l = ground (arith, is_valid-accepts c.dev.setup.request c.itf.state)

  st_write :
      (buf : List ℕ) (i : Dfu)
      → Writes i.app
      → 1 < i.block_num
      → let v = st_do_download p buf i in
        (v.log ≡ app_write (block_address p i) (take i.block_length buf) i.block_length ∷ i.log)
        × (v.address ≡ i.address)
        × (v.status ≡ error_none)
  unfolding st_do_download
  st_write buf i w n = ground (
    arith,
    w.writes (app_write (block_address p i) (take i.block_length buf) i.block_length ∷ i.log),
  )

  st_point :
      (buf : List ℕ) (i : Dfu)
      → i.block_num ≡ 0
      → i.block_length ≡ 5
      → get_or buf 0 0 ≡ cmd_setaddresspointer
      → let v = st_do_download p buf i in
        (v.address ≡ command_address buf)
        × (v.log ≡ i.log)
        × (v.status ≡ i.status)
        × (v.app ≡ i.app)
  unfolding st_do_download run_command
  st_point buf i n l e = ground (arith, e)

  -- The work after the request for the status, for a handle in dfuDNBUSY.
  st_worked :
      (shutdown : Ctx → Ctx) (c : Ctx)
      → c.dev.setup.type ≡ type_class
      → c.dev.setup.request ≡ req_getstatus
      → c.itf.state ≡ dnload_busy
      → let v = (st_data_stage p t shutdown c).itf in
        let i = st_do_download p c.dev.ctrl_data c.itf in
        (v.address ≡ i.address)
        × (v.log ≡ i.log)
        × (v.status ≡ i.status)
        × (v.app ≡ i.app)
        × (i.status ≡ error_none → (v.state ≡ dnload_sync) × (v.block_length ≡ 0))
  unfolding st_data_stage st_work settle st_do_download
  st_worked shutdown c y q s = ground arith

  -- The handle and the data when the work begins.
  record IsBusy (g : SetupRequest) (buf : List ℕ) (c v : Ctx) : Type 0 where
    app : v.itf.app ≡ c.itf.app
    state : v.itf.state ≡ dnload_busy
    status : v.itf.status ≡ c.itf.status
    address : v.itf.address ≡ c.itf.address
    num : v.itf.block_num ≡ c.dev.setup.value
    len : v.itf.block_length ≡ c.dev.setup.length
    log : v.itf.log ≡ c.itf.log
    setup : v.dev.setup ≡ g
    bytes : v.dev.ctrl_data ≡ buf

  module _ (shutdown : Ctx → Ctx) (g : SetupRequest) (is_g : IsStatusRequest g) where
    abbrev asked : List ℕ → Ctx → Ctx
    asked buf c =
        let c1 = (st_class_request p t c).1 in
        (st_class_request p t (record c1 { dev = record c1.dev { setup = g; ctrl_data = buf } })).1

    asked-IsBusy :
        (buf : List ℕ) (c : Ctx) → Writes c.itf.app → IsStBlock p c → IsBusy g buf c (asked buf c)
    asked-IsBusy buf c w b =
        let c1 = (st_class_request p t c).1 in
        let c2 = record c1 { dev = record c1.dev { setup = g; ctrl_data = buf } } in
        let same = st_accepted c w b in
        let (app, state, status, address, num, len, log, setup, bytes) =
          st_busy c2 is_g.asks_status (ap (λ i. i.state) same)
            (rw (ap (λ i. i.block_length) same) b.some_bytes) in
        record {
          app = app ∙ ap (λ i. i.app) same;
          state = state;
          status = status ∙ ap (λ i. i.status) same;
          address = address ∙ ap (λ i. i.address) same;
          num = num ∙ ap (λ i. i.block_num) same;
          len = len ∙ ap (λ i. i.block_length) same;
          log = log ∙ ap (λ i. i.log) same;
          setup = setup;
          bytes = bytes;
        }

    -- A block from 2 on is written behind the address pointer, which stays where it is.
    block_lem :
        (buf : List ℕ) (c : Ctx)
        → Writes c.itf.app
        → IsStBlock p c
        → 1 < c.dev.setup.value
        → let v = (st_load p t shutdown g buf c).itf in
          let n = c.dev.setup.value in
          let at = (c.itf.address + (n - 2) * p.ep0_buffer_size) % u32_mod in
          (v.log ≡ app_write at (take c.dev.setup.length buf) c.dev.setup.length ∷ c.itf.log)
          × (v.address ≡ c.itf.address)
          × (v.status ≡ error_none)
    block_lem buf c w b n =
        let k = asked-IsBusy buf c w b in
        let v = asked buf c in
        let w' : Writes v.itf.app = rw k.app w in
        let n' : 1 < v.itf.block_num = rw k.num n in
        let (log, address, status) = st_write v.dev.ctrl_data v.itf w' n' in
        let (address', log', status', app', more) =
          st_worked shutdown v (rw k.setup is_g.of_class) (rw k.setup is_g.asks_status) k.state in
        (
          log' ∙ (log ∙ rw (k.address, k.num, k.len, k.bytes, k.log) refl),
          address' ∙ (address ∙ k.address),
          status' ∙ status,
        )

    -- A command in the block 0 moves the pointer, and writes nothing.
    pub pointer_lem :
        (buf : List ℕ) (c : Ctx)
        → Writes c.itf.app
        → IsStBlock p c
        → c.dev.setup.value ≡ 0
        → c.dev.setup.length ≡ 5
        → get_or buf 0 0 ≡ cmd_setaddresspointer
        → c.itf.status ≡ error_none
        → let v = (st_round p t shutdown g buf c).itf in
          (v.address ≡ command_address buf)
          × (v.log ≡ c.itf.log)
          × (v.app ≡ c.itf.app)
          × (v.state ≡ dnload_idle)
    pointer_lem buf c w b n l e ok =
        let k = asked-IsBusy buf c w b in
        let v = asked buf c in
        let u = st_data_stage p t shutdown v in
        let (address, log, status, app) =
          st_point v.dev.ctrl_data v.itf (k.num ∙ n) (k.len ∙ l) (rw k.bytes e) in
        let (address', log', status', app', more) =
          st_worked shutdown v (rw k.setup is_g.of_class) (rw k.setup is_g.asks_status) k.state in
        let (waits, empty) = more (status ∙ (k.status ∙ ok)) in
        let rest =
          st_rested (record u { dev = record u.dev { setup = g } }) is_g.asks_status waits empty in
        (
          ap (λ i. i.address) rest ∙ (address' ∙ (address ∙ ap command_address k.bytes)),
          ap (λ i. i.log) rest ∙ (log' ∙ (log ∙ k.log)),
          ap (λ i. i.app) rest ∙ (app' ∙ (app ∙ k.app)),
          ap (λ i. i.state) rest,
        )

    -- After the command to set the address pointer, a block 0 of 5 bytes, and the requests for the
    -- status that carry it out, a block with a number `n` from 2 on is written at `n - 2` times the transfer size behind the address of the command, once
    -- and as the host has sent it, and the pointer stays. (For blocks that pass the test of their
    -- range, on a handle without an error, and an application that can be written. Before the second
    -- block the device is changed at will.)
    pub pointed_write :
        (command buf : List ℕ) (c : Ctx) (d : Device)
        → Writes c.itf.app
        → IsStBlock p c
        → c.dev.setup.value ≡ 0
        → c.dev.setup.length ≡ 5
        → get_or command 0 0 ≡ cmd_setaddresspointer
        → c.itf.status ≡ error_none
        → IsStBlock p (record (st_round p t shutdown g command c) { dev = d })
        → 1 < d.setup.value
        → let pointed = st_round p t shutdown g command c in
          let v = (st_load p t shutdown g buf (record pointed { dev = d })).itf in
          let at = (command_address command + (d.setup.value - 2) * p.ep0_buffer_size) % u32_mod in
          (v.log ≡ app_write at (take d.setup.length buf) d.setup.length ∷ c.itf.log)
          × (v.address ≡ command_address command)
          × (v.status ≡ error_none)
    pointed_write command buf c d w b n l e ok b' n' =
        let pointed = st_round p t shutdown g command c in
        let (address, log, app, state) = pointer_lem command c w b n l e ok in
        let w' : Writes pointed.itf.app = rw app w in
        let (log', address', status') = block_lem buf (record pointed { dev = d }) w' b' n' in
        (log' ∙ rw (address, log) refl, address' ∙ address, status')

    -- The range of a block is tested at the address pointer, and not where it is written: with the
    -- pointer in the firmware, a block of a high number is accepted, and written behind the end of the
    -- firmware.
    block_past_end :
        (buf : List ℕ) (c : Ctx)
        → Writes c.itf.app
        → IsStBlock p c
        → 1 < c.dev.setup.value
        → firmware_end c.itf.app ≤ c.itf.address + (c.dev.setup.value - 2) * p.ep0_buffer_size
        → c.itf.address + (c.dev.setup.value - 2) * p.ep0_buffer_size < u32_mod
        → let at = c.itf.address + (c.dev.setup.value - 2) * p.ep0_buffer_size in
          ((st_class_request p t c).0 ≡ e_ok)
          × ((st_load p t shutdown g buf c).itf.log
              ≡ app_write at (take c.dev.setup.length buf) c.dev.setup.length ∷ c.itf.log)
    block_past_end buf c w b n past fits =
        let (log, address, status) = block_lem buf c w b n in
        let len = c.dev.setup.length in
        let bytes = take len buf in
        (st_answer c w b, log ∙ ap (λ a. app_write a bytes len ∷ c.itf.log) (small_address _ fits))
