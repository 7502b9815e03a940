-- ===== src/Ncm/Stages.antt =====
-- The callbacks of the control pipe, the connection and the mounting: the rest of Class/CDC/usbd_ncm.c.
use usbdevice.Base.{
  ℕ, ◌+◌, ◌*◌, ◌/◌, ◌^◌, not, ◌&&◌, List, ◌++◌, take, drop, get_or, ltb, ◌==◌, if◌then◌else◌,
  overwrite, update,
}
use usbdevice.Device.{
  ReturnType, e_ok, e_error, e_invalid, is_in, type_class, type_bulk, type_interrupt,
  ctrl_data_buffer, memory, Platform, Device,
}
use usbdevice.Endpoint.{ep_open, ep_close, ep_send, ep_receive}
use usbdevice.Control.{ctrl_send_data, ctrl_receive_data}
use usbdevice.Descriptor.{le16}
use usbdevice.Text.{uint2unicode}
use usbdevice.Bulk.{bulk_mps, reset_mps, bind_ep, bind_bulk, mount_at}
use usbdevice.Ncm.{
  ntb_empty, ntb_ready, put16, header_size, table_size, sequence_at, Ncm, NcmCtx, NcmOptions,
  NcmApp, in_page_size, out_page_size, on_ncm, on_ncm_dev, on_ncm_result, tell, fresh_size,
}

-- `NCM_NOT_PACKET_SIZE` and `NCM_NOT_INTR_INTERVAL`
abbrev pub not_packet_size : ℕ
not_packet_size = 8

abbrev not_interval : ℕ
not_interval = 20

-- A 32-bit field, the low byte first.
abbrev pub le32 : ℕ → List ℕ
le32 n = le16 n ++ le16 (n / 65536)

abbrev pub read32 : List ℕ → ℕ
read32 l = get_or l 0 0 + 256 * get_or l 1 0 + 65536 * get_or l 2 0 + 2 ^ 24 * get_or l 3 0

-- `USBD_NCM_ParametersType`
unfoldable pub ntb_parameters : NcmOptions → List ℕ
ntb_parameters o =
    le16 28
    ++ (le16 1
        ++ (le32 o.max_in_size
            ++ (le16 4
                ++ (le16 0
                    ++ (le16 4
                        ++ (le16 0
                            ++ (le32 o.max_out_size
                                ++ (le16 4 ++ (le16 0 ++ (le16 4 ++ le16 20))))))))))

-- `ncm_dataStage`: the size that the host has sent, if it leaves space behind the header and the table.
unfoldable pub data_stage : NcmCtx → NcmCtx
data_stage c =
    let size = read32 c.dev.ctrl_data in
    if not (is_in c.dev.setup.direction)
      && (c.dev.setup.request == 0x86)
      && ltb (header_size + table_size) size
    then on_ncm (λ i. record i { max_size = size }) c
    else c

module _ (p : Platform) (o : NcmOptions) (app : NcmApp) where
  -- `ncm_init`
  unfoldable pub init : NcmCtx → NcmCtx
  init c =
      if c.itf.alt_selector == 1
      then tell app.app_init
          (on_ncm_dev (ep_open p c.itf.not_ep_num type_interrupt not_packet_size) c)
      else on_ncm (λ i. record i { max_size = in_page_size o }) c

  -- `ncm_deinit`
  unfoldable pub deinit : NcmCtx → NcmCtx
  deinit c =
      let off = on_ncm (λ i. record i { connection = 0 }) c in
      let i = c.itf in
      let close = λ (d : Device).
        ep_close p i.not_ep_num (ep_close p i.out_ep_num (ep_close p i.in_ep_num d)) in
      let told = tell app.app_deinit (on_ncm_dev close off) in
      if i.alt_selector == 1
      then record told { dev = reset_mps p told.itf.in_ep_num told.itf.out_ep_num told.dev }
      else off

  -- A response of the class, from the buffer of the device.
  abbrev send_ctrl : List ℕ → ℕ → NcmCtx → ReturnType × NcmCtx
  send_ctrl bytes len c =
      let store = λ (d : Device). record d { ctrl_data = overwrite bytes d.ctrl_data } in
      on_ncm_result (ctrl_send_data p ctrl_data_buffer len) (on_ncm_dev store c)

  -- `ncm_setupStage`
  unfoldable pub setup_stage : NcmCtx → ReturnType × NcmCtx
  setup_stage c =
      let q = c.dev.setup.request in
      if not (c.dev.setup.type == type_class)
      then (e_invalid, c)
      else if q == 0x80
      then send_ctrl (ntb_parameters o) 28 c
      else if q == 0x85
      then send_ctrl (le32 c.itf.max_size) 4 c
      else if q == 0x86
      then on_ncm_result (ctrl_receive_data p ctrl_data_buffer 4) c
      else (e_invalid, c)

  -- `ncm_getString`: the address is written behind the space of its descriptor.
  unfoldable pub get_string : ℕ → NcmCtx → List ℕ × NcmCtx
  get_string int_num c =
      let bytes = uint2unicode app.net_address 12 in
      let store = λ (d : Device). record d {
        ctrl_data = take 26 d.ctrl_data ++ overwrite bytes (drop 26 d.ctrl_data);
      } in
      if int_num == 0 then (app.name, c) else (bytes, on_ncm_dev store c)

  -- `USBD_NCM_Connect`: the pages as they are when the interface connects.
  unfoldable pub start_pages : Ncm → Ncm
  start_pages i = record i {
    in_bytes =
        update (update i.in_bytes 0 (put16 sequence_at 0 (i.in_bytes 0))) 1
          (put16 sequence_at 1 (i.in_bytes 1));
    fill_state = ntb_empty;
    send_state = ntb_ready;
    in_page = 0;
    dg_count = 0;
    in_index = header_size;
    rem_size = fresh_size i.max_size;
    out_state = update (update i.out_state 0 ntb_empty) 1 ntb_empty;
    out_page = 0;
  }

  -- `USBD_NCM_Connect`; the notifications of the speed and of the connection are sent as one message.
  unfoldable pub connect : ℕ → NcmCtx → ReturnType × NcmCtx
  connect bit_rate c =
      let i = c.itf in
      let mps = bulk_mps p c.dev in
      let opened =
        ep_open p i.out_ep_num type_bulk mps (ep_open p i.in_ep_num type_bulk mps c.dev) in
      let receiving =
        (ep_receive p i.out_ep_num (memory (i.out_at 1)) (out_page_size o) opened).1 in
      if (i.alt_selector == 1) && (i.connection == 0)
      then on_ncm_result (ep_send p i.not_ep_num (memory i.notify_at) 24) (record c {
        itf = record (start_pages i) { bit_rate = bit_rate; connection = 1 };
        dev = receiving;
      })
      else (e_invalid, c)

  -- `USBD_NCM_Disconnect`
  unfoldable pub disconnect : NcmCtx → ReturnType × NcmCtx
  disconnect c =
      let i = c.itf in
      let closed = ep_close p i.out_ep_num (ep_close p i.in_ep_num c.dev) in
      if (i.alt_selector == 1) && not (i.connection == 0)
      then on_ncm_result (ep_send p i.not_ep_num (memory i.connection_at) 8)
          (record c { itf = record i { connection = 0; fill_state = ntb_empty }; dev = closed })
      else (e_invalid, c)

  -- `USBD_NCM_MountInterface`
  unfoldable pub mount_interface : NcmCtx → ReturnType × NcmCtx
  mount_interface c =
      let i = c.itf in
      let notice = λ (d : Device). bind_ep type_interrupt not_packet_size i.not_ep_num d in
      let bind = λ (d : Device). bind_bulk p i.out_ep_num (bind_bulk p i.in_ep_num (notice d)) in
      if ltb (c.dev.if_count + 1) p.max_if_count
      then (
        e_ok,
        record c {
          itf = record i { alt_selector = 0; connection = 0 };
          dev = mount_at i.self (mount_at i.self (bind c.dev));
        },
      )
      else (e_error, c)
