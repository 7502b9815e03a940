-- ===== src/Ncm/Describe.antt =====
-- The descriptors of the function: `ncm_desc` and `ncm_getDesc` in Class/CDC/usbd_ncm.c.
use usbdevice.Base.{ℕ, ◌+◌, ◌*◌, ◌%◌, List, [], ◌∷◌, ◌++◌, ltb, if◌then◌else◌}
use usbdevice.Device.{Platform}
use usbdevice.Bulk.{bulk_desc}
use usbdevice.Ncm.{Ncm, NcmCtx}
use usbdevice.Ncm.Stages.{not_packet_size}

module _ (p : Platform) where
  -- The index of string `k` of the function, and the numbers of its two interfaces.
  abbrev string_index : ℕ → ℕ → ℕ
  string_index if_num k = if ltb 2 p.max_if_count then (1 + if_num + 16 * k) % 256 else 1 + 16 * k

  abbrev master_if : ℕ → ℕ
  master_if if_num = if ltb 2 p.max_if_count then if_num else 0

  abbrev slave_if : ℕ → ℕ
  slave_if if_num = if ltb 2 p.max_if_count then (if_num + 1) % 256 else 1

  -- `ncm_desc`, part by part, with the fields that `ncm_getDesc` sets.
  abbrev assoc_desc : ℕ → List ℕ
  assoc_desc n = 8 ∷ 0x0B ∷ master_if n ∷ 2 ∷ 0x02 ∷ 0x0D ∷ 0x00 ∷ string_index n 0 ∷ []

  abbrev comm_desc : ℕ → List ℕ
  comm_desc n = 9 ∷ 4 ∷ master_if n ∷ 0 ∷ 1 ∷ 0x02 ∷ 0x0D ∷ 0x00 ∷ string_index n 0 ∷ []

  abbrev union_descs : ℕ → List ℕ
  union_descs n = 5 ∷ 0x24 ∷ 0x00 ∷ 0x10 ∷ 0x01 ∷ 5 ∷ 0x24 ∷ 0x06 ∷ master_if n ∷ slave_if n ∷ []

  abbrev ethernet_desc : ℕ → List ℕ
  ethernet_desc n =
      13 ∷ 0x24 ∷ 0x0F ∷ string_index n 1 ∷ 0 ∷ 0 ∷ 0 ∷ 0 ∷ 0xEA ∷ 0x05 ∷ 0 ∷ 0 ∷ 0 ∷ []

  abbrev function_desc : List ℕ
  function_desc = 6 ∷ 0x24 ∷ 0x1A ∷ 0x00 ∷ 0x01 ∷ 0 ∷ []

  abbrev notice_desc : Ncm → List ℕ
  notice_desc i = 7 ∷ 5 ∷ i.not_ep_num ∷ 3 ∷ not_packet_size ∷ 0 ∷ 20 ∷ []

  -- The data interface without endpoints, and the one with them.
  abbrev data_descs : ℕ → List ℕ
  data_descs n =
      9
      ∷ 4
      ∷ slave_if n
      ∷ 0
      ∷ 0
      ∷ 0x0A
      ∷ 0x00
      ∷ 0x01
      ∷ 0
      ∷ 9
      ∷ 4
      ∷ slave_if n
      ∷ 1
      ∷ 2
      ∷ 0x0A
      ∷ 0x00
      ∷ 0x01
      ∷ string_index n 0
      ∷ []

  -- `ncm_getDesc`
  unfoldable pub get_desc : ℕ → NcmCtx → List ℕ
  get_desc n c =
      assoc_desc n
      ++ (comm_desc n
          ++ (union_descs n
              ++ (ethernet_desc n
                  ++ (function_desc
                      ++ (notice_desc c.itf
                          ++ (data_descs n
                              ++ (bulk_desc p c.itf.out_ep_num c.dev
                                  ++ bulk_desc p c.itf.in_ep_num c.dev)))))))
