-- ===== src/Tests/Network.antt =====
-- A network interface: its blocks, the space in them, and their verification.
use usbdevice.Base.{
  ℕ, zero, suc, Bool, not, ◌&&◌, ◌||◌, ltb, ◌+◌, ◌-◌, ◌*◌, ◌≤◌, ◌<◌, ◌≡◌, ◌≢◌, ◌↔◌, ◌∷◌, [], refl,
  arith, true, none, some, inl, inr, ap, ◌⊎◌, List, length, ◌==◌,
}
use mathlib.Core.Option
use usbdevice.Device.{
  e_invalid, memory, pd_ep_send, in_ep, out_ep, set_transfer_data, set_transfer_length, Platform,
}
use usbdevice.Ncm.{
  ntb_empty, ntb_transferring, Bytes, get16, get32, put16, put32, nth16_sign, ndp16_sign,
  header_size, table_size, block_length_at, ndp_index_at, next_ndp_at, NcmCtx, NcmOptions, NcmApp,
  on_ncm, in_page_size, align4,
}
use usbdevice.Ncm.Filling.{Filled, IsWaiting}
use usbdevice.Ncm.Gathering.{put_all, put_all_lem}
use usbdevice.Ncm.Send.{
  alloc_datagram, put_datagram, in_data, send_ntb, fill_block, put_datagram, set_datagram, reserve,
  copy_bytes, put_lengths, put_indexes, put_headers, put_end,
}
use usbdevice.Ncm.Receive.{out_data, verify_block, is_table, is_header}
use usbdevice.Ncm.Steps.{read_all}
use usbdevice.Ncm.Arrival.{HasReceived, datagrams_arrive}
use usbdevice.Ncm.Events.{NcmEvent, put, alloc, set, take, sent, step, run}
use usbdevice.Ncm.Locked.{overflow_locks}
use usbdevice.Ncm.Space.{HasSpace, allocations_fit}
use usbdevice.Ncm.Sending.{sent_size}
use usbdevice.Ncm.Verify.{
  IsChain, LinksForward, IsClosed, table_inside, verify_block_lem, links_in_circle,
}
use usbdevice.Tests.{platform, device, get_status_setup}

abbrev options : NcmOptions
options = record { max_in_size = 2048; max_out_size = 2048 }

abbrev app : NcmApp
app = record { name = []; net_address = []; app_init = none; app_deinit = none; received = none }

-- The interface is connected, and a transfer of 64 bytes of its page 1 has ended.
abbrev card : NcmCtx
card = record {
  itf = record {
    self = 0;
    alt_selector = 1;
    out_ep_num = 0x01;
    in_ep_num = 0x81;
    not_ep_num = 0x83;
    notify_at = 100;
    connection_at = 116;
    out_at = λ n. 8000 + 4000 * n;
    in_at = λ n. 1000 + 3000 * n;
    connection = 1;
    bit_rate = 100;
    out_bytes = λ n k. 0;
    out_table = 0;
    out_page = 0;
    out_dx = 0;
    out_state = λ n. ntb_empty;
    in_bytes = λ n k. 0;
    max_size = 2048;
    rem_size = 2024;
    in_index = 12;
    in_page = 0;
    dg_count = 0;
    send_state = ntb_transferring;
    fill_state = ntb_empty;
  };
  dev = set_transfer_data (in_ep 1) 4064 (device get_status_setup 1);
}

abbrev first : List ℕ
first = 1 ∷ 2 ∷ 3 ∷ []

abbrev second : List ℕ
second = 4 ∷ 5 ∷ []

empty-Filled : Filled options [] card.itf
empty-Filled = record {
  count = refl;
  index = refl;
  room = refl;
  fits = omega arith;
  saved = _;
  stored = _;
}

card-IsWaiting : IsWaiting card.itf
card-IsWaiting = record { connected = omega arith; sending = refl; free = refl }

abbrev sent_block : Bytes
sent_block =
    (in_data platform options (in_ep 1)
        (put_all platform options (first ∷ second ∷ []) card)).itf.in_bytes
      0

-- Another card has received the block, of 52 bytes, in its page 0.
abbrev receiver : NcmCtx
receiver = record {
  itf = record card.itf { out_bytes = λ n. sent_block };
  dev =
      set_transfer_data (out_ep 1) 8052
        (set_transfer_length (out_ep 1) 52 (device get_status_setup 1));
}

block_length : 52 ≡ get16 sent_block block_length_at
unfolding put_all put_datagram alloc_datagram set_datagram reserve in_data send_ntb fill_block
    copy_bytes put_lengths put_indexes put_headers put_end get16 put16 put32
block_length = refl

receiver-HasReceived : HasReceived platform options 0 (out_ep 1) sent_block receiver
receiver-HasReceived = record {
  page = inl refl;
  pages = omega arith;
  start = refl;
  whole = block_length;
  bytes = refl;
  empty = refl;
}

datagrams_arrive_example :
    let v =
      in_data platform options (in_ep 1) (put_all platform options (first ∷ second ∷ []) card) in
    (v.dev.calls
      ≡ pd_ep_send 0x81 (memory 1000) (get16 (v.itf.in_bytes 0) block_length_at) ∷ card.dev.calls)
    × (Option.map
          (read_all platform options 3)
          (out_data platform options 1 app (out_ep 1) receiver)
        ≡ some (first ∷ second ∷ []))
datagrams_arrive_example =
    datagrams_arrive platform options options (omega arith) 0 3 0 app (in_ep 1) (out_ep 1) first
      (second ∷ []) card receiver card-IsWaiting empty-Filled (omega arith, (omega arith, _))
      (omega arith) (omega arith) (inl refl) (omega arith) refl refl receiver-HasReceived refl
      (omega arith)

two-Filled :
    Filled options (first ∷ second ∷ []) (put_all platform options (first ∷ second ∷ []) card).itf
two-Filled =
    (put_all_lem platform options (omega arith) first (second ∷ []) card card-IsWaiting empty-Filled
      (omega arith, (omega arith, _)) (omega arith) (omega arith)).0

sent_size_example :
    let c = put_all platform options (first ∷ second ∷ []) card in
    let v = send_ntb platform options c.itf.in_page c in
    let len = get16 (v.itf.in_bytes c.itf.in_page) block_length_at in
    (len + c.itf.rem_size ≡ c.itf.max_size + header_size)
    × (v.dev.calls
        ≡ pd_ep_send c.itf.in_ep_num (memory (c.itf.in_at c.itf.in_page)) len ∷ c.dev.calls)
unfolding put_all put_datagram alloc_datagram set_datagram reserve
sent_size_example =
    sent_size platform options first (second ∷ [])
      (put_all platform options (first ∷ second ∷ []) card) (omega arith) two-Filled refl

-- A block of 32 bytes, whose only table, at 12, is linked to itself.
abbrev ring : Bytes
ring = put16 18 12 (
    put16 16 16
      (put32 12 ndp16_sign (put16 10 12 (put16 8 32 (put16 4 12 (put32 0 nth16_sign (λ k. 0)))))))

abbrev ring_card : NcmCtx
ring_card = record {
  itf = record card.itf { out_bytes = λ n. ring };
  dev =
      set_transfer_data (out_ep 1) 8032
        (set_transfer_length (out_ep 1) 32 (device get_status_setup 1));
}

ring_header : is_header ring 32 ≡ true
unfolding is_header get16 get32 put16 put32
ring_header = refl

ring-IsClosed : IsClosed ring 32 (λ pt. pt ≡ 12)
unfolding is_table get16 get32 put16 put32
ring-IsClosed pt h = rw h (refl, omega arith, refl)

links_in_circle_example : out_data platform options 1000 app (out_ep 1) ring_card ≡ none
unfolding get16 put16 put32
links_in_circle_example =
    links_in_circle platform options 1000 0 app (out_ep 1) ring_card (λ pt. pt ≡ 12) refl
      ring_header ring-IsClosed refl

-- The links of all tables below an offset, tested one by one.
unfoldable are_forward : Bytes → ℕ → ℕ → Bool
are_forward b len zero = true
are_forward b len (suc n) =
    let next = get16 b (next_ndp_at n) in
    (not (is_table b len n) || (next == 0) || ltb n next) && are_forward b len n

below_or_last : (n pt : ℕ) → pt < suc n → (pt < n) ⊎ (pt ≡ n)
below_or_last n pt h = ground (arith, h)

are_forward_lem :
    (b : Bytes) (len n pt : ℕ)
    → are_forward b len n ≡ true
    → pt < n
    → is_table b len pt ≡ true
    → get16 b (next_ndp_at pt) ≢ 0
    → pt < get16 b (next_ndp_at pt)
unfolding are_forward
are_forward_lem b len zero pt h l t z = absurd (omega arith)
are_forward_lem b len (suc n) pt h l t z =
    let rest : are_forward b len n ≡ true = ground (arith, h) in
    elim (below_or_last n pt l) [
      | inl k ↦ are_forward_lem b len n pt rest k t z
      | inr k ↦
          ground (arith, h, t, z, k, ap (is_table b len) k, ap (λ m. get16 b (next_ndp_at m)) k)
    ]

sent_forward : are_forward sent_block 52 52 ≡ true
unfolding are_forward is_table put_all put_datagram alloc_datagram set_datagram reserve in_data
    send_ntb fill_block copy_bytes put_lengths put_indexes put_headers put_end get16 get32 put16
    put32
sent_forward = refl

sent-LinksForward : LinksForward sent_block 52
sent-LinksForward pt t z =
    are_forward_lem sent_block 52 52 pt sent_forward (table_inside sent_block 52 pt t) t z

verify_block_lem_example :
    (verify_block 53 sent_block 52 ≢ none)
    × ((verify_block 53 sent_block 52 ≡ some true) ↔ (
        (is_header sent_block 52 ≡ true) × IsChain sent_block 52 (get16 sent_block ndp_index_at)))
verify_block_lem_example = verify_block_lem sent_block 52 53 (omega arith) sent-LinksForward

-- The block has no room for the first datagram.
abbrev full_card : NcmCtx
full_card = on_ncm (λ i. record i { rem_size = 4 }) card

abbrev later : List NcmEvent
later = take ∷ sent (in_ep 1) ∷ put second ∷ []

overflow_locks_example :
    let (r, v) = put_datagram platform options first full_card in
    (r ≡ e_invalid)
    × (put_datagram platform options second (run platform options later v)
        ≡ (e_invalid, run platform options later v))
    × ((alloc_datagram platform options (length second) (run platform options later v)).0 ≡ none)
overflow_locks_example =
    overflow_locks platform options first second later full_card (omega arith) (omega arith) refl
      (omega arith) _

card-HasSpace : HasSpace options card.itf
card-HasSpace = record { inside = omega arith; least = omega arith; most = omega arith }

-- A datagram is put, one is allocated and completed, and the block goes out.
abbrev earlier : List NcmEvent
earlier = put first ∷ alloc 2 ∷ set ∷ sent (in_ep 1) ∷ []

allocated : (alloc_datagram platform options 10 (run platform options earlier card)).0 ≡ some 4012
unfolding run step put_datagram alloc_datagram set_datagram reserve in_data send_ntb
allocated = refl

allocations_fit_example :
    let i = (run platform options earlier card).itf in
    let v = (alloc_datagram platform options 10 (run platform options earlier card)).1.itf in
    (4012 ≡ i.in_at i.in_page + i.in_index)
    × (i.in_index + 10 ≤ in_page_size options - 4 * (i.dg_count + 1))
    × (v.in_index ≡ i.in_index + align4 10)
    × (v.in_index + table_size + 4 * v.dg_count ≤ in_page_size options)
allocations_fit_example =
    allocations_fit platform options (omega arith) earlier 10 4012 card card-HasSpace _ allocated

-- A build with room for four interfaces.
abbrev wide_platform : Platform
wide_platform = record platform { max_if_count = 4 }
