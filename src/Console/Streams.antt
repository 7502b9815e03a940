-- ===== src/Console/Streams.antt =====
-- The standard streams: `_write` and `_read` of the console.
use usbdevice.Base.{
  ℕ, ◌+◌, ◌≤◌, ◌≡◌, refl, sym, ap, subst, arith, List, length, ltb, Bool, true, false,
  if◌then◌else◌,
}
use usbdevice.Device.{Platform}
use usbdevice.Cdc.{CdcOptions, CdcApp}
use usbdevice.Ncm.Bytes.{read_bytes}
use usbdevice.Console.{
  Console, done, Ring, room, store, first_used, second_used, fetch, is_closed, console_send,
  console_recv, write, read,
}
use usbdevice.Console.Queue.{IsRing, HasPut, write-Chunks, store-HasPut}
use usbdevice.Console.Fetch.{HasTaken, fetch-HasTaken, length-read_bytes, length-append}

module _ (p : Platform) (o : CdcOptions) (app : CdcApp) where
  send_keeps : (c : Console) → (console_send p o app c).input ≡ c.input
  unfolding console_send
  send_keeps c = ground arith

  recv_keeps : (c : Console) → (console_recv p o app c).output ≡ c.output
  unfolding console_recv
  recv_keeps c = ground arith

  recv_or_not :
      (b : Bool) (c : Console) → (if b then console_recv p o app c else c).output ≡ c.output
  recv_or_not true c = recv_keeps c
  recv_or_not false c = refl

  fetched : (len : ℕ) (r : Ring) → first_used r len + second_used r len ≡ length (fetch len r).0
  unfolding fetch
  fetched len r =
      let first = read_bytes r.buffer (r.tail + 1) (first_used r len) in
      let second = read_bytes r.buffer 0 (second_used r len) in
      omega (
        arith,
        length-append first second,
        length-read_bytes r.buffer (r.tail + 1) (first_used r len),
        length-read_bytes r.buffer 0 (second_used r len),
      )

  -- What `_write` is given and has room for stands behind the bytes that the buffer has held, which stay
  -- as they were, and `_write` returns its length, when the port is open.
  pub write_queues :
      (xs : List ℕ) (c : Console)
      → IsRing c.input
      → is_closed c ≡ false
      → length xs ≤ room c.input
      → let (r, v) = write p o app xs c in (r ≡ done (length xs)) × HasPut xs c.input v.input
  unfolding write
  write_queues xs c w opened h =
      let fits : ltb (room c.input) (length xs) ≡ false = ground (arith, h) in
      let all = (write-Chunks c.input (length xs) w h).whole in
      let stored = store-HasPut xs c.input w h in
      let v = record c { input = store xs c.input } in
      rw (opened, fits) (ap done all, subst (λ r. HasPut xs c.input r) (sym (send_keeps v)) stored)

  -- `_read` returns the bytes that the buffer has held first, as many as are asked for or there are, and
  -- leaves the others in their order, when the port is open.
  pub read_dequeues :
      (len : ℕ) (c : Console)
      → IsRing c.output
      → is_closed c ≡ false
      → let (xs, (r, v)) = read p o app len c in
        (r ≡ done (length xs)) × HasTaken len c.output xs v.output
  unfolding read
  read_dequeues len c w opened =
      let (xs, r) = fetch len c.output in
      let v = record c { output = r } in
      let n = first_used c.output len + second_used c.output len in
      let taken = fetch-HasTaken len c.output w in
      let kept : (if ltb 0 n then console_recv p o app v else v).output ≡ r =
        recv_or_not (ltb 0 n) v in
      rw opened
        (ap done (fetched len c.output), subst (λ q. HasTaken len c.output xs q) (sym kept) taken)
