-- ===== src/Console.antt =====
-- The template of a console on a serial port, Templates/console_if.c: two ring buffers between the standard
-- streams and the transfers.
pub mod Streams
pub mod Fetch
pub mod Queue
use usbdevice.Base.{
  ℕ, zero, suc, ◌+◌, ◌-◌, ◌%◌, Bool, true, false, List, [], ◌∷◌, ◌++◌, length, take, drop, ltb, leb,
  not, ◌&&◌, ◌==◌, if◌then◌else◌,
}
use usbdevice.Device.{memory, Platform}
use usbdevice.Cdc.{CdcCtx, CdcOptions, CdcApp, transmit, receive}
use usbdevice.Ncm.{Bytes}
use usbdevice.Ncm.Bytes.{read_bytes}
use usbdevice.Ncm.Send.{copy_bytes}

-- `console_if_IN` and `console_if_OUT`: `at` is the address of the buffer, which has one byte more than
-- `size`, STDOUT_BUFFER_SIZE or STDIN_BUFFER_SIZE.
pub record Ring : Type 0 where
  pub size : ℕ
  pub at : ℕ
  pub head : ℕ
  pub tail : ℕ
  pub buffer : Bytes

pub record Console : Type 0 where
  pub input : Ring
  pub output : Ring
  pub port : CdcCtx

-- What `_write` and `_read` return, with `errno` when it is -1.
pub data Outcome : Type 0 where
  done : ℕ → Outcome
  io_error no_memory : Outcome

abbrev pub is_closed : Console → Bool
is_closed c = c.port.itf.line_coding.data_bits == 0

-- The lengths of the two chunks of `_write`.
unfoldable pub first_free : Ring → ℕ → ℕ
first_free r len =
    let before = r.tail - r.head - 1 in
    if ltb r.head r.tail
    then (if ltb len before then len else before)
    else (if leb len (r.size - r.head) then len else r.size - r.head)

unfoldable pub second_free : Ring → ℕ → ℕ
second_free r len =
    let first = r.size - r.head in
    if ltb r.head r.tail
    then 0
    else if leb len first
    then 0
    else if ltb len (first + r.tail)
    then len - first
    else r.tail

-- The bytes of `_write` that the buffer takes.
unfoldable pub store : List ℕ → Ring → Ring
store xs r =
    let n = first_free r (length xs) in
    let m = second_free r (length xs) in
    let b = copy_bytes (take n xs) (r.head + 1) r.buffer in
    if ltb 0 m
    then record r { buffer = copy_bytes (take m (drop n xs)) 0 b; head = m - 1 }
    else record r { buffer = b; head = r.head + n }

-- The lengths of the two chunks of `_read`.
unfoldable pub first_used : Ring → ℕ → ℕ
first_used r len =
    let held = r.head - r.tail in
    if leb r.tail r.head
    then (if ltb len held then len else held)
    else (if leb len (r.size - r.tail) then len else r.size - r.tail)

unfoldable pub second_used : Ring → ℕ → ℕ
second_used r len =
    let first = r.size - r.tail in
    if leb r.tail r.head
    then 0
    else if leb len first
    then 0
    else if ltb len (first + r.head + 1)
    then len - first
    else r.head + 1

-- The bytes that `_read` copies, and the buffer after it.
unfoldable pub fetch : ℕ → Ring → List ℕ × Ring
fetch len r =
    let n = first_used r len in
    let m = second_used r len in
    (
      read_bytes r.buffer (r.tail + 1) n ++ read_bytes r.buffer 0 m,
      record r { tail = if ltb 0 m then m - 1 else r.tail + n },
    )

-- The free space that `_write` tests.
abbrev pub room : Ring → ℕ
room r = if ltb r.head r.tail then r.tail - r.head - 1 else r.size - (r.head - r.tail)

module _ (p : Platform) (o : CdcOptions) (app : CdcApp) where
  -- `console_if_send`: the first part of what is held.
  unfoldable pub console_send : Console → Console
  console_send c =
      let r = c.input in
      let whole = leb r.tail r.head in
      let wrapped = not whole && not (ltb r.tail r.size) in
      let len =
        if whole then r.head - r.tail else if wrapped then r.head + 1 else r.size - r.tail in
      let start = if wrapped then 0 else r.tail + 1 in
      if ltb 0 len
      then record c { port = (transmit p o app (memory (r.at + start)) len c.port).1 }
      else c

  -- `console_if_in_cmplt`
  unfoldable pub in_complete : ℕ → Console → Console
  in_complete len c =
      let r = c.input in
      console_send (record c {
        input = record r {
          tail = (if ltb r.tail r.size then r.tail + len else len + 65535) % 65536;
        };
      })

  -- `_write`
  unfoldable pub write : List ℕ → Console → Outcome × Console
  write xs c =
      if is_closed c
      then (io_error, c)
      else if ltb (room c.input) (length xs)
      then (no_memory, c)
      else (
        done (first_free c.input (length xs) + second_free c.input (length xs)),
        console_send (record c { input = store xs c.input }),
      )

  -- `console_if_recv`: reception into the first free part.
  unfoldable pub console_recv : Console → Console
  console_recv c =
      let r = c.output in
      let before = ltb r.head r.tail in
      let wrapped = not before && not (ltb r.head r.size) in
      let len =
        if before then r.tail - r.head - 1 else if wrapped then r.tail else r.size - r.head in
      let start = if wrapped then 0 else r.head + 1 in
      if ltb 0 len
      then record c { port = (receive p o app (memory (r.at + start)) len c.port).1 }
      else c

  -- `console_if_out_cmplt`
  unfoldable pub out_complete : ℕ → Console → Console
  out_complete len c =
      let r = c.output in
      console_recv (record c {
        output = record r {
          head = (if ltb r.head r.size then r.head + len else len + 65535) % 65536;
        };
      })

  -- `_read`
  unfoldable pub read : ℕ → Console → List ℕ × (Outcome × Console)
  read len c =
      let (xs, r) = fetch len c.output in
      let n = first_used c.output len + second_used c.output len in
      let v = record c { output = r } in
      if is_closed c
      then ([], (io_error, c))
      else (xs, (done n, if ltb 0 n then console_recv v else v))

  -- `console_if_open`
  unfoldable pub console_open : Console → Console
  console_open c = console_recv (record c {
    input = record c.input { head = 0; tail = 0 };
    output = record c.output { head = 0; tail = 0 };
  })
