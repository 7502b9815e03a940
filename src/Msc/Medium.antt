-- ===== src/Msc/Medium.antt =====
-- The blocks that the logical units are asked to read and to write.
use usbdevice.Base.{
  ℕ, ◌+◌, ◌*◌, ◌/◌, ◌%◌, ◌≤◌, ◌<◌, ◌≡◌, ◌≢◌, Bool, true, false, refl, List, [], ◌∷◌, arith,
}
use native.Mathlib.Nat.{div-mul-le_self, le_of_mul-le-mul_right, mul-le-mul_right}
use usbdevice.Device.{Platform}
use usbdevice.Msc.{
  MscState, data_in, data_out, LuCall, lu_read, lu_write, LogicalUnit, Msc, MscCtx, current,
  word_mod,
}
use usbdevice.Msc.Blocks.{
  is_past, send_csw, receive_cbw, block_addr, transfer_len, read10, write10, in_data, process_read,
  process_write, put_sense_code, aim, read_part, write_part, move_on, part_length,
}

div_add_le : (a l b c : ℕ) → 0 < b → a + l ≤ c * b → a / b + l / b ≤ c
div_add_le a l b c pos h = le_of_mul-le-mul_right scaled pos
  where
    scaled : (a / b + l / b) * b ≤ c * b
    scaled = ground (arith, div-mul-le_self a b, div-mul-le_self l b)

-- A call stays within the blocks of its unit.
abbrev pub InUnit : (ℕ → LogicalUnit) → LuCall → Type 0
InUnit lus (lu_read lun block n) = block + n ≤ (lus lun).block_count
InUnit lus (lu_write lun bytes block n) = block + n ≤ (lus lun).block_count
InUnit lus _ = Unit

abbrev pub AllInUnit : (ℕ → LogicalUnit) → List LuCall → Type 0
AllInUnit lus [] = Unit
AllInUnit lus (x ∷ xs) = InUnit lus x × AllInUnit lus xs

-- The bytes of the current unit are counted in 32 bits.
abbrev pub IsSized : LogicalUnit → Type 0
IsSized lu = (0 < lu.block_size) × (lu.block_count * lu.block_size < word_mod)

abbrev pub is_moving : MscState → Bool
is_moving data_in = true
is_moving data_out = true
is_moving _ = false

-- The rest of a transfer, and all calls so far, stay within the units.
pub record InMedium (i : Msc) : Type 0 where
  pub sized : IsSized (current i)
  pub rest :
      is_moving i.state ≡ true
      → i.address + i.rem_length ≤ (current i).block_count * (current i).block_size
  pub inside : AllInUnit i.lus i.log

part_inside :
    (i : Msc)
    → is_moving i.state ≡ true
    → InMedium i
    → i.address / (current i).block_size + part_length i / (current i).block_size % 65536
      ≤ (current i).block_count
part_inside i m v =
    let pos = v.sized.0 in
    let rest = v.rest m in
    let fit =
      div_add_le i.address (part_length i) (current i).block_size (current i).block_count pos
        (ground arith) in
    ground arith

process_read-InMedium :
    (p : Platform) (c : MscCtx)
    → is_moving c.itf.state ≡ true
    → InMedium c.itf
    → InMedium (process_read p c).1.itf
unfolding process_read read_part move_on put_sense_code
process_read-InMedium p c m v = ground (arith, part_inside c.itf m v)

pub process_write-InMedium :
    (p : Platform) (c : MscCtx)
    → is_moving c.itf.state ≡ true
    → InMedium c.itf
    → InMedium (process_write p c).1.itf
unfolding process_write write_part move_on put_sense_code
process_write-InMedium p c m v = ground (arith, part_inside c.itf m v)

pub in_data-InMedium : (p : Platform) (c : MscCtx) → InMedium c.itf → InMedium (in_data p c).itf
unfolding in_data send_csw receive_cbw
in_data-InMedium p c v = ground (arith, process_read-InMedium p c)

-- The place that a command aims at lies within the unit, unless the sum of its block address and its
-- length wraps around.
aim_lem :
    (i : Msc)
    → IsSized (current i)
    → block_addr i + transfer_len i < word_mod
    → is_past i ≡ false
    → (aim i).address + (aim i).rem_length ≤ (current i).block_count * (current i).block_size
unfolding aim
aim_lem i z w h =
    let size = (current i).block_size in
    let scaled =
      mul-le-mul_right {m = block_addr i + transfer_len i} {n = (current i).block_count} size
        (ground arith) in
    ground (arith, scaled)

started-InMedium :
    (i : Msc) (s : MscState)
    → InMedium i
    → block_addr i + transfer_len i < word_mod
    → is_past i ≡ false
    → InMedium (record (aim i) { state = s })
unfolding aim
started-InMedium i s v w h = ground (arith, aim_lem i v.sized w h)

pub read10-InMedium :
    (p : Platform) (c : MscCtx)
    → is_moving c.itf.state ≡ false
    → block_addr c.itf + transfer_len c.itf < word_mod
    → InMedium c.itf
    → InMedium (read10 p c).1.itf
unfolding read10 put_sense_code aim
read10-InMedium p c m w v =
    let d = record c { itf = record (aim c.itf) { state = data_in } } in
    let started : is_past c.itf ≡ false → InMedium (process_read p d).1.itf =
      λ h. process_read-InMedium p d refl (started-InMedium c.itf data_in v w h) in
    ground (arith, started)

pub write10-InMedium :
    (p : Platform) (c : MscCtx)
    → is_moving c.itf.state ≡ false
    → block_addr c.itf + transfer_len c.itf < word_mod
    → InMedium c.itf
    → InMedium (write10 p c).1.itf
unfolding write10 put_sense_code aim
write10-InMedium p c m w v = ground (arith, started-InMedium c.itf data_out v w)

-- READ(10) and WRITE(10), in every branch, have the unit read and write its own blocks only, and leave
-- a transfer that lies within them: for a command whose block address and length do not wrap around in
-- 32 bits, and a unit whose size in bytes fits in 32 bits.
pub commands_stay :
    (p : Platform) (c : MscCtx)
    → InMedium c.itf
    → is_moving c.itf.state ≡ false
    → block_addr c.itf + transfer_len c.itf < word_mod
    → InMedium (read10 p c).1.itf × InMedium (write10 p c).1.itf
commands_stay p c v m w = (read10-InMedium p c m w v, write10-InMedium p c m w v)

-- During a transfer that lies within the unit, the next part, read or written, does so too, and so does
-- what remains of the transfer.
pub parts_stay :
    (p : Platform) (c : MscCtx)
    → InMedium c.itf
    → is_moving c.itf.state ≡ true
    → InMedium (in_data p c).itf × InMedium (process_write p c).1.itf
parts_stay p c v m = (in_data-InMedium p c v, process_write-InMedium p c m v)

-- The sum of block address and length is taken in 32 bits: a READ(10) of one block at the address
-- 0xFFFFFFFF passes the test of the range on every unit with blocks of 512 bytes, however small it is,
-- and has the unit read the block 0x7FFFFF.
pub read10_wraps :
    (p : Platform) (c : MscCtx)
    → (current c.itf).block_size ≡ 512
    → (current c.itf).is_ready ≡ true
    → c.itf.cbw.flags ≢ 0
    → c.itf.cbw.data_length ≡ 512
    → block_addr c.itf ≡ 0xFFFFFFFF
    → transfer_len c.itf ≡ 1
    → (read10 p c).1.itf.log ≡ lu_read c.itf.cbw.lun 0x7FFFFF 1 ∷ c.itf.log
unfolding read10 aim process_read read_part move_on put_sense_code
read10_wraps p c s r f d a t = ground arith
