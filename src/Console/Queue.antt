-- ===== src/Console/Queue.antt =====
-- The ring buffers of the console as queues.
use usbdevice.Base.{
  ℕ, zero, suc, ◌+◌, ◌-◌, ◌≤◌, ◌<◌, ◌≡◌, ◌⊎◌, inl, inr, refl, ◌∙◌, ap, arith, List, [], ◌∷◌, length,
  take, drop, get_or, ltb, leb, if◌then◌else◌, update, update_self, length-take, length-drop, true,
  false,
}
use usbdevice.Ncm.{Bytes}
use usbdevice.Ncm.Filling.{byte-copy_bytes_ne}
use usbdevice.Ncm.Send.{copy_bytes}
use usbdevice.Console.{Ring, first_free, second_free, store, room}

-- A place of the ring by its distance from the start, for at most two rounds.
abbrev pub slot : Ring → ℕ → ℕ
slot r j = if leb j r.size then j else j - (r.size + 1)

-- The number of bytes that the ring holds, and the byte `k` of them.
abbrev pub held : Ring → ℕ
held r = if leb r.tail r.head then r.head - r.tail else r.head + r.size + 1 - r.tail

abbrev pub byte_of : Ring → ℕ → ℕ
byte_of r k = r.buffer (slot r (r.tail + 1 + k))

pub record IsRing (r : Ring) : Type 0 where
  pub head_inside : r.head ≤ r.size
  pub tail_inside : r.tail ≤ r.size

copied :
    (xs : List ℕ) (at k : ℕ) (b : Bytes)
    → k < length xs
    → copy_bytes xs at b (at + k) ≡ get_or xs k 0
unfolding copy_bytes
copied [] at k b h = absurd (omega arith)
copied (x ∷ xs) at zero b h =
    let same : at + 0 ≡ at = omega arith in
    ap (copy_bytes xs (at + 1) (update b at x)) same
    ∙ (byte-copy_bytes_ne xs (at + 1) at (update b at x) (inl (omega arith)) ∙ update_self b at x)
copied (x ∷ xs) at (suc k) b h =
    let same : at + suc k ≡ at + 1 + k = omega arith in
    ap (copy_bytes xs (at + 1) (update b at x)) same
    ∙ copied xs (at + 1) k (update b at x) (omega arith)

get_or-take : (n k : ℕ) (xs : List ℕ) → k < n → get_or (take n xs) k 0 ≡ get_or xs k 0
get_or-take zero k xs h = absurd (omega arith)
get_or-take (suc n) k [] h = refl
get_or-take (suc n) zero (x ∷ xs) h = refl
get_or-take (suc n) (suc k) (x ∷ xs) h = get_or-take n k xs (omega arith)

get_or-drop : (n k m : ℕ) (xs : List ℕ) → m ≡ n + k → get_or (drop n xs) k 0 ≡ get_or xs m 0
get_or-drop zero k m xs h = let same : k ≡ m = omega (arith, h) in ap (λ j. get_or xs j 0) same
get_or-drop (suc n) k m [] h = refl
get_or-drop (suc n) k zero (x ∷ xs) h = absurd (omega arith)
get_or-drop (suc n) k (suc m) (x ∷ xs) h = get_or-drop n k m xs (omega arith)

-- The chunks of a write that has room: the first one ends in the buffer, and the second one is empty, or
-- the first one ends with the buffer and the second one before the bytes that are held.
pub record Chunks (r : Ring) (len n m : ℕ) : Type 0 where
  pub whole : n + m ≡ len
  pub inside : r.head + n ≤ r.size
  pub kept : (m ≡ 0) ⊎ ((0 < m) × (r.head + n ≡ r.size) × (m ≤ r.tail) × (r.tail ≤ r.head))

pub write-Chunks :
    (r : Ring) (len : ℕ)
    → IsRing r
    → len ≤ room r
    → Chunks r len (first_free r len) (second_free r len)
unfolding first_free second_free
write-Chunks r len w h = record {
  whole = ground (arith, w.head_inside, w.tail_inside, h);
  inside = ground (arith, w.head_inside, w.tail_inside, h);
  kept = ground (arith, w.head_inside, w.tail_inside, h);
}

-- The ring after two chunks.
abbrev after : List ℕ → ℕ → ℕ → Ring → Ring
after xs n m r =
    let b = copy_bytes (take n xs) (r.head + 1) r.buffer in
    if ltb 0 m
    then record r { buffer = copy_bytes (take m (drop n xs)) 0 b; head = m - 1 }
    else record r { buffer = b; head = r.head + n }

-- The bytes of `v` behind those of `r` are `xs`.
pub record HasPut (xs : List ℕ) (r v : Ring) : Type 0 where
  pub size : v.size ≡ r.size
  pub tail : v.tail ≡ r.tail
  pub ring : IsRing v
  pub count : held v ≡ held r + length xs
  pub old : (k : ℕ) → k < held r → byte_of v k ≡ byte_of r k
  pub new : (k : ℕ) → k < length xs → byte_of v (held r + k) ≡ get_or xs k 0

pub in_first : (k n : ℕ) → (k < n) ⊎ (n ≤ k)
in_first k n = ground arith

-- The first chunk, of which `k` is a byte.
first_byte :
    (xs : List ℕ) (n at k : ℕ) (b : Bytes)
    → n ≤ length xs
    → k < n
    → copy_bytes (take n xs) at b (at + k) ≡ get_or xs k 0
first_byte xs n at k b h l =
    copied (take n xs) at k b (omega (arith, length-take n xs)) ∙ get_or-take n k xs l

one_chunk :
    (xs : List ℕ) (n : ℕ) (r : Ring)
    → IsRing r
    → n ≡ length xs
    → r.head + n ≤ r.size
    → length xs ≤ room r
    → HasPut xs r
        (record r { buffer = copy_bytes (take n xs) (r.head + 1) r.buffer; head = r.head + n })
one_chunk xs n r w e f h =
    let v : Ring = record r {
      buffer = copy_bytes (take n xs) (r.head + 1) r.buffer;
      head = r.head + n;
    } in
    let hi = w.head_inside in
    let lo = w.tail_inside in
    let len : length (take n xs) ≡ n = omega (arith, length-take n xs, e) in
    record {
      size = refl;
      tail = refl;
      ring = record { head_inside = f; tail_inside = lo };
      count = ground (arith, hi, lo, h, f, e);
      old = λ k l.
          byte-copy_bytes_ne (take n xs) (r.head + 1) (slot r (r.tail + 1 + k)) r.buffer
            (ground (arith, hi, lo, h, f, l, len));
      new = λ k l.
          let place : slot r (r.tail + 1 + (held r + k)) ≡ r.head + 1 + k =
            ground (arith, hi, lo, h, f, l, e) in
          ap v.buffer place
          ∙ first_byte xs n (r.head + 1) k r.buffer (omega (arith, e)) (omega (arith, e, l));
    }

two_chunks :
    (xs : List ℕ) (n m : ℕ) (r : Ring)
    → IsRing r
    → n + m ≡ length xs
    → 0 < m
    → r.head + n ≡ r.size
    → m ≤ r.tail
    → r.tail ≤ r.head
    → HasPut xs r (record r {
      buffer = copy_bytes (take m (drop n xs)) 0 (copy_bytes (take n xs) (r.head + 1) r.buffer);
      head = m - 1;
    })
two_chunks xs n m r w e pos f low ord =
    let b = copy_bytes (take n xs) (r.head + 1) r.buffer in
    let c = copy_bytes (take m (drop n xs)) 0 b in
    let hi = w.head_inside in
    let lo = w.tail_inside in
    let len : length (take n xs) ≡ n = omega (arith, length-take n xs, e) in
    let len' : length (take m (drop n xs)) ≡ m =
      omega (arith, length-take m (drop n xs), length-drop n xs, e) in
    record {
      size = refl;
      tail = refl;
      ring = record { head_inside = omega (arith, low, lo); tail_inside = lo };
      count = ground (arith, hi, lo, e, pos, f, low, ord);
      old = λ k l.
          let below : k < r.head - r.tail = ground (arith, l, ord) in
          let place : slot r (r.tail + 1 + k) ≡ r.tail + 1 + k = ground (arith, hi, below) in
          byte-copy_bytes_ne (take m (drop n xs)) 0 (slot r (r.tail + 1 + k)) b
            (inr (omega (arith, len', place, low)))
          ∙ byte-copy_bytes_ne (take n xs) (r.head + 1) (slot r (r.tail + 1 + k)) r.buffer
              (inl (omega (arith, place, below)));
      new = λ k l. elim (in_first k n) [
        | inl s ↦
            let place : slot r (r.tail + 1 + (held r + k)) ≡ r.head + 1 + k =
              ground (arith, ord, f, s) in
            ap c place
            ∙ (byte-copy_bytes_ne (take m (drop n xs)) 0 (r.head + 1 + k) b
                  (inr (omega (arith, len', low, ord)))
                ∙ first_byte xs n (r.head + 1) k r.buffer (omega (arith, e)) s)
        | inr s ↦
            let place : slot r (r.tail + 1 + (held r + k)) ≡ 0 + (k - n) =
              ground (arith, ord, f, s) in
            ap c place
            ∙ (first_byte (drop n xs) m 0 (k - n) b (omega (arith, length-drop n xs, e))
                  (omega (arith, l, e, s))
                ∙ get_or-drop n (k - n) k xs (omega (arith, s)))
      ];
    }

pub store-HasPut :
    (xs : List ℕ) (r : Ring) → IsRing r → length xs ≤ room r → HasPut xs r (store xs r)
unfolding store
store-HasPut xs r w h =
    let n = first_free r (length xs) in
    let m = second_free r (length xs) in
    let c = write-Chunks r (length xs) w h in
    elim c.kept [
      | inl z ↦
          let none_left : ltb 0 m ≡ false = ground (arith, z) in
          rw none_left (one_chunk xs n r w (omega (arith, c.whole, z)) c.inside h)
      | inr (pos, f, low, ord) ↦
          let some_left : ltb 0 m ≡ true = ground (arith, pos) in
          rw some_left (two_chunks xs n m r w c.whole pos f low ord)
    ]
