-- ===== src/Console/Fetch.antt =====
-- What `_read` takes out of a ring buffer.
use usbdevice.Base.{
  ℕ, zero, suc, ◌+◌, ◌-◌, ◌≤◌, ◌<◌, ◌≡◌, ◌⊎◌, inl, inr, refl, ◌∙◌, ap, arith, List, [], ◌∷◌, ◌++◌,
  length, get_or, min,
}
use usbdevice.Ncm.{Bytes}
use usbdevice.Ncm.Bytes.{read_bytes}
use usbdevice.Console.Queue.{slot, held, byte_of, IsRing, in_first}
use usbdevice.Console.{Ring, first_used, second_used, fetch}

-- The bytes `xs` are the first of `r`, and `v` holds the rest.
pub record HasTaken (len : ℕ) (r : Ring) (xs : List ℕ) (v : Ring) : Type 0 where
  pub ring : IsRing v
  pub count : length xs ≡ min len (held r)
  pub left : held v + length xs ≡ held r
  pub taken : (k : ℕ) → k < length xs → get_or xs k 0 ≡ byte_of r k
  pub rest : (k : ℕ) → k < held v → byte_of v k ≡ byte_of r (length xs + k)

pub length-read_bytes : (b : Bytes) (at n : ℕ) → length (read_bytes b at n) ≡ n
unfolding read_bytes
length-read_bytes b at zero = refl
length-read_bytes b at (suc n) = omega (arith, length-read_bytes b (at + 1) n)

get_or-read_bytes : (b : Bytes) (at n k : ℕ) → k < n → get_or (read_bytes b at n) k 0 ≡ b (at + k)
unfolding read_bytes
get_or-read_bytes b at zero k h = absurd (omega arith)
get_or-read_bytes b at (suc n) zero h = let same : at ≡ at + 0 = omega arith in ap b same
get_or-read_bytes b at (suc n) (suc k) h =
    let same : at + 1 + k ≡ at + suc k = omega arith in
    get_or-read_bytes b (at + 1) n k (omega arith) ∙ ap b same

pub length-append : (xs ys : List ℕ) → length (xs ++ ys) ≡ length xs + length ys
length-append [] ys = omega arith
length-append (x ∷ xs) ys = omega (arith, length-append xs ys)

get_or-append_first :
    (xs ys : List ℕ) (k : ℕ) → k < length xs → get_or (xs ++ ys) k 0 ≡ get_or xs k 0
get_or-append_first [] ys k h = absurd (omega arith)
get_or-append_first (x ∷ xs) ys zero h = refl
get_or-append_first (x ∷ xs) ys (suc k) h = get_or-append_first xs ys k (omega arith)

get_or-append_later :
    (xs ys : List ℕ) (k j : ℕ) → k ≡ length xs + j → get_or (xs ++ ys) k 0 ≡ get_or ys j 0
get_or-append_later [] ys k j h =
    let same : k ≡ j = omega (arith, h) in ap (λ i. get_or ys i 0) same
get_or-append_later (x ∷ xs) ys zero j h = absurd (omega arith)
get_or-append_later (x ∷ xs) ys (suc k) j h = get_or-append_later xs ys k j (omega arith)

-- The chunks of a read, whose sum is what is asked for or what there is.
record Parts (r : Ring) (len n m : ℕ) : Type 0 where
  whole : n + m ≡ min len (held r)
  inside : r.tail + n ≤ r.size
  kept : (m ≡ 0) ⊎ ((0 < m) × (r.tail + n ≡ r.size) × (m ≤ r.head + 1) × (r.head < r.tail))

read-Parts : (r : Ring) (len : ℕ) → IsRing r → Parts r len (first_used r len) (second_used r len)
unfolding first_used second_used
read-Parts r len w = record {
  whole = ground (arith, w.head_inside, w.tail_inside);
  inside = ground (arith, w.head_inside, w.tail_inside);
  kept = ground (arith, w.head_inside, w.tail_inside);
}

pub fetch-HasTaken :
    (len : ℕ) (r : Ring) → IsRing r → HasTaken len r (fetch len r).0 (fetch len r).1
unfolding fetch
fetch-HasTaken len r w =
    let n = first_used r len in
    let m = second_used r len in
    let c = read-Parts r len w in
    let first = read_bytes r.buffer (r.tail + 1) n in
    let second = read_bytes r.buffer 0 m in
    let size : length (first ++ second) ≡ n + m =
      length-append first second
      ∙ omega (arith, length-read_bytes r.buffer (r.tail + 1) n, length-read_bytes r.buffer 0 m) in
    record {
      ring = record {
        head_inside = w.head_inside;
        tail_inside = ground (arith, c.inside, c.kept, w.head_inside);
      };
      count = size ∙ c.whole;
      left = ground (arith, size, c.whole, c.inside, c.kept, w.head_inside, w.tail_inside);
      taken = λ k l. elim (in_first k n) [
        | inl f ↦
            let place : r.tail + 1 + k ≡ slot r (r.tail + 1 + k) = ground (arith, c.inside, f) in
            get_or-append_first first second k
              (omega (arith, f, length-read_bytes r.buffer (r.tail + 1) n))
            ∙ (get_or-read_bytes r.buffer (r.tail + 1) n k f ∙ ap r.buffer place)
        | inr f ↦
            let place : 0 + (k - n) ≡ slot r (r.tail + 1 + k) =
              ground (arith, c.inside, c.kept, f, l, size) in
            get_or-append_later first second k (k - n)
              (omega (arith, f, length-read_bytes r.buffer (r.tail + 1) n))
            ∙ (get_or-read_bytes r.buffer 0 m (k - n) (omega (arith, l, size, f))
                ∙ ap r.buffer place)
      ];
      rest = λ k l.
          ap r.buffer
            (ground (arith, l, size, c.whole, c.inside, c.kept, w.head_inside, w.tail_inside));
    }
