-- ===== src/Ncm/Filling.antt =====
-- Datagrams that are put while the last block is under way: they gather in the free page.
use usbdevice.Base.{
  ℕ, ◌+◌, ◌-◌, ◌*◌, ◌%◌, ◌≤◌, ◌<◌, ◌≡◌, ◌≢◌, ◌∙◌, ◌⊎◌, inl, inr, ap, sym, refl, arith, false, List,
  [], ◌∷◌, length, update, update_self,
}
use usbdevice.Device.{e_ok, Platform}
use usbdevice.Ncm.{
  ntb_processing, ntb_ready, is_ntb_empty, is_ntb_processing, Bytes, get16, put16, header_size,
  table_size, Ncm, NcmCtx, NcmOptions, in_page_size, align4,
}
use usbdevice.Ncm.Bytes.{Same, get16-put16_self, byte-put16_ne, get16-Same, read_bytes}
use usbdevice.Ncm.Send.{saved_at, reserve, alloc_datagram, set_datagram, copy_bytes, put_datagram}
use usbdevice.Ncm.Layout.{end_of, Saved, Saved-Same, Stored, Stored-Same}

-- One more datagram.
abbrev pub snoc : List (List ℕ) → List ℕ → List (List ℕ)
snoc [] xs = xs ∷ []
snoc (ys ∷ yss) xs = ys ∷ snoc yss xs

length-snoc : (xss : List (List ℕ)) (xs : List ℕ) → length (snoc xss xs) ≡ length xss + 1
length-snoc [] xs = omega arith
length-snoc (ys ∷ yss) xs = omega (arith, length-snoc yss xs)

end_of-snoc :
    (at : ℕ) (xss : List (List ℕ)) (xs : List ℕ)
    → end_of at (snoc xss xs) ≡ end_of at xss + align4 (length xs)
end_of-snoc at [] xs = refl
end_of-snoc at (ys ∷ yss) xs = end_of-snoc (at + align4 (length ys)) yss xs

Saved-snoc :
    (size k : ℕ) (xss : List (List ℕ)) (xs : List ℕ) (b : Bytes)
    → Saved size k xss b
    → get16 b (saved_at size (k + length xss)) ≡ length xs
    → Saved size k (snoc xss xs) b
Saved-snoc size k [] xs b s e = (ap (λ n. get16 b (saved_at size n)) (omega arith) ∙ e, tt)
Saved-snoc size k (ys ∷ yss) xs b s e = (
  s.0,
  Saved-snoc size (k + 1) yss xs b s.1 (ap (λ n. get16 b (saved_at size n)) (omega arith) ∙ e),
)

Stored-snoc :
    (at : ℕ) (xss : List (List ℕ)) (xs : List ℕ) (b : Bytes)
    → Stored at xss b
    → read_bytes b (end_of at xss) (length xs) ≡ xs
    → Stored at (snoc xss xs) b
Stored-snoc at [] xs b s e = (e, tt)
Stored-snoc at (ys ∷ yss) xs b s e = (s.0, Stored-snoc (at + align4 (length ys)) yss xs b s.1 e)

-- `memcpy` leaves the rest as it is, and what it copies can be read back.
pub byte-copy_bytes_ne :
    (xs : List ℕ) (at j : ℕ) (b : Bytes)
    → (j < at) ⊎ (at + length xs ≤ j)
    → copy_bytes xs at b j ≡ b j
unfolding copy_bytes
byte-copy_bytes_ne [] at j b h = refl
byte-copy_bytes_ne (x ∷ xs) at j b (inl h) =
    byte-copy_bytes_ne xs (at + 1) j (update b at x) (inl (omega arith)) ∙ ground arith
byte-copy_bytes_ne (x ∷ xs) at j b (inr h) =
    byte-copy_bytes_ne xs (at + 1) j (update b at x) (inr (omega arith)) ∙ ground arith

read_bytes-copy_bytes :
    (xs : List ℕ) (at : ℕ) (b : Bytes) → read_bytes (copy_bytes xs at b) at (length xs) ≡ xs
unfolding copy_bytes read_bytes
read_bytes-copy_bytes [] at b = refl
read_bytes-copy_bytes (x ∷ xs) at b =
    let b1 = update b at x in
    let first = byte-copy_bytes_ne xs (at + 1) at b1 (inl (omega arith)) ∙ update_self b at x in
    λ i. first i ∷ read_bytes-copy_bytes xs (at + 1) b1 i

-- The page that is filled holds these datagrams, and the rest of the block has room.
pub record Filled (o : NcmOptions) (xss : List (List ℕ)) (i : Ncm) : Type 0 where
  pub count : i.dg_count ≡ length xss
  pub index : i.in_index ≡ end_of header_size xss
  pub room : i.rem_size + i.in_index + table_size + 4 * length xss ≡ i.max_size
  pub fits : i.max_size ≤ in_page_size o
  pub saved : Saved (in_page_size o) 0 xss (i.in_bytes i.in_page)
  pub stored : Stored header_size xss (i.in_bytes i.in_page)

-- The interface is connected, and the other page has not been sent yet.
pub record IsWaiting (i : Ncm) : Type 0 where
  pub connected : i.connection ≢ 0
  pub sending : is_ntb_empty i.send_state ≡ false
  pub free : is_ntb_processing i.fill_state ≡ false

module _ (p : Platform) (o : NcmOptions) (small : in_page_size o < 65512) (xs : List ℕ) where
  -- The contents of the page with the datagram at its end.
  abbrev placed_bytes : Ncm → Bytes
  placed_bytes i =
      copy_bytes xs i.in_index
        (put16 (in_page_size o - 4 * ((i.dg_count + 1) % 256)) (length xs) (i.in_bytes i.in_page))

  abbrev pub placed : Ncm → Ncm
  placed i =
      let v = reserve p o (length xs) (record i { fill_state = ntb_processing }) in
      record v {
        in_bytes = update v.in_bytes v.in_page (copy_bytes xs i.in_index (v.in_bytes v.in_page));
        fill_state = ntb_ready;
      }

  pub put_datagram_lem :
      (c : NcmCtx)
      → IsWaiting c.itf
      → length xs ≤ 1514
      → align4 (length xs) + 4 ≤ c.itf.rem_size
      → put_datagram p o xs c ≡ (e_ok, record c { itf = placed c.itf })
  unfolding put_datagram alloc_datagram set_datagram reserve
  put_datagram_lem c w l r = ground (arith, w.connected, w.sending, w.free)

  page-placed : (i : Ncm) → (placed i).in_bytes (placed i).in_page ≡ placed_bytes i
  unfolding reserve
  page-placed i = rw (update_self, update_self) refl

  pub placed-Filled :
      (xss : List (List ℕ)) (i : Ncm)
      → Filled o xss i
      → length xs ≤ 1514
      → length xss < 255
      → align4 (length xs) + 4 ≤ i.rem_size
      → Filled o (snoc xss xs) (placed i)
  unfolding reserve
  placed-Filled xss i f l n r =
      let size = in_page_size o in
      let b = i.in_bytes i.in_page in
      let b1 = put16 (size - 4 * ((i.dg_count + 1) % 256)) (length xs) b in
      let b2 = placed_bytes i in
      let count : (i.dg_count + 1) % 256 ≡ length xss + 1 = omega (arith, f.count, n) in
      let place : size - 4 * ((i.dg_count + 1) % 256) ≡ saved_at size (0 + length xss) =
        omega (arith, count) in
      let below : i.in_index + length xs ≤ saved_at size (0 + length xss) =
        omega (arith, f.room, f.fits, r) in
      let inside : saved_at size (0 + length xss) + 4 * (length xss + 1) ≡ size =
        omega (arith, f.room, f.fits, r) in
      let old : Same (saved_at size (0 + length xss) + 4) size b b2 = λ j low high.
        byte-copy_bytes_ne xs i.in_index j b1 (inr (omega (arith, below, low)))
        ∙ byte-put16_ne _ j (length xs) b (inr (omega (arith, place, low))) in
      let data_kept : Same header_size i.in_index b b2 = λ j low high.
        byte-copy_bytes_ne xs i.in_index j b1 (inl high)
        ∙ byte-put16_ne _ j (length xs) b (inl (omega (arith, place, below, high))) in
      let len : get16 b2 (saved_at size (0 + length xss)) ≡ length xs =
        get16-Same (saved_at size (0 + length xss)) (i.in_index + length xs) 65536 b1 b2
          (λ j low high. byte-copy_bytes_ne xs i.in_index j b1 (inr low)) below
          (omega (arith, small))
        ∙ (ap (λ n. get16 b1 n) (sym place)
            ∙ get16-put16_self _ (length xs) b (omega (arith, l))) in
      let saved =
        Saved-snoc size 0 xss xs b2
          (Saved-Same size 0 (saved_at size (0 + length xss) + 4) xss b b2 (omega (arith, inside))
            old f.saved)
          len in
      let stored =
        Stored-snoc header_size xss xs b2
          (Stored-Same header_size header_size i.in_index xss b b2 (omega arith)
            (omega (arith, f.index)) data_kept f.stored)
          (ap (λ n. read_bytes b2 n (length xs)) (sym f.index)
            ∙ read_bytes-copy_bytes xs i.in_index b1) in
      let next : (i.in_index + align4 (length xs)) % 65536 ≡ i.in_index + align4 (length xs) =
        omega (arith, f.room, f.fits, r, small) in
      record {
        count = count ∙ sym (length-snoc xss xs);
        index = next ∙ omega (arith, end_of-snoc header_size xss xs, f.index);
        room = omega (arith, length-snoc xss xs, next, f.room, f.fits, r, small);
        fits = f.fits;
        saved = rw (page-placed i) saved;
        stored = rw (page-placed i) stored;
      }
