-- ===== src/Ncm/Block.antt =====
-- A whole block, as `ncm_sendNTB` fills it.
use usbdevice.Base.{
  ℕ, ◌+◌, ◌-◌, ◌*◌, ◌%◌, ◌≤◌, ◌<◌, ◌≡◌, ◌∙◌, ◌⊎◌, inl, inr, arith, List, ◌∷◌, length,
}
use usbdevice.Ncm.{
  Bytes, get16, get32, put16, put32, nth16_sign, ndp16_sign, header_size, table_size,
  header_length_at, block_length_at, ndp_index_at, table_length_at, next_ndp_at, dg_index_at,
}
use usbdevice.Ncm.Bytes.{
  Same, get16-put16_self, byte-put16_ne, byte-put32_ne, get16-Same, get32-Same,
}
use usbdevice.Ncm.Send.{put_lengths, put_indexes, put_headers, put_end, fill_block}
use usbdevice.Ncm.Layout.{
  Saved, Entries, end_of, le-end_of, put_lengths_lem, put_indexes_lem, Stored, Stored-Same,
  Saved-Same, Entries-Same, end_of-aligned, put16_even, Lengths-SameOdd,
}

-- The header of a block, and of its one table at `pt`, for `n` datagrams. The length of the block is
-- what `ncm_sendNTB` computes: by the size of the header more than the end of the table.
pub record Headers (pt n : ℕ) (b : Bytes) : Type 0 where
  pub signature : get32 b 0 ≡ nth16_sign
  pub header_length : get16 b header_length_at ≡ header_size
  pub block_length : get16 b block_length_at ≡ header_size + (pt + (table_size + 4 * n))
  pub ndp_index : get16 b ndp_index_at ≡ pt
  pub table_signature : get32 b pt ≡ ndp16_sign
  pub table_length : get16 b (table_length_at pt) ≡ table_size + 4 * n
  pub next_ndp : get16 b (next_ndp_at pt) ≡ 0

module _ (pt n : ℕ) (behind : header_size ≤ pt) (small : pt + 4 * n < 65512) where
  -- The contents after each write of the headers.
  abbrev len : ℕ
  len = (table_size + 4 * n) % 65536

  abbrev total : ℕ
  total = (header_size + pt + len) % 65536

  abbrev table1 : Bytes → Bytes
  table1 b = put32 pt ndp16_sign b

  abbrev table2 : Bytes → Bytes
  table2 b = put16 (table_length_at pt) len (table1 b)

  abbrev table3 : Bytes → Bytes
  table3 b = put16 (next_ndp_at pt) 0 (table2 b)

  abbrev head1 : Bytes → Bytes
  head1 b = put32 0 nth16_sign b

  abbrev head2 : Bytes → Bytes
  head2 b = put16 header_length_at header_size (head1 b)

  abbrev head3 : Bytes → Bytes
  head3 b = put16 block_length_at total (head2 b)

  abbrev head4 : Bytes → Bytes
  head4 b = put16 ndp_index_at pt (head3 b)

  head_keeps : (b : Bytes) (j : ℕ) → 12 ≤ j → head4 b j ≡ b j
  head_keeps b j h =
      byte-put16_ne ndp_index_at j pt (head3 b) (inr (omega arith))
      ∙ (byte-put16_ne block_length_at j total (head2 b) (inr (omega arith))
          ∙ (byte-put16_ne header_length_at j header_size (head1 b) (inr (omega arith))
              ∙ byte-put32_ne 0 j nth16_sign b (inr (omega arith))))

  table_keeps : (b : Bytes) (j : ℕ) → (j < pt) ⊎ (pt + 8 ≤ j) → table3 b j ≡ b j
  table_keeps b j (inl h) =
      byte-put16_ne (next_ndp_at pt) j 0 (table2 b) (inl (omega arith))
      ∙ (byte-put16_ne (table_length_at pt) j len (table1 b) (inl (omega arith))
          ∙ byte-put32_ne pt j ndp16_sign b (inl h))
  table_keeps b j (inr h) =
      byte-put16_ne (next_ndp_at pt) j 0 (table2 b) (inr (omega arith))
      ∙ (byte-put16_ne (table_length_at pt) j len (table1 b) (inr (omega arith))
          ∙ byte-put32_ne pt j ndp16_sign b (inr (omega arith)))

  -- The datagrams and all that stands behind the header of the table are left as they are.
  put_headers_keeps :
      (b : Bytes) (j : ℕ) → 12 ≤ j → (j < pt) ⊎ (pt + 8 ≤ j) → put_headers pt n b j ≡ b j
  unfolding put_headers
  put_headers_keeps b j h k = head_keeps (table3 b) j h ∙ table_keeps b j k

  head_fields :
      (b : Bytes)
      → (get32 (head4 b) 0 ≡ nth16_sign)
        × (get16 (head4 b) header_length_at ≡ header_size)
        × (get16 (head4 b) block_length_at ≡ total)
        × (get16 (head4 b) ndp_index_at ≡ pt)
  unfolding get32 get16 put32 put16
  head_fields b = ground arith

  table_fields :
      (b : Bytes)
      → (get32 (table3 b) pt ≡ ndp16_sign)
        × (get16 (table3 b) (table_length_at pt) ≡ len)
        × (get16 (table3 b) (next_ndp_at pt) ≡ 0)
  unfolding get32 get16 put32 put16
  table_fields b = ground arith

  pub put_headers-Headers : (b : Bytes) → Headers pt n (put_headers pt n b)
  unfolding put_headers
  put_headers-Headers b =
      let (s, h, l, x) = head_fields (table3 b) in
      let (t, k, z) = table_fields b in
      let same : Same pt (pt + 8) (table3 b) (head4 (table3 b)) =
        λ j low high. head_keeps (table3 b) j (omega arith) in
      record {
        signature = s;
        header_length = h;
        block_length = l ∙ (omega arith);
        ndp_index = x;
        table_signature =
            get32-Same pt pt (pt + 8) (table3 b) (head4 (table3 b)) same (omega arith) (omega arith)
            ∙ t;
        table_length =
            get16-Same (table_length_at pt) pt (pt + 8) (table3 b) (head4 (table3 b)) same
              (omega arith) (omega arith)
            ∙ (k ∙ omega arith);
        next_ndp =
            get16-Same (next_ndp_at pt) pt (pt + 8) (table3 b) (head4 (table3 b)) same (omega arith)
              (omega arith)
            ∙ z;
      }

  pub Headers-Same : (b b' : Bytes) → Same 0 (pt + 8) b b' → Headers pt n b → Headers pt n b'
  Headers-Same b b' s h = record {
    signature = get32-Same 0 0 (pt + 8) b b' s (omega arith) (omega arith) ∙ h.signature;
    header_length = get16-Same 4 0 (pt + 8) b b' s (omega arith) (omega arith) ∙ h.header_length;
    block_length = get16-Same 8 0 (pt + 8) b b' s (omega arith) (omega arith) ∙ h.block_length;
    ndp_index = get16-Same 10 0 (pt + 8) b b' s (omega arith) (omega arith) ∙ h.ndp_index;
    table_signature =
        get32-Same pt 0 (pt + 8) b b' s (omega arith) (omega arith) ∙ h.table_signature;
    table_length =
        get16-Same (table_length_at pt) 0 (pt + 8) b b' s (omega arith) (omega arith)
        ∙ h.table_length;
    next_ndp =
        get16-Same (next_ndp_at pt) 0 (pt + 8) b b' s (omega arith) (omega arith) ∙ h.next_ndp;
  }

-- A block that holds the datagrams: its headers, its table with the null element, and the datagrams.
pub record IsBlock (xss : List (List ℕ)) (b : Bytes) : Type 0 where
  pub headers : Headers (end_of header_size xss) (length xss) b
  pub entries : Entries (end_of header_size xss) 0 header_size xss b
  pub null : get16 b (dg_index_at (end_of header_size xss) (length xss)) ≡ 0
  pub stored : Stored header_size xss b

-- The end of the table.
put_end_lem :
    (pt n : ℕ) (b : Bytes)
    → n % 65536 ≡ n
    → 0 < n
    → (get16 (put_end pt n b) (dg_index_at pt n) ≡ 0) × Same 0 (dg_index_at pt n) b (put_end pt n b)
unfolding put_end get16 put16
put_end_lem pt n b s h = (ground arith, λ j l k. ground arith)

module _ (size : ℕ) (xs : List ℕ) (xss : List (List ℕ)) (b : Bytes) where
  abbrev all : List (List ℕ)
  all = xs ∷ xss

  abbrev table_at : ℕ
  table_at = end_of header_size all

  -- `ncm_sendNTB` makes a block of the datagrams that were stored, if their lengths are saved and the
  -- table fits in the page behind them.
  pub fill_block-IsBlock :
      size % 4 ≡ 0
      → size < 65512
      → table_at + table_size + 4 * length all ≤ size
      → Saved size 0 all b
      → Stored header_size all b
      → IsBlock all (fill_block size table_at (length all) b)
  unfolding fill_block
  fill_block-IsBlock m small fits saved stored =
      let n = length all in
      let behind = le-end_of header_size all in
      let room : table_at + 4 * n < 65512 = omega (arith, fits, small) in
      let aligned : table_at % 4 ≡ 0 = end_of-aligned header_size all (omega arith) in
      let b1 = put_headers table_at n b in
      let keeps = put_headers_keeps table_at n behind room b in
      let saved1 =
        Saved-Same size 0 (table_at + 8) all b b1 (omega (arith, fits))
          (λ j l h. keeps j (omega (arith, behind, l)) (inr l)) saved in
      let b2 = put_lengths size table_at n 0 b1 in
      let (lengths2, kept2) =
        put_lengths_lem size table_at 0 header_size all b1 m aligned (omega (arith, room)) saved1 in
      let b3 = put16 (dg_index_at table_at 0) header_size b2 in
      let odd = put16_even (dg_index_at table_at 0) header_size b2 (omega (arith, aligned)) in
      let lengths3 = Lengths-SameOdd table_at 0 all b2 b3 aligned odd lengths2 in
      let first = get16-put16_self (dg_index_at table_at 0) header_size b2 (omega arith) in
      let b4 = put_indexes table_at (length xss) 0 b3 in
      let (entries4, kept4) =
        put_indexes_lem table_at 0 header_size xs xss b3 aligned (omega arith) (omega (arith, room))
          lengths3 first in
      let b5 = put_end table_at n b4 in
      let (null, kept5) = put_end_lem table_at n b4 (omega (arith, room)) (omega arith) in
      let same : Same 0 (table_at + 8) b1 b5 = λ j l h.
        kept5 j l (omega (arith, h))
        ∙ (kept4 j l (omega (arith, h))
            ∙ (byte-put16_ne (dg_index_at table_at 0) j header_size b2 (inl (omega (arith, h)))
                ∙ kept2 j l (omega (arith, h)))) in
      let made : IsBlock all b5 = record {
        headers =
            Headers-Same table_at n behind room b1 b5 same
              (put_headers-Headers table_at n behind room b);
        entries =
            Entries-Same table_at 0 header_size 0 (dg_index_at table_at n) all b4 b5 (omega arith)
              (omega arith) kept5 entries4;
        null = null;
        stored =
            Stored-Same header_size header_size table_at all b b5 (omega arith) (omega arith)
              (λ j l h. same j (omega arith) (omega (arith, h)) ∙ keeps j l (inl h)) stored;
      } in
      let count : length all - 1 ≡ length xss = omega arith in rw count made
