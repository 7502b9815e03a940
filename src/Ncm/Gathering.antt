-- ===== src/Ncm/Gathering.antt =====
-- A sequence of datagrams that is put while the last block is under way gathers in one block.
use usbdevice.Base.{
  ℕ, ◌+◌, ◌≤◌, ◌<◌, ◌≡◌, ◌∙◌, inl, inr, ap, sym, refl, arith, List, [], ◌∷◌, ◌++◌, length, subst,
}
use usbdevice.Device.{Platform}
use usbdevice.Ncm.{
  NtbState, ntb_ready, Bytes, put16, header_size, sequence_at, block_length_at, ndp_index_at,
  NcmCtx, NcmOptions, in_page_size, align4, header_length_at, dg_index_at, dg_length_at,
  table_length_at, next_ndp_at,
}
use usbdevice.Ncm.Bytes.{Same, byte-put16_ne, get16-Same, get32-Same}
use usbdevice.Ncm.Layout.{end_of, le-end_of, Stored-Same, Entries-Same}
use usbdevice.Ncm.Block.{IsBlock}
use usbdevice.Ncm.Filling.{snoc, Filled, IsWaiting, placed, put_datagram_lem, placed-Filled}
use usbdevice.Ncm.Send.{put_datagram, reserve}

-- Datagrams that the interface takes, and the space that they need in a block.
abbrev pub AreShort : List (List ℕ) → Type 0
AreShort [] = Unit
AreShort (xs ∷ xss) = (length xs ≤ 1514) × AreShort xss

abbrev pub space_of : List (List ℕ) → ℕ
space_of [] = 0
space_of (xs ∷ xss) = align4 (length xs) + 4 + space_of xss

-- The datagrams of `xss` behind those of `yss`, one after the other.
abbrev gather : List (List ℕ) → List (List ℕ) → List (List ℕ)
gather yss [] = yss
gather yss (xs ∷ xss) = gather (snoc yss xs) xss

snoc-append :
    (yss : List (List ℕ)) (xs : List ℕ) (xss : List (List ℕ))
    → snoc yss xs ++ xss ≡ yss ++ (xs ∷ xss)
snoc-append [] xs xss = refl
snoc-append (ys ∷ yss) xs xss = ap (λ l. ys ∷ l) (snoc-append yss xs xss)

length-snoc : (xss : List (List ℕ)) (xs : List ℕ) → length (snoc xss xs) ≡ length xss + 1
length-snoc [] xs = omega arith
length-snoc (ys ∷ yss) xs = omega (arith, length-snoc yss xs)

append-gather : (yss xss : List (List ℕ)) → gather yss xss ≡ yss ++ xss
append-gather yss [] = append_nil yss
  where
    append_nil : (l : List (List ℕ)) → l ≡ l ++ []
    append_nil [] = refl
    append_nil (x ∷ l) = ap (λ k. x ∷ k) (append_nil l)
append-gather yss (xs ∷ xss) = append-gather (snoc yss xs) xss ∙ snoc-append yss xs xss

-- The sequence number of a block may change.
pub IsBlock-sequence :
    (v : ℕ) (xs : List ℕ) (xss : List (List ℕ)) (b : Bytes)
    → IsBlock (xs ∷ xss) b
    → IsBlock (xs ∷ xss) (put16 sequence_at v b)
IsBlock-sequence v xs xss b k =
    let all = xs ∷ xss in
    let pt = end_of header_size all in
    let hi = dg_length_at pt (length all) in
    let h = k.headers in
    let b' = put16 sequence_at v b in
    let before : Same 0 6 b b' = λ j l m. byte-put16_ne sequence_at j v b (inl m) in
    let behind : Same 8 hi b b' = λ j l m. byte-put16_ne sequence_at j v b (inr l) in
    let far : header_size ≤ pt = le-end_of header_size all in
    record {
      headers = record {
        signature = get32-Same 0 0 6 b b' before (omega arith) (omega arith) ∙ h.signature;
        header_length =
            get16-Same header_length_at 0 6 b b' before (omega arith) (omega arith)
            ∙ h.header_length;
        block_length =
            get16-Same block_length_at 8 hi b b' behind (omega arith) (omega (arith, far))
            ∙ h.block_length;
        ndp_index =
            get16-Same ndp_index_at 8 hi b b' behind (omega arith) (omega (arith, far))
            ∙ h.ndp_index;
        table_signature =
            get32-Same pt 8 hi b b' behind (omega (arith, far)) (omega arith) ∙ h.table_signature;
        table_length =
            get16-Same (table_length_at pt) 8 hi b b' behind (omega (arith, far)) (omega arith)
            ∙ h.table_length;
        next_ndp =
            get16-Same (next_ndp_at pt) 8 hi b b' behind (omega (arith, far)) (omega arith)
            ∙ h.next_ndp;
      };
      entries =
          Entries-Same pt 0 header_size 8 hi all b b' (omega (arith, far)) (omega arith) behind
            k.entries;
      null =
          get16-Same (dg_index_at pt (length all)) 8 hi b b' behind (omega (arith, far))
            (omega arith)
          ∙ k.null;
      stored = Stored-Same header_size 8 hi all b b' (omega arith) (omega arith) behind k.stored;
    }

module _ (p : Platform) (o : NcmOptions) where
  -- The datagrams are put one after the other.
  unfoldable pub put_all : List (List ℕ) → NcmCtx → NcmCtx
  put_all [] c = c
  put_all (xs ∷ xss) c = put_all xss (put_datagram p o xs c).1

module _ (p : Platform) (o : NcmOptions) (small : in_page_size o < 65512) where
  -- What a put leaves as it is.
  abbrev pub Kept : NcmCtx → NcmCtx → Type 0
  Kept c v =
      (v.dev ≡ c.dev)
      × (v.itf.in_page ≡ c.itf.in_page)
      × (v.itf.in_at ≡ c.itf.in_at)
      × (v.itf.in_ep_num ≡ c.itf.in_ep_num)

  -- The state of the block after puts.
  abbrev fill_after : List (List ℕ) → NtbState → NtbState
  fill_after [] s = s
  fill_after (xs ∷ xss) s = fill_after xss ntb_ready

  fill_after_ready : (xss : List (List ℕ)) → fill_after xss ntb_ready ≡ ntb_ready
  fill_after_ready [] = refl
  fill_after_ready (xs ∷ xss) = fill_after_ready xss

  gathered :
      (xss yss : List (List ℕ)) (c : NcmCtx)
      → IsWaiting c.itf
      → Filled o yss c.itf
      → AreShort xss
      → length yss + length xss < 256
      → space_of xss ≤ c.itf.rem_size
      → let v = put_all p o xss c in
        Filled o (gather yss xss) v.itf
        × Kept c v
        × (v.itf.fill_state ≡ fill_after xss c.itf.fill_state)
  unfolding put_all reserve
  gathered [] yss c w f s n r = (f, (refl, refl, refl, refl), refl)
  gathered (xs ∷ xss) yss c w f s n r =
      let v = record c { itf = placed p o small xs c.itf } in
      let one : (put_datagram p o xs c).1 ≡ v =
        ap (λ x. x.1) (put_datagram_lem p o small xs c w s.0 (omega arith)) in
      let waiting : IsWaiting v.itf = record {
        connected = w.connected;
        sending = w.sending;
        free = refl;
      } in
      let filled = placed-Filled p o small xs yss c.itf f s.0 (omega arith) (omega arith) in
      let rest =
        gathered xss (snoc yss xs) v waiting filled s.1 (omega (arith, length-snoc yss xs, n))
          (omega (arith, f.room, f.fits, r, small)) in
      subst
        (λ x.
          Filled o (gather (snoc yss xs) xss) (put_all p o xss x).itf
          × Kept c (put_all p o xss x)
          × ((put_all p o xss x).itf.fill_state ≡ fill_after xss ntb_ready))
        (sym one) rest

  pub put_all_lem :
      (xs : List ℕ) (xss : List (List ℕ)) (c : NcmCtx)
      → IsWaiting c.itf
      → Filled o [] c.itf
      → AreShort (xs ∷ xss)
      → length (xs ∷ xss) < 256
      → space_of (xs ∷ xss) ≤ c.itf.rem_size
      → let v = put_all p o (xs ∷ xss) c in
        Filled o (xs ∷ xss) v.itf × Kept c v × (v.itf.fill_state ≡ ntb_ready)
  put_all_lem xs xss c w f s n r =
      let (filled, kept, state) = gathered (xs ∷ xss) [] c w f s (omega arith) r in
      let all = xs ∷ xss in
      (
        subst (λ l. Filled o l (put_all p o all c).itf) (append-gather [] all) filled,
        kept,
        state ∙ fill_after_ready xss,
      )
