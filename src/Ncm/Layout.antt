-- ===== src/Ncm/Layout.antt =====
-- What `ncm_sendNTB` writes: the layout of a block of datagrams.
use usbdevice.Base.{ℕ, ◌+◌, ◌*◌, ◌%◌, ◌≤◌, ◌<◌, ◌≡◌, ◌∙◌, inl, refl, arith, List, [], ◌∷◌, length}
use usbdevice.Ncm.{Bytes, get16, put16, dg_index_at, dg_length_at, align4}
use usbdevice.Ncm.Bytes.{
  Same, get16-put16_self, byte-put16_ne, get16-Same, read_bytes, read_bytes-Same,
}
use usbdevice.Ncm.Send.{saved_at, put_lengths, put_indexes}

-- The offset behind datagrams that are placed from `at` on.
abbrev pub end_of : ℕ → List (List ℕ) → ℕ
end_of at [] = at
end_of at (xs ∷ xss) = end_of (at + align4 (length xs)) xss

pub le-end_of : (at : ℕ) (xss : List (List ℕ)) → at ≤ end_of at xss
le-end_of at [] = omega arith
le-end_of at (xs ∷ xss) = omega (arith, le-end_of (at + align4 (length xs)) xss)

-- The lengths of datagrams, as they are saved from place `k` on, and as they stand in the table at `pt`.
abbrev pub Saved : ℕ → ℕ → List (List ℕ) → Bytes → Type 0
Saved size k [] b = Unit
Saved size k (xs ∷ xss) b = (get16 b (saved_at size k) ≡ length xs) × Saved size (k + 1) xss b

abbrev pub Lengths : ℕ → ℕ → List (List ℕ) → Bytes → Type 0
Lengths pt k [] b = Unit
Lengths pt k (xs ∷ xss) b = (get16 b (dg_length_at pt k) ≡ length xs) × Lengths pt (k + 1) xss b

-- The entries of the table from `k` on, for datagrams that are placed from `at` on.
abbrev pub Entries : ℕ → ℕ → ℕ → List (List ℕ) → Bytes → Type 0
Entries pt k at [] b = Unit
Entries pt k at (xs ∷ xss) b =
    (get16 b (dg_index_at pt k) ≡ at)
    × (get16 b (dg_length_at pt k) ≡ length xs)
    × Entries pt (k + 1) (at + align4 (length xs)) xss b

-- The fields at the multiples of 4, and those between them.
abbrev pub SameEven : Bytes → Bytes → Type 0
SameEven b b' = (j : ℕ) → j % 4 ≡ 0 → get16 b' j ≡ get16 b j

abbrev pub SameOdd : Bytes → Bytes → Type 0
SameOdd b b' = (j : ℕ) → j % 4 ≡ 2 → get16 b' j ≡ get16 b j

put16_odd : (i v : ℕ) (b : Bytes) → i % 4 ≡ 2 → SameEven b (put16 i v b)
unfolding get16 put16
put16_odd i v b h j k = ground arith

pub put16_even : (i v : ℕ) (b : Bytes) → i % 4 ≡ 0 → SameOdd b (put16 i v b)
unfolding get16 put16
put16_even i v b h j k = ground arith

Saved-SameEven :
    (size k : ℕ) (xss : List (List ℕ)) (b b' : Bytes)
    → size % 4 ≡ 0
    → SameEven b b'
    → Saved size k xss b
    → Saved size k xss b'
Saved-SameEven size k [] b b' m e s = tt
Saved-SameEven size k (xs ∷ xss) b b' m e s =
    (e (saved_at size k) (omega arith) ∙ s.0, Saved-SameEven size (k + 1) xss b b' m e s.1)

pub Lengths-SameOdd :
    (pt k : ℕ) (xss : List (List ℕ)) (b b' : Bytes)
    → pt % 4 ≡ 0
    → SameOdd b b'
    → Lengths pt k xss b
    → Lengths pt k xss b'
Lengths-SameOdd pt k [] b b' m e s = tt
Lengths-SameOdd pt k (xs ∷ xss) b b' m e s =
    (e (dg_length_at pt k) (omega arith) ∙ s.0, Lengths-SameOdd pt (k + 1) xss b b' m e s.1)

-- The first round copies every saved length, although the table may lie over the saved lengths.
pub put_lengths_lem :
    (size pt k at : ℕ) (xss : List (List ℕ)) (b : Bytes)
    → size % 4 ≡ 0
    → pt % 4 ≡ 0
    → end_of at xss < 65536
    → Saved size k xss b
    → let b' = put_lengths size pt (length xss) k b in
      Lengths pt k xss b' × Same 0 (dg_length_at pt k) b b'
unfolding put_lengths
put_lengths_lem size pt k at [] b m n lt s = (tt, λ j l h. refl)
put_lengths_lem size pt k at (xs ∷ xss) b m n lt s =
    let b1 = put16 (dg_length_at pt k) (get16 b (saved_at size k)) b in
    let b2 = put_lengths size pt (length xss) (k + 1) b1 in
    let next = at + align4 (length xs) in
    let small : length xs < 65536 = omega (arith, le-end_of next xss) in
    let even = put16_odd (dg_length_at pt k) (get16 b (saved_at size k)) b (omega arith) in
    let saved = Saved-SameEven size (k + 1) xss b b1 m even s.1 in
    let (rest, kept) = put_lengths_lem size pt (k + 1) next xss b1 m n lt saved in
    let written =
      get16-put16_self (dg_length_at pt k) (get16 b (saved_at size k)) b
        (omega (arith, s.0, small)) in
    let here =
      get16-Same (dg_length_at pt k) 0 (dg_length_at pt (k + 1)) b1 b2 kept (omega arith)
        (omega arith) in
    (
      (here ∙ (written ∙ s.0), rest),
      λ j l h. kept j l (omega arith) ∙ byte-put16_ne (dg_length_at pt k) j _ b (inl h),
    )

-- The second round places every datagram.
pub put_indexes_lem :
    (pt k at : ℕ) (xs : List ℕ) (xss : List (List ℕ)) (b : Bytes)
    → pt % 4 ≡ 0
    → at % 4 ≡ 0
    → end_of at (xs ∷ xss) < 65536
    → Lengths pt k (xs ∷ xss) b
    → get16 b (dg_index_at pt k) ≡ at
    → let b' = put_indexes pt (length xss) k b in
      Entries pt k at (xs ∷ xss) b' × Same 0 (dg_index_at pt (k + 1)) b b'
unfolding put_indexes
put_indexes_lem pt k at xs [] b m n lt s i = ((i, s.0, tt), λ j l h. refl)
put_indexes_lem pt k at xs (ys ∷ yss) b m n lt s i =
    let next = at + align4 (length xs) in
    let v = align4 (get16 b (dg_index_at pt k) + get16 b (dg_length_at pt k)) % 65536 in
    let b1 = put16 (dg_index_at pt (k + 1)) v b in
    let b2 = put_indexes pt (length yss) (k + 1) b1 in
    let below : next < 65536 = omega (arith, le-end_of next (ys ∷ yss)) in
    let value : v ≡ next = omega (arith, i, s.0, below) in
    let odd = put16_even (dg_index_at pt (k + 1)) v b (omega arith) in
    let lengths = Lengths-SameOdd pt (k + 1) (ys ∷ yss) b b1 m odd s.1 in
    let written =
      get16-put16_self (dg_index_at pt (k + 1)) v b (omega (arith, value, below)) ∙ value in
    let (rest, kept) =
      put_indexes_lem pt (k + 1) next ys yss b1 m (omega arith) lt lengths written in
    let same : Same 0 (dg_index_at pt (k + 1)) b b2 =
      λ j l h. kept j l (omega arith) ∙ byte-put16_ne (dg_index_at pt (k + 1)) j v b (inl h) in
    let index =
      get16-Same (dg_index_at pt k) 0 (dg_index_at pt (k + 1)) b b2 same (omega arith)
        (omega arith) in
    let len =
      get16-Same (dg_length_at pt k) 0 (dg_index_at pt (k + 1)) b b2 same (omega arith)
        (omega arith) in
    ((index ∙ i, len ∙ s.0, rest), same)

-- Saved lengths, entries and datagrams stay while the bytes that they stand in stay.
pub Saved-Same :
    (size k lo : ℕ) (xss : List (List ℕ)) (b b' : Bytes)
    → lo + 4 * (k + length xss) ≤ size
    → Same lo size b b'
    → Saved size k xss b
    → Saved size k xss b'
Saved-Same size k lo [] b b' m e s = tt
Saved-Same size k lo (xs ∷ xss) b b' m e s = (
  get16-Same (saved_at size k) lo size b b' e (omega arith) (omega arith) ∙ s.0,
  Saved-Same size (k + 1) lo xss b b' (omega arith) e s.1,
)

pub Entries-Same :
    (pt k at lo hi : ℕ) (xss : List (List ℕ)) (b b' : Bytes)
    → lo ≤ pt
    → dg_index_at pt (k + length xss) ≤ hi
    → Same lo hi b b'
    → Entries pt k at xss b
    → Entries pt k at xss b'
Entries-Same pt k at lo hi [] b b' l m e s = tt
Entries-Same pt k at lo hi (xs ∷ xss) b b' l m e s =
    let next = at + align4 (length xs) in
    (
      get16-Same (dg_index_at pt k) lo hi b b' e (omega (arith, l)) (omega (arith, m)) ∙ s.0,
      get16-Same (dg_length_at pt k) lo hi b b' e (omega (arith, l)) (omega (arith, m)) ∙ s.1,
      Entries-Same pt (k + 1) next lo hi xss b b' l (omega (arith, m)) e s.2,
    )

-- The datagrams themselves, placed from `at` on.
abbrev pub Stored : ℕ → List (List ℕ) → Bytes → Type 0
Stored at [] b = Unit
Stored at (xs ∷ xss) b = (read_bytes b at (length xs) ≡ xs) × Stored (at + align4 (length xs)) xss b

pub Stored-Same :
    (at lo hi : ℕ) (xss : List (List ℕ)) (b b' : Bytes)
    → lo ≤ at
    → end_of at xss ≤ hi
    → Same lo hi b b'
    → Stored at xss b
    → Stored at xss b'
Stored-Same at lo hi [] b b' l h e s = tt
Stored-Same at lo hi (xs ∷ xss) b b' l h e s =
    let next = at + align4 (length xs) in
    (
      read_bytes-Same at (length xs) lo hi b b' e l (omega (arith, le-end_of next xss, h)) ∙ s.0,
      Stored-Same next lo hi xss b b' (omega (arith, l)) h e s.1,
    )

pub end_of-aligned : (at : ℕ) (xss : List (List ℕ)) → at % 4 ≡ 0 → end_of at xss % 4 ≡ 0
end_of-aligned at [] h = h
end_of-aligned at (xs ∷ xss) h = end_of-aligned (at + align4 (length xs)) xss (omega arith)
