-- ===== src/Microsoft/Sizes.antt =====
-- The descriptor set as a host reads it.
use usbdevice.Base.{
  ℕ, zero, suc, ◌+◌, ◌*◌, ◌≤◌, ◌<◌, ◌≡◌, refl, sym, ◌∙◌, ap, arith, Bool-cases, inl, inr, Option,
  none, some, List, [], ◌∷◌, ◌++◌, length, take, drop, get_or, ◌==◌, subst,
}
use usbdevice.Device.{Device}
use usbdevice.Microsoft.Functions.{starts, functions_lem}
use usbdevice.Microsoft.{
  copy_string, subset, subsets, conf_subset, desc_set, ms_os_desc, device_functions,
}

-- A host takes the subsets of the functions one by one, by the length that each states: the number of
-- the first interface and the identifier of each.
unfoldable pub read_subsets : ℕ → List ℕ → List (ℕ × List ℕ)
read_subsets zero l = []
read_subsets (suc fuel) [] = []
read_subsets (suc fuel) (b ∷ l) =
    let rest = read_subsets fuel (drop (get_or (b ∷ l) 6 0 + 256 * get_or (b ∷ l) 7 0) (b ∷ l)) in
    (get_or (b ∷ l) 4 0, take 8 (drop 12 (b ∷ l))) ∷ rest

-- The functions with an identifier.
abbrev pub with_id : ℕ → Option (List ℕ) → List (ℕ × List ℕ) → List (ℕ × List ℕ)
with_id n none l = l
with_id n (some s) l = (n, copy_string 8 s) ∷ l

unfoldable pub named : (ℕ → Option (List ℕ)) → List (ℕ × ℕ) → List (ℕ × List ℕ)
named ids [] = []
named ids ((n, r) ∷ fs) = with_id n (ids r) (named ids fs)

-- A string field begins with a byte, and goes on with the field of a string.
string_head :
    (n : ℕ) (s : List ℕ) → (x : ℕ) × ((t : List ℕ) × (copy_string (suc n) s ≡ x ∷ copy_string n t))
unfolding copy_string
string_head n [] = (0, ([], refl))
string_head n (c ∷ s) = elim (Bool-cases (c == 0)) [
  | inl h ↦ (0, ([], rw h refl))
  | inr h ↦ (c, (s, rw h refl))
]

drop-copy_string : (n m k : ℕ) (s l : List ℕ) → m ≡ n + k → drop m (copy_string n s ++ l) ≡ drop k l
unfolding copy_string
drop-copy_string zero m k s l h = let same : m ≡ k = omega (arith, h) in ap (λ j. drop j l) same
drop-copy_string (suc n) zero k s l h = absurd (omega arith)
drop-copy_string (suc n) (suc m) k s l h =
    let (x, (t, e)) = string_head n s in
    ap (λ c. drop (suc m) (c ++ l)) e ∙ drop-copy_string n m k t l (omega arith)

take-copy_string : (n : ℕ) (s l : List ℕ) → take n (copy_string n s ++ l) ≡ copy_string n s
unfolding copy_string
take-copy_string zero s l = refl
take-copy_string (suc n) s l =
    let (x, (t, e)) = string_head n s in
    ap (λ c. take (suc n) (c ++ l)) e ∙ (ap (λ c. x ∷ c) (take-copy_string n t l) ∙ sym e)

append_assoc : (a b c : List ℕ) → (a ++ b) ++ c ≡ a ++ (b ++ c)
append_assoc [] b c = refl
append_assoc (x ∷ a) b c = ap (λ l. x ∷ l) (append_assoc a b c)

module _ (ids : ℕ → Option (List ℕ)) where
  subset_read :
      (fuel n : ℕ) (s l : List ℕ)
      → read_subsets (suc fuel) (subset ids n (some s) ++ l)
        ≡ (n, copy_string 8 s) ∷ read_subsets fuel l
  unfolding read_subsets
  subset_read fuel n s l =
      let zeros = copy_string 8 [] in
      let flat = append_assoc (copy_string 8 s) zeros l in
      let behind : drop 16 ((copy_string 8 s ++ zeros) ++ l) ≡ l =
        ap (drop 16) flat
        ∙ (drop-copy_string 8 16 8 s (zeros ++ l) refl ∙ drop-copy_string 8 8 0 [] l refl) in
      let id : take 8 ((copy_string 8 s ++ zeros) ++ l) ≡ copy_string 8 s =
        ap (take 8) flat ∙ take-copy_string 8 s (zeros ++ l) in
      λ i. (n, id i) ∷ read_subsets fuel (behind i)

  subset_step :
      (fuel n : ℕ) (x : Option (List ℕ)) (l : List ℕ) (fs : List (ℕ × List ℕ))
      → read_subsets (suc fuel) l ≡ fs
      → read_subsets fuel l ≡ fs
      → read_subsets (suc fuel) (subset ids n x ++ l) ≡ with_id n x fs
  subset_step fuel n none l fs h k = h
  subset_step fuel n (some s) l fs h k =
      subset_read fuel n s l ∙ ap (λ y. (n, copy_string 8 s) ∷ y) k

  read_nothing : (fuel : ℕ) → read_subsets fuel [] ≡ []
  unfolding read_subsets
  read_nothing zero = refl
  read_nothing (suc fuel) = refl

  subsets_read :
      (fuel : ℕ) (fs : List (ℕ × ℕ))
      → length fs ≤ fuel
      → read_subsets fuel (subsets ids fs) ≡ named ids fs
  unfolding subsets named
  subsets_read fuel [] h = read_nothing fuel
  subsets_read zero ((n, r) ∷ fs) h = absurd (omega arith)
  subsets_read (suc fuel) ((n, r) ∷ fs) h =
      subset_step fuel n (ids r) (subsets ids fs) (named ids fs)
        (subsets_read (suc fuel) fs (omega arith)) (subsets_read fuel fs (omega arith))

  -- The bytes of the set behind its two headers, and what the headers state.
  set_parts :
      (l : List ℕ)
      → length (desc_set ids (conf_subset ids l)) < 65536
      → let desc = desc_set ids (conf_subset ids l) in
        (drop 18 desc ≡ l)
        × (get_or desc 8 0 + 256 * get_or desc 9 0 ≡ length desc)
        × (get_or desc 16 0 + 256 * get_or desc 17 0 ≡ length (drop 10 desc))
  unfolding desc_set conf_subset
  set_parts [] h = (refl, refl, refl)
  set_parts (b ∷ l) h = (refl, omega (arith, h), omega (arith, h))

  -- The set states its length and that of the subset of the configuration, and a host that takes the
  -- subsets behind the two headers by their lengths finds, in their order and by their number, the
  -- interfaces of the device that have an identifier and are the first one or another one than that
  -- before, with at most 8 characters of the identifier: a function at several places is named once.
  -- (For sets that are shorter than 65536 bytes, and a
  -- host that goes on for as many rounds as there are such interfaces.)
  pub set_read :
      (fuel : ℕ) (d : Device)
      → length (starts d.ifs d.if_count 0) ≤ fuel
      → length (ms_os_desc ids d) < 65536
      → let desc = ms_os_desc ids d in
        (read_subsets fuel (drop 18 desc) ≡ named ids (starts d.ifs d.if_count 0))
        × (get_or desc 8 0 + 256 * get_or desc 9 0 ≡ length desc)
        × (get_or desc 16 0 + 256 * get_or desc 17 0 ≡ length (drop 10 desc))
  unfolding ms_os_desc
  set_read fuel d h k =
      let (rest, total, inner) = set_parts (subsets ids (device_functions d)) k in
      let same = functions_lem d in
      let fits = subst (λ l. length l ≤ fuel) (sym same) h in
      (
        ap (read_subsets fuel) rest
            ∙ (subsets_read fuel (device_functions d) fits ∙ ap (named ids) same),
        total,
        inner,
      )
