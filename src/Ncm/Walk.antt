-- ===== src/Ncm/Walk.antt =====
-- The descriptors of the function as a host reads them.
use usbdevice.Base.{ℕ, ◌+◌, ◌*◌, ◌%◌, ◌<◌, ◌≡◌, refl, arith, true, List, [], ◌∷◌, ltb, map}
use usbdevice.Device.{Platform}
use usbdevice.Bulk.{bulk_desc}
use usbdevice.Ncm.{NcmCtx}
use usbdevice.Ncm.Describe.{get_desc}
use usbdevice.Cdc.Mount.{walk, field}
use usbdevice.Cdc.Walk.{bulk_desc_lem}

-- The type of a descriptor, its number, subtype or address, and the byte behind that.
abbrev pub begin_of : List ℕ → ℕ × ℕ × ℕ
begin_of l = (field 1 l, field 2 l, field 3 l)

module _ (p : Platform) where
  -- A host that walks the descriptors by their lengths finds the association of two interfaces, the
  -- interface of the communication class with its functional descriptors, the alternate setting 0 of the
  -- data interface without endpoints, and its alternate setting 1 with the two endpoints, numbered
  -- by the places of the two interfaces. (In a build with more than two interfaces, with
  -- fewer than 240 in front of the function.)
  desc_walk :
      (n : ℕ) (c : NcmCtx)
      → ltb 2 p.max_if_count ≡ true
      → n < 239
      → map begin_of (walk 12 (get_desc p n c))
        ≡ (0x0B, n, 2)
          ∷ (4, n, 0)
          ∷ (0x24, 0, 0x10)
          ∷ (0x24, 6, n)
          ∷ (0x24, 0x0F, n + 17)
          ∷ (0x24, 0x1A, 0)
          ∷ (5, c.itf.not_ep_num, 3)
          ∷ (4, n + 1, 0)
          ∷ (4, n + 1, 1)
          ∷ (5, c.itf.out_ep_num, field 3 (bulk_desc p c.itf.out_ep_num c.dev))
          ∷ (5, c.itf.in_ep_num, field 3 (bulk_desc p c.itf.in_ep_num c.dev))
          ∷ []
  unfolding get_desc walk
  desc_walk n c several below =
      let slave : (n + 1) % 256 ≡ n + 1 = omega arith in
      let address : (1 + n + 16 * 1) % 256 ≡ n + 17 = omega arith in
      let (t, (x, (y, out_desc))) = bulk_desc_lem p c.itf.out_ep_num c.dev in
      let (u, (v, (w, in_desc))) = bulk_desc_lem p c.itf.in_ep_num c.dev in
      rw (out_desc, in_desc, several, slave, address) refl
