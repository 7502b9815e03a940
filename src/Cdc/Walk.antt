-- ===== src/Cdc/Walk.antt =====
-- The descriptors of the function as a host reads them.
use usbdevice.Base.{
  ℕ, ◌+◌, ◌%◌, ◌<◌, ◌≡◌, refl, arith, Bool, true, false, List, [], ◌∷◌, ltb, if◌then◌else◌, ◌&&◌,
  map,
}
use usbdevice.Device.{Platform, Device, is_full}
use usbdevice.Bulk.{bulk_desc}
use usbdevice.Descriptor.{ep_desc}
use usbdevice.Cdc.{CdcCtx, CdcOptions, CdcApp}
use usbdevice.Cdc.Mount.{get_desc, walk, field}

-- The first two bytes after the length of each descriptor: its type and its number, subtype or address.
abbrev pub head_of : List ℕ → ℕ × ℕ
head_of l = (field 1 l, field 2 l)

ep_desc_shape :
    (b : Bool) (a : ℕ) (d e : Device)
    → (t : ℕ) × ((x : ℕ) × ((y : ℕ) × ((if b then ep_desc a d else ep_desc a e)
            ≡ 7 ∷ 5 ∷ a ∷ t ∷ x ∷ y ∷ 1 ∷ [])))
unfolding ep_desc
ep_desc_shape true a d e = (_, (_, (_, refl)))
ep_desc_shape false a d e = (_, (_, (_, refl)))

pub bulk_desc_lem :
    (p : Platform) (a : ℕ) (d : Device)
    → (t : ℕ) × ((x : ℕ) × ((y : ℕ) × (bulk_desc p a d ≡ 7 ∷ 5 ∷ a ∷ t ∷ x ∷ y ∷ 1 ∷ [])))
bulk_desc_lem p a d = ep_desc_shape (p.hs_support && is_full d.speed) a _ _

module _ (p : Platform) (o : CdcOptions) (app : CdcApp) where
  -- A host that walks the descriptors by their lengths finds the association, the interface of the
  -- communication class with its four functional descriptors, and the data interface with its two
  -- endpoints, numbered by the places of the two interfaces. (In a build with more than two interfaces
  -- and with the notification endpoint.)
  pub walk_finds :
      (n : ℕ) (c : CdcCtx)
      → ltb 2 p.max_if_count ≡ true
      → o.notep_used ≡ true
      → n < 255
      → map head_of (walk 12 (get_desc p o app n c))
        ≡ (0x0B, n)
          ∷ (4, n)
          ∷ (0x24, 0)
          ∷ (0x24, 1)
          ∷ (0x24, 2)
          ∷ (0x24, 6)
          ∷ (5, c.itf.not_ep_num)
          ∷ (4, n + 1)
          ∷ (5, c.itf.out_ep_num)
          ∷ (5, c.itf.in_ep_num)
          ∷ []
  unfolding get_desc walk
  walk_finds n c several used below =
      let slave : (n + 1) % 256 ≡ n + 1 = omega arith in
      let (t, (x, (y, out_desc))) = bulk_desc_lem p c.itf.out_ep_num c.dev in
      let (u, (v, (w, in_desc))) = bulk_desc_lem p c.itf.in_ep_num c.dev in
      rw (out_desc, in_desc, several, used, slave) refl
