-- ===== src/Interface/Config.antt =====
-- `USBD_IfConfig` visits the mounted interfaces one after another, and leaves the new configuration.
use usbdevice.Base.{ℕ, zero, suc, ◌+◌, ◌-◌, ◌<◌, ◌≡◌, ◌≢◌, refl, sym, ◌∙◌, ap, arith}
use usbdevice.Device.{Platform}
use usbdevice.World.{World, Class, if_class_init, if_class_deinit}
use usbdevice.Interface.{
  clear_interface, start_interface, for_interfaces, clear_config, start_config,
}

-- What the stack relies on in a class: initialising or deinitialising an interface mounts and unmounts
-- none, and leaves the configuration and the alternate settings to the stack.
pub record IsTame (S : Type 0) (f : ℕ → World S → World S) : Type 0 where
  pub keeps_count : (r : ℕ) (w : World S) → (f r w).dev.if_count ≡ w.dev.if_count
  pub keeps_ifs : (r : ℕ) (w : World S) → (f r w).dev.ifs ≡ w.dev.ifs
  pub keeps_config : (r : ℕ) (w : World S) → (f r w).dev.config_selector ≡ w.dev.config_selector
  pub keeps_alt : (r q : ℕ) (w : World S) → ((f r w).itf q).alt_selector ≡ (w.itf q).alt_selector

-- The calls `body i`, `body (i + 1)`, … `body (i + n - 1)`, in this order.
unfoldable pub each : {S : Type 0} → (ℕ → World S → World S) → ℕ → ℕ → World S → World S
each body zero i w = w
each body (suc n) i w = each body n (i + 1) (body i w)

module _ {S : Type 0} (body : ℕ → World S → World S) where
  pub each-if_count :
      ((i : ℕ) (w : World S) → (body i w).dev.if_count ≡ w.dev.if_count)
      → (n i : ℕ) (w : World S) → (each body n i w).dev.if_count ≡ w.dev.if_count
  unfolding each
  each-if_count h zero i w = refl
  each-if_count h (suc n) i w = each-if_count h n (i + 1) (body i w) ∙ h i w

  pub each-ifs :
      ((i : ℕ) (w : World S) → (body i w).dev.ifs ≡ w.dev.ifs)
      → (n i : ℕ) (w : World S) → (each body n i w).dev.ifs ≡ w.dev.ifs
  unfolding each
  each-ifs h zero i w = refl
  each-ifs h (suc n) i w = each-ifs h n (i + 1) (body i w) ∙ h i w

  pub each-config :
      ((i : ℕ) (w : World S) → (body i w).dev.config_selector ≡ w.dev.config_selector)
      → (n i : ℕ) (w : World S) → (each body n i w).dev.config_selector ≡ w.dev.config_selector
  unfolding each
  each-config h zero i w = refl
  each-config h (suc n) i w = each-config h n (i + 1) (body i w) ∙ h i w

  -- `each` matches on `suc`, the loop tests its counter.
  each-zero : (n i : ℕ) (w : World S) → n ≡ 0 → each body n i w ≡ w
  unfolding each
  each-zero n i w e = rw e

  each-suc :
      (n i : ℕ) (w : World S) → n ≢ 0 → each body n i w ≡ each body (n - 1) (i + 1) (body i w)
  unfolding each
  each-suc zero i w ne = absurd (ne refl)
  each-suc (suc n) i w ne = ap (λ k. each body k (i + 1) (body i w)) pred
    where
      pred : n ≡ suc n - 1
      pred = omega arith

module _ {S : Type 0} (p : Platform) (c : Class S) where
  -- The loop of the source, with enough fuel, is the plain iteration over the indexes.
  pub for_interfaces-eq-each :
      (body : ℕ → World S → World S)
      → ((i : ℕ) (w : World S) → (body i w).dev.if_count ≡ w.dev.if_count)
      → (fuel i : ℕ) (w : World S) → w.dev.if_count < i + fuel
      → for_interfaces p c body fuel i w ≡ each body (w.dev.if_count - i) i w
  unfolding for_interfaces
  for_interfaces-eq-each body h zero i w lt =
      sym (each-zero body (w.dev.if_count - i) i w (omega arith))
  for_interfaces-eq-each body h (suc fuel) i w lt = ground (
    arith,
    for_interfaces-eq-each body h fuel (i + 1) (body i w),
    h i w,
    each-zero body (w.dev.if_count - i) i w,
    each-suc body (w.dev.if_count - i) i w,
  )

  module _ (ti : IsTame S (if_class_init c)) (td : IsTame S (if_class_deinit c)) where
    -- The three steps of a change of configuration, each over all mounted interfaces.
    abbrev pub clear_all : World S → World S
    clear_all w = each (clear_interface p c) w.dev.if_count 0 w

    abbrev pub start_all : World S → World S
    start_all w = each (start_interface p c) w.dev.if_count 0 w

    pub clear-keeps_count :
        (i : ℕ) (w : World S) → (clear_interface p c i w).dev.if_count ≡ w.dev.if_count
    unfolding clear_interface
    clear-keeps_count i w = td.keeps_count _ _

    pub start-keeps_count :
        (i : ℕ) (w : World S) → (start_interface p c i w).dev.if_count ≡ w.dev.if_count
    unfolding start_interface
    start-keeps_count i w = ti.keeps_count _ _

    pub clear-keeps_config :
        (i : ℕ) (w : World S)
        → (clear_interface p c i w).dev.config_selector ≡ w.dev.config_selector
    unfolding clear_interface
    clear-keeps_config i w = td.keeps_config _ _

    pub start-keeps_config :
        (i : ℕ) (w : World S)
        → (start_interface p c i w).dev.config_selector ≡ w.dev.config_selector
    unfolding start_interface
    start-keeps_config i w = ti.keeps_config _ _

    pub clear_config_lem :
        (w : World S)
        → w.dev.if_count < 256
        → w.dev.config_selector ≢ 0
        → clear_config p c w ≡ clear_all w
    unfolding clear_config
    clear_config_lem w lt ne =
        ground (arith, for_interfaces-eq-each (clear_interface p c) clear-keeps_count 256 0 w)

    pub start_config_lem :
        (w : World S)
        → w.dev.if_count < 256
        → w.dev.config_selector ≢ 0
        → start_config p c w ≡ start_all w
    unfolding start_config
    start_config_lem w lt ne =
        ground (arith, for_interfaces-eq-each (start_interface p c) start-keeps_count 256 0 w)

    pub clear_config_zero : (w : World S) → w.dev.config_selector ≡ 0 → clear_config p c w ≡ w
    unfolding clear_config
    clear_config_zero w e = ground arith

    pub start_config_zero : (w : World S) → w.dev.config_selector ≡ 0 → start_config p c w ≡ w
    unfolding start_config
    start_config_zero w e = ground arith
