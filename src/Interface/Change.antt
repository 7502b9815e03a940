-- ===== src/Interface/Change.antt =====
-- `USBD_IfConfig` as a whole: which interfaces it calls, and the configuration that it leaves.
use usbdevice.Base.{ℕ, zero, suc, ◌+◌, ◌≤◌, ◌<◌, ◌≡◌, ◌≢◌, ap, if◌then◌else◌, ◌==◌, arith}
use native.Mathlib.Decide.{ℕ_discrete}
use usbdevice.Device.{Platform, touch_if}
use usbdevice.World.{World, Class, on_dev, if_class_init, if_class_deinit}
use usbdevice.Interface.{clear_interface, start_interface, if_config}
use usbdevice.Interface.Config.{
  IsTame, each, each-if_count, each-config, clear_all, start_all, clear-keeps_count,
  start-keeps_count, start-keeps_config, clear_config_lem, start_config_lem, clear_config_zero,
  start_config_zero,
}

module _ {S : Type 0} (p : Platform) (c : Class S) (ti : IsTame S (if_class_init c))
    (td : IsTame S (if_class_deinit c)) where
  abbrev pub select : ℕ → World S → World S
  select n w = on_dev (λ d. record d { config_selector = n }) w

  -- A change of configuration, as the documentation of the function has it.
  abbrev pub change : ℕ → World S → World S
  change n w =
      let cleared = if w.dev.config_selector == 0 then w else clear_all p c ti td w in
      let selected = select n cleared in
      if w.dev.config_selector == n
      then w
      else if n == 0
      then selected
      else start_all p c ti td selected

  count-clear_all : (w : World S) → (clear_all p c ti td w).dev.if_count ≡ w.dev.if_count
  count-clear_all w =
      each-if_count (clear_interface p c) (clear-keeps_count p c ti td) w.dev.if_count 0 w

  -- `USBD_IfConfig` does nothing if the configuration is selected already. Otherwise it clears every
  -- mounted interface, each once and in order, if a configuration was selected, then stores the new
  -- configuration, then starts every mounted interface, each once and in order, if it is not 0. (For
  -- a count of interfaces that fits in its byte, and classes that leave the configuration alone.)
  pub if_config_lem : (n : ℕ) (w : World S) → w.dev.if_count < 256 → if_config p c n w ≡ change n w
  unfolding if_config
  if_config_lem n w lt = ground (
    arith,
    clear_config_zero p c ti td w,
    clear_config_lem p c ti td w,
    count-clear_all w,
    start_config_zero p c ti td (select n w),
    start_config_zero p c ti td (select n (clear_all p c ti td w)),
    start_config_lem p c ti td (select n w),
    start_config_lem p c ti td (select n (clear_all p c ti td w)),
  )

  -- The configuration that `USBD_IfConfig` is given is the one that the device has afterwards.
  pub if_config-config_selector :
      (n : ℕ) (w : World S)
      → w.dev.if_count < 256
      → ((if_config p c n w).dev.config_selector ≡ n)
        × ((if_config p c n w).dev.if_count ≡ w.dev.if_count)
  if_config-config_selector n w lt = rw (if_config_lem n w lt) (
      ground (
        arith,
        count-clear_all w,
        each-config (start_interface p c) (start-keeps_config p c ti td) w.dev.if_count 0
            (select n w),
        each-config (start_interface p c) (start-keeps_config p c ti td)
            (clear_all p c ti td w).dev.if_count 0 (select n (clear_all p c ti td w)),
        each-if_count (start_interface p c) (start-keeps_count p c ti td) w.dev.if_count 0
            (select n w),
        each-if_count (start_interface p c) (start-keeps_count p c ti td)
            (clear_all p c ti td w).dev.if_count 0 (select n (clear_all p c ti td w)),
      ))

  -- An alternate setting that is 0 stays 0 while interfaces are cleared.
  clear-zero_alt :
      (i q : ℕ) (w : World S)
      → (w.itf q).alt_selector ≡ 0
      → ((clear_interface p c i w).itf q).alt_selector ≡ 0
  unfolding clear_interface
  clear-zero_alt i q w e = ground (arith, td.keeps_alt (w.dev.ifs i) q (on_dev (touch_if p i) w))

  clear_sets_alt :
      (i : ℕ) (w : World S) → ((clear_interface p c i w).itf (w.dev.ifs i)).alt_selector ≡ 0
  unfolding clear_interface
  clear_sets_alt i w = rw (td.keeps_ifs (w.dev.ifs i) (on_dev (touch_if p i) w)) (ground arith)

  clear-keeps_ifs : (i : ℕ) (w : World S) → (clear_interface p c i w).dev.ifs ≡ w.dev.ifs
  unfolding clear_interface
  clear-keeps_ifs i w = td.keeps_ifs _ _

  each-zero_alt :
      (n i q : ℕ) (w : World S)
      → (w.itf q).alt_selector ≡ 0
      → ((each (clear_interface p c) n i w).itf q).alt_selector ≡ 0
  unfolding each
  each-zero_alt zero i q w e = e
  each-zero_alt (suc n) i q w e =
      each-zero_alt n (i + 1) q (clear_interface p c i w) (clear-zero_alt i q w e)

  pub each_sets_alt :
      (n i j : ℕ) (w : World S)
      → i ≤ j
      → j < i + n
      → ((each (clear_interface p c) n i w).itf (w.dev.ifs j)).alt_selector ≡ 0
  unfolding each
  each_sets_alt zero i j w le lt = absurd (omega arith)
  each_sets_alt (suc n) i j w le lt = elim (ℕ_discrete i j) [
    | yes e ↦
        each-zero_alt n (i + 1) (w.dev.ifs j) (clear_interface p c i w)
          (rw (← e) (clear_sets_alt i w))
    | no ne ↦
        rw (ap (λ f. f j) (clear-keeps_ifs i w)) at
          (each_sets_alt n (i + 1) j (clear_interface p c i w) (omega arith) (omega arith))
  ]

  -- When a configured device is set back to configuration 0, every mounted interface returns to its
  -- alternate setting 0, and the configuration is 0.
  pub if_config_zero :
      (w : World S) (j : ℕ)
      → w.dev.if_count < 256
      → w.dev.config_selector ≢ 0
      → j < w.dev.if_count
      → (((if_config p c 0 w).itf (w.dev.ifs j)).alt_selector ≡ 0)
        × ((if_config p c 0 w).dev.config_selector ≡ 0)
  if_config_zero w j lt ne lj =
      rw (if_config_lem 0 w lt)
        (ground (arith, each_sets_alt w.dev.if_count 0 j w (omega arith) (omega arith)))
