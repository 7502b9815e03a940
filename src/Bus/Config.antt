-- ===== src/Bus/Config.antt =====
-- A change of configuration (`USBD_IfConfig`) on a device that is in use.
use usbdevice.Base.{
  ℕ, zero, suc, ◌+◌, ◌≤◌, ◌<◌, ◌≡◌, ◌≢◌, ◌⊎◌, inl, inr, refl, ◌∙◌, arith, ◌==◌, if◌then◌else◌,
  if_holds,
}
use native.Mathlib.Decide.{ℕ_discrete}
use usbdevice.Device.{Platform, call, pd_deinit}
use usbdevice.World.{World, Class, on_dev, set_alt_selector, if_class_init, if_class_deinit}
use usbdevice.Interface.{clear_interface, start_interface, if_config}
use usbdevice.Interface.Config.{IsTame, each}
use usbdevice.Interface.Change.{if_config_lem, each_sets_alt, select}
use usbdevice.Callback.{deinit}
use usbdevice.Bus.Kept.{
  KeepsMount, KeepsMount-refl, KeepsMount-trans, Kept, Kept-refl, Kept-trans, Own-dev, Own-Kept,
  touch-Own, IsModest, IsSound, Kept-IsSound, Closed,
}

module _ {S : Type 0} (p : Platform) (c : Class S) (m : IsModest S c) where
  pub modest-IsTame_init : IsTame S (if_class_init c)
  modest-IsTame_init = record {
    keeps_count = λ r w. (m.init r w).mount.count;
    keeps_ifs = λ r w. (m.init r w).mount.ifs;
    keeps_config = λ r w. (m.init r w).mount.config;
    keeps_alt = λ r q w. (m.init r w).alts q;
  }

  pub modest-IsTame_deinit : IsTame S (if_class_deinit c)
  modest-IsTame_deinit = record {
    keeps_count = λ r w. (m.deinit r w).mount.count;
    keeps_ifs = λ r w. (m.deinit r w).mount.ifs;
    keeps_config = λ r w. (m.deinit r w).mount.config;
    keeps_alt = λ r q w. (m.deinit r w).alts q;
  }

  start-Kept : (i : ℕ) (w : World S) → Kept w (start_interface p c i w)
  unfolding start_interface
  start-Kept i w = Kept-trans (Own-Kept (touch-Own p i w)) (m.init _ _)

  each-Kept : (k i : ℕ) (w : World S) → Kept w (each (start_interface p c) k i w)
  unfolding each
  each-Kept zero i w = Kept-refl w
  each-Kept (suc k) i w =
      Kept-trans (start-Kept i w) (each-Kept k (i + 1) (start_interface p c i w))

  -- An interface that is cleared keeps its count of settings, and its setting or the first one.
  record Lowered (w v : World S) : Type 0 where
    mount : KeepsMount w.dev v.dev
    alts :
        (q : ℕ) → ((v.itf q).alt_selector ≡ (w.itf q).alt_selector) ⊎ ((v.itf q).alt_selector ≡ 0)
    counts : (q : ℕ) → (v.itf q).alt_count ≡ (w.itf q).alt_count

  Lowered-trans : {w v u : World S} → Lowered w v → Lowered v u → Lowered w u
  Lowered-trans h k = record {
    mount = KeepsMount-trans h.mount k.mount;
    alts = λ q. grind (arith, h.alts q, k.alts q);
    counts = λ q. k.counts q ∙ h.counts q;
  }

  Kept-Lowered : {w v : World S} → Kept w v → Lowered w v
  Kept-Lowered h = record { mount = h.mount; alts = λ q. inl (h.alts q); counts = h.counts }

  Lowered-set : (r : ℕ) (w : World S) → Lowered w (set_alt_selector r 0 w)
  Lowered-set r w = record {
    mount = KeepsMount-refl w.dev;
    alts = λ q. ground arith;
    counts = λ q. ground arith;
  }

  clear-Lowered : (i : ℕ) (w : World S) → Lowered w (clear_interface p c i w)
  unfolding clear_interface
  clear-Lowered i w =
      Lowered-trans (Kept-Lowered (Kept-trans (Own-Kept (touch-Own p i w)) (m.deinit _ _)))
        (Lowered-set _ _)

  each-Lowered : (k i : ℕ) (w : World S) → Lowered w (each (clear_interface p c) k i w)
  unfolding each
  each-Lowered zero i w = Kept-Lowered (Kept-refl w)
  each-Lowered (suc k) i w =
      Lowered-trans (clear-Lowered i w) (each-Lowered k (i + 1) (clear_interface p c i w))

  Lowered-IsSound :
      {n : ℕ} {f : ℕ → ℕ} {w v : World S} → Lowered w v → IsSound n f w → IsSound n f v
  Lowered-IsSound {f = f} k h = record {
    count = k.mount.count ∙ h.count;
    ifs = k.mount.ifs ∙ h.ifs;
    config = rw k.mount.config h.config;
    selected = λ j lt. grind (arith, k.alts (f j), k.counts (f j), h.selected j lt);
    settled = λ e j lt. grind (arith, k.alts (f j), k.mount.config, h.settled);
  }

  select-IsSound :
      {n : ℕ} {f : ℕ → ℕ}
      → (k : ℕ) (w : World S) → k ≤ 1
      → ((j : ℕ) → j < n → (w.itf (f j)).alt_selector ≡ 0)
      → IsSound n f w
      → IsSound n f (on_dev (λ d. record d { config_selector = k }) w)
  select-IsSound k w le zeros h = record {
    count = h.count;
    ifs = h.ifs;
    config = le;
    selected = h.selected;
    settled = λ e j lt. zeros j lt;
  }

  -- Once cleared, every interface is in its first setting.
  abbrev cleared : World S → World S
  cleared w = each (clear_interface p c) w.dev.if_count 0 w

  cleared-settled :
      {n : ℕ} {f : ℕ → ℕ}
      → (w : World S) → IsSound n f w
      → (j : ℕ) → j < n
      → ((cleared w).itf (f j)).alt_selector ≡ 0
  cleared-settled {f = f} w h j lt = rw (← h.ifs) (
      each_sets_alt p c modest-IsTame_init modest-IsTame_deinit w.dev.if_count 0 j w (omega arith)
        (rw h.count (omega arith)))

  -- The device between the two loops.
  abbrev between : World S → World S
  between w = if w.dev.config_selector == 0 then w else cleared w

  between-IsSound : {n : ℕ} {f : ℕ → ℕ} (w : World S) → IsSound n f w → IsSound n f (between w)
  between-IsSound {n} {f} w h =
      if_holds (IsSound n f) (w.dev.config_selector == 0) h
        (Lowered-IsSound (each-Lowered w.dev.if_count 0 w) h)

  between-settled :
      {n : ℕ} {f : ℕ → ℕ}
      → (w : World S) → IsSound n f w
      → (j : ℕ) → j < n
      → ((between w).itf (f j)).alt_selector ≡ 0
  between-settled w h j lt = elim (ℕ_discrete w.dev.config_selector 0) [
    | yes e ↦ ground (arith, h.settled e j lt)
    | no ne ↦ ground (arith, cleared-settled w h j lt)
  ]

  -- A change to configuration 0 or 1 keeps a device sound.
  pub if_config-IsSound :
      {n : ℕ} {f : ℕ → ℕ}
      → (k : ℕ) (w : World S) → k ≤ 1
      → n < 256
      → IsSound n f w
      → IsSound n f (if_config p c k w)
  if_config-IsSound {n} {f} k w le small h =
      rw (if_config_lem p c modest-IsTame_init modest-IsTame_deinit k w (rw h.count small)) (
        if_holds (IsSound n f) (w.dev.config_selector == k) h
          (if_holds (IsSound n f) (k == 0) selected (Kept-IsSound (each-Kept _ 0 _) selected)))
    where
      selected : IsSound n f (on_dev (λ d. record d { config_selector = k }) (between w))
      selected = select-IsSound k (between w) le (between-settled w h) (between-IsSound w h)

  if_config-cleared :
      (w : World S)
      → w.dev.if_count < 256
      → w.dev.config_selector ≢ 0
      → if_config p c 0 w ≡ select p c modest-IsTame_init modest-IsTame_deinit 0 (cleared w)
  if_config-cleared w small ne =
      rw (if_config_lem p c modest-IsTame_init modest-IsTame_deinit 0 w small) (ground arith)

  if_config_same : (w : World S) → w.dev.config_selector ≡ 0 → if_config p c 0 w ≡ w
  unfolding if_config
  if_config_same w e = ground arith

  cleared-Closed :
      (w : World S)
      → Closed w (on_dev (λ d. call pd_deinit (record d { config_selector = 0 })) (cleared w))
  cleared-Closed w = record {
    count = (each-Lowered w.dev.if_count 0 w).mount.count;
    ifs = (each-Lowered w.dev.if_count 0 w).mount.ifs;
    config = refl;
    alts = λ j lt.
        each_sets_alt p c modest-IsTame_init modest-IsTame_deinit w.dev.if_count 0 j w (omega arith)
          (omega arith);
    counts = (each-Lowered w.dev.if_count 0 w).counts;
  }

  -- `USBD_Deinit` leaves the mounted interfaces alone, and closes the device if it is configured.
  pub deinit-Closed :
      (w : World S) → w.dev.if_count < 256 → Kept w (deinit p c w) ⊎ Closed w (deinit p c w)
  unfolding deinit
  deinit-Closed w small = elim (ℕ_discrete w.dev.config_selector 0) [
    | yes e ↦ inl (
        rw (if_config_same w e) (
          Own-Kept (
            Own-dev (call pd_deinit) w
              (record { count = refl; ifs = refl; config = refl; setup = refl }))))
    | no ne ↦ inr (rw (if_config-cleared w small ne) (cleared-Closed w))
  ]
