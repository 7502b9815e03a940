-- ===== src/Bus/Kept.antt =====
-- What the steps leave alone: the mounted interfaces, the configuration, the request of the host and the
-- alternate settings.
use usbdevice.Base.{ℕ, ◌≤◌, ◌<◌, ◌≡◌, ◌⊎◌, refl, ◌∙◌, ap, arith}
use usbdevice.Device.{Device, EpRef, Platform, touch_if}
use usbdevice.World.{
  World, Class, on_dev, if_class_init, if_class_deinit, if_class_setup_stage, if_class_data_stage,
  if_class_in_data, if_class_out_data,
}

pub record KeepsMount (d e : Device) : Type 0 where
  pub count : e.if_count ≡ d.if_count
  pub ifs : e.ifs ≡ d.ifs
  pub config : e.config_selector ≡ d.config_selector
  pub setup : e.setup ≡ d.setup

pub record Kept {S : Type 0} (w v : World S) : Type 0 where
  pub mount : KeepsMount w.dev v.dev
  pub alts : (q : ℕ) → (v.itf q).alt_selector ≡ (w.itf q).alt_selector
  pub counts : (q : ℕ) → (v.itf q).alt_count ≡ (w.itf q).alt_count

-- What the stack changes itself: the handles of the interfaces stay as they are.
pub record Own {S : Type 0} (w v : World S) : Type 0 where
  pub mount : KeepsMount w.dev v.dev
  pub same : v.itf ≡ w.itf

-- The device is no longer configured, and all its interfaces are back at their first setting.
pub record Closed {S : Type 0} (w v : World S) : Type 0 where
  pub count : v.dev.if_count ≡ w.dev.if_count
  pub ifs : v.dev.ifs ≡ w.dev.ifs
  pub config : v.dev.config_selector ≡ 0
  pub alts : (j : ℕ) → j < w.dev.if_count → (v.itf (w.dev.ifs j)).alt_selector ≡ 0
  pub counts : (q : ℕ) → (v.itf q).alt_count ≡ (w.itf q).alt_count

-- What the stack relies on in a class: its functions mount no interface, and leave the configuration,
-- the request and the alternate settings to the stack. The end of a data stage may close the device instead.
pub record IsModest (S : Type 0) (c : Class S) : Type 0 where
  pub init : (r : ℕ) (w : World S) → Kept w (if_class_init c r w)
  pub deinit : (r : ℕ) (w : World S) → Kept w (if_class_deinit c r w)
  pub setup_stage : (r : ℕ) (w : World S) → Kept w (if_class_setup_stage c r w).1
  pub data_stage :
      (r : ℕ) (w : World S)
      → w.dev.if_count < 256
      → Kept w (if_class_data_stage c r w) ⊎ Closed w (if_class_data_stage c r w)
  pub in_data : (r : ℕ) (e : EpRef) (w : World S) → Kept w (if_class_in_data c r e w)
  pub out_data : (r : ℕ) (e : EpRef) (w : World S) → Kept w (if_class_out_data c r e w)

pub KeepsMount-refl : (d : Device) → KeepsMount d d
KeepsMount-refl d = record { count = refl; ifs = refl; config = refl; setup = refl }

pub KeepsMount-trans : {d e f : Device} → KeepsMount d e → KeepsMount e f → KeepsMount d f
KeepsMount-trans h k = record {
  count = k.count ∙ h.count;
  ifs = k.ifs ∙ h.ifs;
  config = k.config ∙ h.config;
  setup = k.setup ∙ h.setup;
}

module _ {S : Type 0} where
  pub Kept-refl : (w : World S) → Kept w w
  Kept-refl w = record { mount = KeepsMount-refl w.dev; alts = λ q. refl; counts = λ q. refl }

  pub Kept-trans : {w v u : World S} → Kept w v → Kept v u → Kept w u
  Kept-trans h k = record {
    mount = KeepsMount-trans h.mount k.mount;
    alts = λ q. k.alts q ∙ h.alts q;
    counts = λ q. k.counts q ∙ h.counts q;
  }

  pub Own-refl : (w : World S) → Own w w
  Own-refl w = record { mount = KeepsMount-refl w.dev; same = refl }

  pub Own-trans : {w v u : World S} → Own w v → Own v u → Own w u
  Own-trans h k = record { mount = KeepsMount-trans h.mount k.mount; same = k.same ∙ h.same }

  pub Own-dev :
      (f : Device → Device) (w : World S) → KeepsMount w.dev (f w.dev) → Own w (on_dev f w)
  Own-dev f w h = record { mount = h; same = refl }

  pub touch-Own : (p : Platform) (i : ℕ) (w : World S) → Own w (on_dev (touch_if p i) w)
  touch-Own p i w =
      Own-dev (touch_if p i) w (record { count = refl; ifs = refl; config = refl; setup = refl })

  pub Own-Kept : {w v : World S} → Own w v → Kept w v
  Own-Kept h = record {
    mount = h.mount;
    alts = λ q. ap (λ f. (f q).alt_selector) h.same;
    counts = λ q. ap (λ f. (f q).alt_count) h.same;
  }

module _ {S : Type 0} {w v u : World S} where
  pub closed_before : Closed w v → Kept v u → Closed w u
  closed_before h k = record {
    count = k.mount.count ∙ h.count;
    ifs = k.mount.ifs ∙ h.ifs;
    config = k.mount.config ∙ h.config;
    alts = λ j lt. k.alts (w.dev.ifs j) ∙ h.alts j lt;
    counts = λ q. k.counts q ∙ h.counts q;
  }

  pub closed_after : Kept w v → Closed v u → Closed w u
  closed_after h k = record {
    count = k.count ∙ h.mount.count;
    ifs = k.ifs ∙ h.mount.ifs;
    config = k.config;
    alts = λ j lt. rw (h.mount.ifs, h.mount.count) at (k.alts j) lt;
    counts = λ q. k.counts q ∙ h.counts q;
  }

-- The state of a device that is in use: `n` interfaces are mounted as `f` tells, it has one
-- configuration, each of its interfaces is in a setting that it has, and in the first one while the
-- device is not configured.
pub record IsSound {S : Type 0} (n : ℕ) (f : ℕ → ℕ) (w : World S) : Type 0 where
  pub count : w.dev.if_count ≡ n
  pub ifs : w.dev.ifs ≡ f
  pub config : w.dev.config_selector ≤ 1
  pub selected : (j : ℕ) → j < n → (w.itf (f j)).alt_selector < (w.itf (f j)).alt_count
  pub settled : w.dev.config_selector ≡ 0 → (j : ℕ) → j < n → (w.itf (f j)).alt_selector ≡ 0

module _ {S : Type 0} {n : ℕ} {f : ℕ → ℕ} {w v : World S} where
  pub Kept-IsSound : Kept w v → IsSound n f w → IsSound n f v
  Kept-IsSound k h = record {
    count = k.mount.count ∙ h.count;
    ifs = k.mount.ifs ∙ h.ifs;
    config = rw k.mount.config h.config;
    selected = λ j lt. rw (k.alts (f j), k.counts (f j)) (h.selected j lt);
    settled = λ e j lt. rw (k.alts (f j)) (h.settled (rw (k.mount.config) at e) j lt);
  }

  pub Closed-IsSound : Closed w v → IsSound n f w → IsSound n f v
  Closed-IsSound k h = record {
    count = k.count ∙ h.count;
    ifs = k.ifs ∙ h.ifs;
    config = rw k.config (omega arith);
    selected = λ j lt. zero_selected j lt;
    settled = λ e j lt. zeros j lt;
  }
    where
      zeros : (j : ℕ) → j < n → (v.itf (f j)).alt_selector ≡ 0
      zeros j lt = rw (h.ifs, h.count) at (k.alts j) lt

      zero_selected : (j : ℕ) → j < n → (v.itf (f j)).alt_selector < (v.itf (f j)).alt_count
      zero_selected j lt = omega (arith, zeros j lt, k.counts (f j), h.selected j lt)
