-- ===== src/Ncm/Space.antt =====
-- Where datagrams are placed: the space of a page.
use usbdevice.Base.{
  ℕ, ◌+◌, ◌-◌, ◌*◌, ◌≤◌, ◌<◌, ◌≡◌, refl, ap, arith, Bool, true, false, Option, none, some, List, [],
  ◌∷◌, length, leb, ltb, not, ◌&&◌, ◌==◌, ◌*◌, if◌then◌else◌,
}
use usbdevice.Device.{ReturnType, Platform, EpRef, is_in}
use usbdevice.Ncm.{
  NtbState, ntb_empty, ntb_ready, is_ntb_empty, is_ntb_ready, ntb_processing, is_ntb_processing,
  header_size, table_size, Ncm, NcmCtx, NcmOptions, in_page_size, align4,
}
use usbdevice.Ncm.Events.{
  NcmEvent, put, alloc, set, take, sent, data_in, AreInPage, step, run, take_fill,
}
use usbdevice.Ncm.Send.{
  send_ntb, in_data, reserve, put_allocated, alloc_datagram, set_datagram, put_datagram,
}
use usbdevice.Ncm.Receive.{get_datagram}
use usbdevice.Ncm.Stages.{data_stage, read32}

-- The datagrams, the table for them and the space that is left lie in the page.
pub record HasSpace (o : NcmOptions) (i : Ncm) : Type 0 where
  pub inside : i.rem_size + i.in_index + table_size + 4 * i.dg_count ≤ in_page_size o
  pub least : header_size + table_size ≤ i.max_size
  pub most : i.max_size ≤ in_page_size o

-- A property of both branches, the first under its condition.
branches :
    {A : Type 0} (P : A → Type 0) (x : Bool) {a b : A}
    → (x ≡ true → P a)
    → P b
    → P (if x then a else b)
branches P true f k = f refl
branches P false f k = k

module _ (p : Platform) (o : NcmOptions) (small : in_page_size o < 65512) where
  send-HasSpace : (page : ℕ) (c : NcmCtx) → HasSpace o c.itf → HasSpace o (send_ntb p o page c).itf
  unfolding send_ntb
  send-HasSpace page c h = record {
    inside = omega (arith, small, h.least, h.most);
    least = h.least;
    most = h.most;
  }

  reserve-HasSpace :
      (len : ℕ) (i : Ncm)
      → HasSpace o i
      → align4 len + 4 ≤ i.rem_size
      → HasSpace o (reserve p o len i)
  unfolding reserve
  reserve-HasSpace len i h r = record {
    inside = omega (arith, small, h.inside, r);
    least = h.least;
    most = h.most;
  }

  -- The state of the block does not matter.
  filling-HasSpace :
      (s : NtbState) (i : Ncm) → HasSpace o i → HasSpace o (record i { fill_state = s })
  filling-HasSpace s i h = record { inside = h.inside; least = h.least; most = h.most }

  alloc-HasSpace :
      (len : ℕ) (c : NcmCtx) → HasSpace o c.itf → HasSpace o (alloc_datagram p o len c).1.itf
  unfolding alloc_datagram
  alloc-HasSpace len c h =
      let busy = record c.itf { fill_state = ntb_processing } in
      let freed = filling-HasSpace ntb_processing c.itf h in
      let space = λ (r : Option ℕ × NcmCtx). HasSpace o r.1.itf in
      branches space
        (not (c.itf.connection == 0) && leb len 1514 && not (is_ntb_processing c.itf.fill_state))
        (λ _.
          branches space (leb (align4 len + 4) c.itf.rem_size)
            (λ e. reserve-HasSpace len busy freed (ground (arith, e))) freed)
        h

  set-HasSpace : (c : NcmCtx) → HasSpace o c.itf → HasSpace o (set_datagram p o c).1.itf
  unfolding set_datagram
  set-HasSpace c h =
      branches (λ (r : ReturnType × NcmCtx). HasSpace o r.1.itf)
        (is_ntb_processing c.itf.fill_state)
        (λ _.
          branches (λ (v : NcmCtx). HasSpace o v.itf) (is_ntb_empty c.itf.send_state)
            (λ _. send-HasSpace c.itf.in_page c h) (filling-HasSpace ntb_ready c.itf h))
        h

  put-HasSpace :
      (xs : List ℕ) (c : NcmCtx) → HasSpace o c.itf → HasSpace o (put_datagram p o xs c).1.itf
  unfolding put_datagram
  put-HasSpace xs c h =
      allocated (alloc_datagram p o (length xs) c) (alloc-HasSpace (length xs) c h)
    where
      allocated :
          (r : Option ℕ × NcmCtx)
          → HasSpace o r.1.itf
          → HasSpace o (put_allocated p o xs c.itf.in_index r).1.itf
      allocated (none, v) k = k
      allocated (some at, v) k =
          set-HasSpace _ (record { inside = k.inside; least = k.least; most = k.most })

  in_data-HasSpace :
      (ep : EpRef) (c : NcmCtx) → HasSpace o c.itf → HasSpace o (in_data p o ep c).itf
  unfolding in_data
  in_data-HasSpace ep c h =
      let freed : HasSpace o (record c.itf { send_state = ntb_empty }) = record {
        inside = h.inside;
        least = h.least;
        most = h.most;
      } in
      branches (λ (v : NcmCtx). HasSpace o v.itf) (is_ntb_ready c.itf.fill_state)
        (λ _. send-HasSpace _ _ freed) freed

  take-HasSpace : (c : NcmCtx) → HasSpace o c.itf → HasSpace o (get_datagram p o c).1.itf
  take-HasSpace c h =
      let e = take_fill p o c in
      let max = ap (λ x. x.3) e in
      record {
        inside = omega (arith, h.inside, ap (λ x. x.0) e, ap (λ x. x.1) e, ap (λ x. x.2) e);
        least = omega (arith, h.least, max);
        most = omega (arith, h.most, max);
      }

  resize-HasSpace :
      (c : NcmCtx)
      → HasSpace o c.itf
      → read32 c.dev.ctrl_data ≤ in_page_size o
      → HasSpace o (data_stage c).itf
  unfolding data_stage
  resize-HasSpace c h m =
      branches (λ (v : NcmCtx). HasSpace o v.itf)
        (not (is_in c.dev.setup.direction)
          && (c.dev.setup.request == 134)
          && ltb (header_size + table_size) (read32 c.dev.ctrl_data))
        (λ e. record { inside = h.inside; least = ground (arith, e); most = m }) h

  step-HasSpace :
      (e : NcmEvent) (es : List NcmEvent) (c : NcmCtx)
      → AreInPage o (e ∷ es)
      → HasSpace o c.itf
      → HasSpace o (step p o e c).itf × AreInPage o es
  unfolding step
  step-HasSpace (put xs) es c m h = (put-HasSpace xs c h, m)
  step-HasSpace (alloc len) es c m h = (alloc-HasSpace len c h, m)
  step-HasSpace set es c m h = (set-HasSpace c h, m)
  step-HasSpace take es c m h = (take-HasSpace c h, m)
  step-HasSpace (sent ep) es c m h = (in_data-HasSpace ep c h, m)
  step-HasSpace (data_in d) es c m h = (resize-HasSpace (record c { dev = d }) h m.0, m.1)

  run-HasSpace :
      (es : List NcmEvent) (c : NcmCtx)
      → AreInPage o es
      → HasSpace o c.itf
      → HasSpace o (run p o es c).itf
  unfolding run
  run-HasSpace [] c m h = h
  run-HasSpace (e ∷ es) c m h =
      let (k, r) = step-HasSpace e es c m h in run-HasSpace es (step p o e c) r k

  granted :
      (len at : ℕ) (c : NcmCtx)
      → (alloc_datagram p o len c).0 ≡ some at
      → let busy = record c.itf { fill_state = ntb_processing } in
        (at ≡ c.itf.in_at c.itf.in_page + c.itf.in_index)
        × (align4 len + 4 ≤ c.itf.rem_size)
        × ((alloc_datagram p o len c).1 ≡ record c { itf = reserve p o len busy })
  unfolding alloc_datagram
  granted len at c e = ground (arith, e)

  -- Every datagram that is allocated, whatever datagrams were put, allocated, completed and taken before,
  -- whatever transfers have ended and sizes the host has set, lies in its page behind the datagrams
  -- before it, and ends before the length that is saved for it and before those saved earlier, if the
  -- host never asks for blocks that are larger than a page.
  pub allocations_fit :
      (es : List NcmEvent) (len at : ℕ) (c : NcmCtx)
      → HasSpace o c.itf
      → AreInPage o es
      → (alloc_datagram p o len (run p o es c)).0 ≡ some at
      → let i = (run p o es c).itf in
        let v = (alloc_datagram p o len (run p o es c)).1.itf in
        (at ≡ i.in_at i.in_page + i.in_index)
        × (i.in_index + len ≤ in_page_size o - 4 * (i.dg_count + 1))
        × (v.in_index ≡ i.in_index + align4 len)
        × (v.in_index + table_size + 4 * v.dg_count ≤ in_page_size o)
  unfolding reserve
  allocations_fit es len at c h m e =
      let k = run-HasSpace es c m h in
      let (place, room, same) = granted len at (run p o es c) e in
      rw same (
        place,
        omega (arith, k.inside, room),
        omega (arith, small, k.inside, room),
        omega (arith, small, k.inside, room),
      )
