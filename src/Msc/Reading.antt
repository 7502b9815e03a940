-- ===== src/Msc/Reading.antt =====
-- A read that the host sees through to its end.
use usbdevice.Base.{
  ℕ, zero, suc, ◌-◌, ◌*◌, ◌%◌, ◌≤◌, ◌<◌, ◌≡◌, true, false, refl, Bool-cases, inl, inr, List, ◌∷◌,
  ◌==◌, if◌then◌else◌, arith, min,
}
use usbdevice.Device.{state_idle, Platform, in_ep, set_ep_state}
use usbdevice.Msc.{
  data_in, status_in, cmd_passed, msc_buffer_size, LuCall, Msc, MscCtx, current, word_mod,
}
use usbdevice.Msc.Blocks.{read_call, is_ok, on_msc_dev, in_data, process_read, read_part, move_on}

-- The host takes the parts of a read one after another, `n` at most: the endpoint is idle again, and
-- the class is told.
unfoldable pub serve : Platform → ℕ → MscCtx → MscCtx
serve p zero c = c
serve p (suc n) c =
    let freed = on_msc_dev (set_ep_state (in_ep (c.itf.in_ep_num % 16)) state_idle) c in
    let rest = serve p n (in_data p freed) in if c.itf.rem_length == 0 then c else rest

-- A transfer to the host under way, from a unit whose reads succeed.
pub record IsReading (i : Msc) : Type 0 where
  pub state_in : i.state ≡ data_in
  pub passed : i.csw.status ≡ cmd_passed
  pub reads : (l : List LuCall) → is_ok ((current i).read l).0 ≡ true
  pub within : i.rem_length ≤ i.csw.data_residue
  pub word : i.csw.data_residue < word_mod

in_data_lem :
    (p : Platform) (c : MscCtx)
    → IsReading c.itf
    → let i = (in_data p c).itf in
      let len = min c.itf.rem_length msc_buffer_size in
      (i.rem_length ≡ c.itf.rem_length - len)
      × (i.csw.data_residue ≡ c.itf.csw.data_residue - len)
      × (i.csw.status ≡ cmd_passed)
      × (i.state ≡ (if c.itf.rem_length - len == 0 then status_in else data_in))
      × (current i ≡ current c.itf)
unfolding in_data process_read read_part move_on
in_data_lem p c h = ground (arith, h.reads (read_call c.itf ∷ c.itf.log))

serve_done : (p : Platform) (n : ℕ) (c : MscCtx) → c.itf.rem_length ≡ 0 → serve p n c ≡ c
unfolding serve
serve_done p zero c e = refl
serve_done p (suc n) c e = rw e refl

-- A read ends: once the host has taken as many parts of 512 bytes as the length asks for, nothing
-- remains, the residue is smaller by the whole length, the command has passed, and the next transfer is
-- its status. (For a unit whose reads succeed.)
pub serve_ends :
    (p : Platform) (n : ℕ) (c : MscCtx)
    → IsReading c.itf
    → 0 < c.itf.rem_length
    → c.itf.rem_length ≤ n * msc_buffer_size
    → let i = (serve p n c).itf in
      (i.state ≡ status_in)
      × (i.rem_length ≡ 0)
      × (i.csw.data_residue ≡ c.itf.csw.data_residue - c.itf.rem_length)
      × (i.csw.status ≡ cmd_passed)
unfolding serve
serve_ends p zero c h pos le = absurd (omega arith)
serve_ends p (suc n) c h pos le =
    let freed = on_msc_dev (set_ep_state (in_ep (c.itf.in_ep_num % 16)) state_idle) c in
    let next = in_data p freed in
    let (rem, residue, passed, state, unit) = in_data_lem p freed h in
    let within = h.within in
    let word = h.word in
    let nonzero : (c.itf.rem_length == 0) ≡ false = ground arith in
    rw nonzero (elim (Bool-cases (next.itf.rem_length == 0)) [
      | inl e ↦
          rw (serve_done p n next (ground arith)) (ground arith, ground arith, ground arith, passed)
      | inr e ↦
          let more : 0 < next.itf.rem_length = ground arith in
          let reading : IsReading next.itf = record {
            state_in = ground arith;
            passed = passed;
            reads = rw unit h.reads;
            within = ground arith;
            word = ground arith;
          } in
          let (state', rem', residue', passed') = serve_ends p n next reading more (ground arith) in
          (state', rem', ground arith, passed')
    ])
