-- ===== src/Dmx/Buffers/Copy.antt =====
-- What `vDmxCopyFrame` copies, and what it leaves alone.
use samlibs.Base.{
  ℕ, ◌+◌, ◌≤◌, ◌<◌, ◌≡◌, ◌≢◌, ◌∙◌, List, ◌++◌, true, false, ◌&&◌, some, get_elem?,
  get_elem?-set_self, get_elem?-set_ne, set, set-set, length, length-set, take, drop, leb, arith,
  ok, store_lem,
}
use samlibs.Dmx.Port.{DmxBuffer, dmx_max_slots}
use samlibs.Dmx.Buffers.{copy_frame}

-- Copying between two buffers: the destination gets the source's slots, count and a valid mark,
-- is no longer marked written, and keeps the bytes behind the slots and its read mark; no other
-- buffer changes.
pub copy_frame_lem :
    (bs : List DmxBuffer) (d s : ℕ) (dst src : DmxBuffer)
    → d ≢ s
    → get_elem? bs d ≡ some dst
    → get_elem? bs s ≡ some src
    → d < length bs
    → length dst.dmx ≡ dmx_max_slots + 1
    → length src.dmx ≡ dmx_max_slots + 1
    → src.slot_count ≤ dmx_max_slots + 1
    → copy_frame bs (some d) (some s)
      ≡ ok (
          set bs d (record {
            dmx = take src.slot_count src.dmx ++ drop src.slot_count dst.dmx;
            slot_count = src.slot_count;
            read = dst.read;
            written = false;
            valid = true;
          }))
unfolding copy_frame
copy_frame_lem bs d s dst src other here there bound sized sized' count =
    let b1 = record dst { written = true } in
    let bs1 = set bs d b1 in
    let fits : leb src.slot_count (length src.dmx) && leb src.slot_count (length dst.dmx) ≡ true =
      ground arith in
    let b2 = record b1 { dmx = take src.slot_count src.dmx ++ drop src.slot_count dst.dmx } in
    let bs2 = set bs1 d b2 in
    let bound1 : d < length bs1 = rw length-set bound in
    let bound2 : d < length bs2 = rw length-set bound1 in
    let b3 = record b2 { slot_count = src.slot_count; valid = true; written = false } in
    rw (
      here,
      store_lem bs d b1 bound,
      get_elem?-set_ne bs d s b1 other ∙ there,
      get_elem?-set_self bs d b1 bound,
      fits,
      store_lem bs1 d b2 bound1,
      get_elem?-set_ne bs1 d s b2 other ∙ get_elem?-set_ne bs d s b1 other ∙ there,
      get_elem?-set_self bs1 d b2 bound1,
      store_lem bs2 d b3 bound2,
      set-set bs1 d b2 b3,
      set-set bs d b1 b3,
    )
