-- ===== src/TimeSeries/Back.antt =====
-- Which sector ReadFullSector4096bytes reads.
use espidf_component_webmana.Prelude.{
  ℕ, zero, suc, ◌+◌, ◌-◌, ◌%◌, ◌<◌, ◌^◌, ◌≡◌, ◌∙◌, sym, arith, leb, if◌then◌else◌,
}
use espidf_component_webmana.Prelude.Word.{sub32}
use espidf_component_webmana.TimeSeries.{
  GranularityRuntime, Granularity, ten_seconds, one_minute, one_hour, one_day, cfg,
  granularity_config, sector_back,
}
use espidf_component_webmana.TimeSeries.Log.{before}
use espidf_component_webmana.TimeSeries.Frame.{InRing}

-- So many sectors back in the ring.
unfoldable pub back : (start cnt n s : ℕ) → ℕ
back start cnt zero s = s
back start cnt (suc n) s = before start cnt (back start cnt n s)

back_lem :
    (start cnt n s : ℕ)
    → InRing start cnt s
    → n < cnt
    → back start cnt n s ≡ (if leb (n + start) s then s - n else s + cnt - n)
unfolding back
back_lem start cnt zero s h k = ground arith
back_lem start cnt (suc n) s h k = ground (arith, back_lem start cnt n s h (omega arith))

-- The wrapped differences, reduced to the ring.
offset_in_ring : (start cnt n s : ℕ) → ℕ
offset_in_ring start cnt n s = sub32 (sub32 s start) n % cnt + start

offset_in_ring_lem :
    (g : Granularity) (n s : ℕ)
    → InRing (granularity_config g).sector_start (granularity_config g).sector_cnt s
    → n < (granularity_config g).sector_cnt
    → offset_in_ring (granularity_config g).sector_start (granularity_config g).sector_cnt n s ≡ (
        if leb (n + (granularity_config g).sector_start) s
        then s - n
        else s + (granularity_config g).sector_cnt - n)
unfolding offset_in_ring sub32
offset_in_ring_lem ten_seconds n s h k = ground arith
offset_in_ring_lem one_minute n s h k = ground arith
offset_in_ring_lem one_hour n s h k = ground arith
offset_in_ring_lem one_day n s h k = ground arith

offset_in_ring-InRing :
    (g : Granularity) (n s : ℕ)
    → InRing
        (granularity_config g).sector_start
        (granularity_config g).sector_cnt
        (offset_in_ring (granularity_config g).sector_start (granularity_config g).sector_cnt n s)
unfolding offset_in_ring
offset_in_ring-InRing ten_seconds n s = omega arith
offset_in_ring-InRing one_minute n s = omega arith
offset_in_ring-InRing one_hour n s = omega arith
offset_in_ring-InRing one_day n s = omega arith

offset_in_ring-mod :
    (g : Granularity) (n s : ℕ)
    → InRing (granularity_config g).sector_start (granularity_config g).sector_cnt s
    → n < 2 ^ 32
    → offset_in_ring (granularity_config g).sector_start (granularity_config g).sector_cnt n s
      ≡ offset_in_ring
          (granularity_config g).sector_start
          (granularity_config g).sector_cnt
          (n % (granularity_config g).sector_cnt)
          s
unfolding offset_in_ring sub32
offset_in_ring-mod ten_seconds n s h k = omega arith
offset_in_ring-mod one_minute n s h k = omega arith
offset_in_ring-mod one_hour n s h k = omega arith
offset_in_ring-mod one_day n s h k = omega arith

remainder_bound :
    (g : Granularity) (n : ℕ)
    → n % (granularity_config g).sector_cnt < (granularity_config g).sector_cnt
remainder_bound ten_seconds n = omega arith
remainder_bound one_minute n = omega arith
remainder_bound one_hour n = omega arith
remainder_bound one_day n = omega arith

-- With the sector under way in the ring of the granularity, the sector that is read lies in the ring
-- too, and it is so many steps back in the ring as asked for, modulo the number of its sectors. The
-- distance is any 32-bit pattern, so a negative one goes forward.
pub sector_back-back :
    (n : ℕ) (r : GranularityRuntime)
    → n < 2 ^ 32
    → InRing (cfg r).sector_start (cfg r).sector_cnt r.sector_index
    → InRing (cfg r).sector_start (cfg r).sector_cnt (sector_back n r)
      × (sector_back n r
          ≡ back (cfg r).sector_start (cfg r).sector_cnt (n % (cfg r).sector_cnt) r.sector_index)
unfolding sector_back offset_in_ring
sector_back-back n r small h =
    let m = n % (cfg r).sector_cnt in
    let below = remainder_bound r.granularity n in
    (
      offset_in_ring-InRing r.granularity n r.sector_index,
      offset_in_ring-mod r.granularity n r.sector_index h small
          ∙ offset_in_ring_lem r.granularity m r.sector_index h below
          ∙ sym (back_lem (cfg r).sector_start (cfg r).sector_cnt m r.sector_index h below),
    )
