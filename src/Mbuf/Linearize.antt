-- ===== src/Mbuf/Linearize.antt =====
-- Moving all the data of a packet into its first segment.
use dpdk_cr.Common.{
  ℕ, zero, suc, ◌+◌, ◌%◌, ◌^◌, ltb, ◌==◌, ◌&&◌, if◌then◌else◌, Option, none, some, ◌>>=◌, pure, ℤ,
  store, u16, sub32,
}
use dpdk_cr.Memcpy.Memory.{Memory}
use dpdk_cr.Memcpy.Variant.{memcpy}
use dpdk_cr.Memcpy.Machine.{variant}
use dpdk_cr.Mbuf.Heap.{null}
use dpdk_cr.Mbuf.Segment.{tailroom, mtod_offset, is_contiguous}
use dpdk_cr.Mbuf.Free.{Env, State, free_seg}

module _ (env : Env) where
  -- the loop over the segments behind the first; `none` is a loop that has not ended after `fuel`
  -- segments
  unfoldable pub linearize_segs : ℕ → State → Memory → (buffer m : ℕ) → Option (State × Memory)
  linearize_segs zero s mem buffer m = none
  linearize_segs (suc fuel) s mem buffer m =
      let seg_len = (s.heap m).data_len in
      let copied = (memcpy (variant env.machine) buffer (mtod_offset (s.heap m) 0) seg_len mem).1 in
      let rest =
        linearize_segs fuel (free_seg env s m) copied (buffer + seg_len) ((s.heap m).next) in
      if m == null then some (s, mem) else rest

  -- `rte_pktmbuf_linearize`: `copy_len` is an `int`, so that 2 ^ 31 and more are negative.
  unfoldable pub linearize : ℕ → State → Memory → ℕ → Option (ℤ × State × Memory)
  linearize fuel s mem mbuf =
      let x = s.heap mbuf in
      let copy_len = sub32 x.pkt_len x.data_len in
      let extended = record s {
        heap = store s.heap mbuf (record x { data_len = x.pkt_len % u16 });
      } in
      if is_contiguous x
      then some (ℤ.pos 0, s, mem)
      else if ltb copy_len (2 ^ 31) && ltb (tailroom x) copy_len
      then some (ℤ.negsuc 0, s, mem)
      else do
        (s', mem') ← linearize_segs fuel extended mem (mtod_offset x x.data_len) x.next
        pure (
          ℤ.pos 0,
          record s' {
            heap = store s'.heap mbuf (record (s'.heap mbuf) { next = null; nb_segs = 1 });
          },
          mem',
        )
