-- ===== src/Mbuf/Laws/Linking.antt =====
-- One round of `rte_pktmbuf_clone`: an mbuf is attached to a segment and linked.
use dpdk_cr.Common.{
  arith, store, store-at, store-other, test-sym, ℕ, ◌≡◌, sym, ap, ◌∙◌, subst, ==_iff, ◌==◌, false,
  Bool-cases, inl, inr, add16, bit_or,
}
use dpdk_cr.Mbuf.Heap.{Mbuf, Heap}
use dpdk_cr.Mbuf.Refcnt.{refcnt_set, refcnt_update}
use dpdk_cr.Mbuf.Free.{is_indirect, ind_attached_mbuf, attach}
use dpdk_cr.Mbuf.Clone.{link}

-- An mbuf `x` that stands for the data of the mbuf `y`, in the buffer of `y`.
pub record IsClone (x y : Mbuf) : Type 0 where
  pub buf_addr : x.buf_addr ≡ y.buf_addr
  pub buf_len : x.buf_len ≡ y.buf_len
  pub data_off : x.data_off ≡ y.data_off
  pub data_len : x.data_len ≡ y.data_len
  pub priv_size : x.priv_size ≡ y.priv_size
  pub ol_flags : x.ol_flags ≡ bit_or y.ol_flags ind_attached_mbuf

pub IsClone-next : (x y : Mbuf) (n : ℕ) → IsClone x y → IsClone (record x { next = n }) y
IsClone-next x y n c = record {
  buf_addr = c.buf_addr;
  buf_len = c.buf_len;
  data_off = c.data_off;
  data_len = c.data_len;
  priv_size = c.priv_size;
  ol_flags = c.ol_flags;
}

-- with one more reference
abbrev pub referenced : Mbuf → Mbuf
referenced x = record x { refcnt = add16 x.refcnt 1 }

-- One round of the loop: `mi` is attached to the direct mbuf `md` and linked behind `prev`.
module _ (h : Heap) (prev mi md : ℕ) (two : (mi == md) ≡ false) (behind : (prev == md) ≡ false)
    (direct : is_indirect (h md) ≡ false) where
  pub link-md : link h prev mi md md ≡ referenced (h md)
  unfolding link attach refcnt_update refcnt_set
  link-md = rw direct (
      store-other _ prev md _ (test-sym prev md behind)
      ∙ store-other _ mi md _ (test-sym mi md two)
      ∙ store-at h md _)

  attached-mi : IsClone (attach h mi md mi) (h md)
  unfolding attach refcnt_update refcnt_set
  attached-mi = rw direct (
      subst (λ x. IsClone x (h md)) (sym (store-at _ mi _))
        (record {
          buf_addr = ap (λ (y : Mbuf). y.buf_addr) (store-at h md _);
          buf_len = ap (λ (y : Mbuf). y.buf_len) (store-at h md _);
          data_off = ap (λ (y : Mbuf). y.data_off) (store-at h md _);
          data_len = ap (λ (y : Mbuf). y.data_len) (store-at h md _);
          priv_size = ap (λ (y : Mbuf). y.priv_size) (store-at h md _);
          ol_flags = ap (λ (y : Mbuf). bit_or y.ol_flags ind_attached_mbuf) (store-at h md _);
        }))

  pub link-mi : IsClone (link h prev mi md mi) (h md)
  unfolding link
  link-mi = elim (Bool-cases (mi == prev)) [
    | inl first ↦
        subst (λ x. IsClone x (h md))
          (sym
            (ap (link h prev mi md) ((==_iff mi prev).0 first) ∙ store-at (attach h mi md) prev _))
          (IsClone-next (attach h mi md prev) (h md) mi
            (subst (λ a. IsClone (attach h mi md a) (h md)) ((==_iff mi prev).0 first) attached-mi))
    | inr later ↦
        subst (λ x. IsClone x (h md)) (sym (store-other (attach h mi md) prev mi _ later))
          attached-mi
  ]

  pub link-prev : (prev == mi) ≡ false → link h prev mi md prev ≡ record (h prev) { next = mi }
  unfolding link attach refcnt_update refcnt_set
  link-prev other = rw direct (
      store-at _ prev _
      ∙ ap (λ (x : Mbuf). record x { next = mi })
          (store-other _ mi prev _ other ∙ store-other h md prev _ behind))

  pub link-other :
      (a : ℕ)
      → (a == prev) ≡ false
      → (a == mi) ≡ false
      → (a == md) ≡ false
      → link h prev mi md a ≡ h a
  unfolding link attach refcnt_update refcnt_set
  link-other a not_prev not_mi not_md =
      rw direct (
        store-other _ prev a _ not_prev ∙ store-other _ mi a _ not_mi ∙ store-other h md a _ not_md)

  -- What the other mbufs keep, whatever is stored: their counter and their pool.
  pub link-kept :
      (a : ℕ)
      → (a == md) ≡ false
      → ((link h prev mi md a).refcnt ≡ (h a).refcnt) × ((link h prev mi md a).pool ≡ (h a).pool)
  unfolding link attach refcnt_update refcnt_set store
  link-kept a not_md = rw direct (ground arith)
