-- ===== src/Mimic/Matching/Fifo.antt =====
-- The matching is first in, first out: the i-th packet from the hardware is compared with the i-th
-- packet that the trace expects of it.
use tcp_hw.Base.{
  ℕ, zero, suc, ◌≤◌, ◌<◌, ◌≡◌, refl, ap, arith, false, some, List, [], ◌∷◌, ◌++◌, Bytes, All, ◌⊎◌,
  inl, inr, length, drop, drop-all, length-drop, List-cases, All-split,
}
use tcp_hw.Compare.{compare_bufs, finishes}
use tcp_hw.Mimic.{
  TcpMimic, pkts_recved_empty, get_pkts_recved_front, put_pkts_recved_back, pkts_to_recv_empty,
  get_pkts_to_recv_front,
}
use tcp_hw.Mimic.Matching.{Comparison, match_one, match_loop, receive}
use native.Mathlib.Decide.{dec_le}

-- The comparisons of two queues, front with front.
abbrev pub pairs : List Bytes → List Bytes → List Comparison
pairs [] ts = []
pairs (r ∷ rs) [] = []
pairs (r ∷ rs) (t ∷ ts) = record { reference = r; received = t } ∷ pairs rs ts

-- No comparison ends the simulation.
abbrev pub AllSameSize : List Comparison → Type 0
AllSameSize cs = All (λ (c : Comparison). finishes (compare_bufs c.reference c.received) ≡ false) cs

abbrev pub with_queues : List Bytes → List Bytes → TcpMimic → TcpMimic
with_queues rs ts m = record m { pkts_to_recv = rs; pkts_recved_buf = ts }

-- The loop empties the shorter queue, if its fuel exceeds the length of the first.
match_loop_lem :
    (fuel : ℕ) (rs ts : List Bytes) (m : TcpMimic)
    → length rs < fuel
    → AllSameSize (pairs rs ts)
    → match_loop fuel (with_queues rs ts m)
      ≡ some (pairs rs ts, with_queues (drop (length ts) rs) (drop (length rs) ts) m)
unfolding match_loop match_one pkts_to_recv_empty pkts_recved_empty get_pkts_to_recv_front
    get_pkts_recved_front
match_loop_lem zero rs ts m h same = absurd (omega arith)
match_loop_lem (suc fuel) [] ts m h same = rw (drop-all {A = Bytes} (length ts) [] (omega arith))
match_loop_lem (suc fuel) (r ∷ rs) [] m h same = refl
match_loop_lem (suc fuel) (r ∷ rs) (t ∷ ts) m h same =
    rw (same.0, match_loop_lem fuel rs ts m (omega arith) same.1)

pub pairs-nil : (rs : List Bytes) → pairs rs [] ≡ []
pairs-nil [] = refl
pairs-nil (r ∷ rs) = refl

-- One more packet behind a second queue that is at least as long: nothing new is compared.
pairs-snoc_short :
    (rs ts : List Bytes) (t : Bytes)
    → length rs ≤ length ts
    → (pairs rs (ts ++ (t ∷ [])) ≡ pairs rs ts)
      × (drop (length rs) (ts ++ (t ∷ [])) ≡ drop (length rs) ts ++ (t ∷ []))
      × (drop (length (ts ++ (t ∷ []))) rs ≡ [])
pairs-snoc_short [] ts t h = (refl, refl, drop-all _ [] (omega arith))
pairs-snoc_short (r ∷ rs) [] t h = absurd (omega arith)
pairs-snoc_short (r ∷ rs) (u ∷ ts) t h =
    let (p, q, e) = pairs-snoc_short rs ts t (omega arith) in (rw p, q, e)

-- Behind a shorter one: it is compared with the first packet that is left of the other queue.
pairs-snoc_long :
    (rs ts : List Bytes) (t : Bytes) {r : Bytes} {left : List Bytes}
    → drop (length ts) rs ≡ r ∷ left
    → (pairs rs (ts ++ (t ∷ [])) ≡ pairs rs ts ++ (record { reference = r; received = t } ∷ []))
      × (drop (length rs) (ts ++ (t ∷ [])) ≡ drop (length rs) ts)
      × (drop (length (ts ++ (t ∷ []))) rs ≡ left)
pairs-snoc_long [] [] t e = cc
pairs-snoc_long [] (u ∷ ts) t e = cc
pairs-snoc_long (r ∷ rs) [] t e = (
  ground (arith, pairs-nil rs),
  drop-all {A = Bytes} (length rs) [] (omega arith),
  ground (arith, e),
)
pairs-snoc_long (r ∷ rs) (u ∷ ts) t e = let (p, q, d) = pairs-snoc_long rs ts t e in (rw p, q, d)

-- `receive` compares what the two queues then pair, and keeps the rest of the longer one.
pub receive_lem :
    (pkt_buf : Bytes) (m : TcpMimic)
    → let rs = m.pkts_to_recv in
      let ts = m.pkts_recved_buf ++ (pkt_buf ∷ []) in
      AllSameSize (pairs rs ts)
      → receive pkt_buf m
        ≡ some (pairs rs ts, with_queues (drop (length ts) rs) (drop (length rs) ts) m, false)
unfolding receive pkts_to_recv_empty get_pkts_to_recv_front put_pkts_recved_back
receive_lem pkt_buf m same =
    let rs : List Bytes = m.pkts_to_recv in
    let ts : List Bytes = m.pkts_recved_buf in
    elim (List-cases (drop (length ts) rs)) [
      | inl e ↦
          let (p, q, d) =
            pairs-snoc_short rs ts pkt_buf
              (omega (arith, length-drop (length ts) rs, ap length e)) in
          let loop : match_loop (suc (length rs)) m
              ≡ some (pairs rs ts, with_queues (drop (length ts) rs) (drop (length rs) ts) m) =
            match_loop_lem (suc (length rs)) rs ts m (omega arith) (rw p at same) in
          rw (loop, e, p, q, d)
      | inr (r, left, e) ↦
          let (p, q, d) = pairs-snoc_long rs ts pkt_buf e in
          let (before, last) = All-split _ (pairs rs ts) _ (rw p at same) in
          let loop : match_loop (suc (length rs)) m
              ≡ some (pairs rs ts, with_queues (drop (length ts) rs) (drop (length rs) ts) m) =
            match_loop_lem (suc (length rs)) rs ts m (omega arith) before in
          rw (loop, e, p, q, d, last.0)
    ]

-- After a packet from the hardware, where the sizes of the packets compared agree, one of the two
-- queues is empty: what could be compared has been.
receive-one_empty :
    (pkt_buf : Bytes) (m : TcpMimic)
    → AllSameSize (pairs m.pkts_to_recv (m.pkts_recved_buf ++ (pkt_buf ∷ [])))
    → (cs : List Comparison) × (m' : TcpMimic) × (receive pkt_buf m ≡ some (cs, m', false))
      × ((m'.pkts_to_recv ≡ []) ⊎ (m'.pkts_recved_buf ≡ []))
receive-one_empty pkt_buf m same =
    let rs : List Bytes = m.pkts_to_recv in
    let ts : List Bytes = m.pkts_recved_buf ++ (pkt_buf ∷ []) in
    (
      pairs rs ts,
      with_queues (drop (length ts) rs) (drop (length rs) ts) m,
      receive_lem pkt_buf m same,
      elim (dec_le (length rs) (length ts)) [
        | yes h ↦ inl (drop-all (length ts) rs h)
        | no h ↦ inr (drop-all (length rs) ts (omega arith))
      ],
    )
