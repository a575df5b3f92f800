-- ===== src/Mimic/Matching/History.antt =====
-- The whole history of a flow: what the trace expects and what the hardware sends, in any order.
use tcp_hw.Base.{
  ◌≡◌, ◌∙◌, refl, sym, ap, arith, not, Option, some, List, [], ◌∷◌, ◌++◌, Bytes, length, drop,
  drop-all, append-nil, append_assoc, All-split, ◌>>=◌, ◌>>◌, require,
}
use tcp_hw.Mimic.{TcpMimic, put_pkts_to_recv_back}
use tcp_hw.Mimic.Matching.{Comparison, receive}
use tcp_hw.Mimic.Matching.Fifo.{pairs, pairs-nil, AllSameSize, with_queues, receive_lem}

pub data FlowEvent : Type 0 where
  expect : Bytes → FlowEvent
  from_hardware : Bytes → FlowEvent

unfoldable pub run : List FlowEvent → TcpMimic → Option (List Comparison × TcpMimic)
run [] m = some ([], m)
run (expect p ∷ es) m = run es (put_pkts_to_recv_back p m)
run (from_hardware p ∷ es) m = do
  (cs, m', deleted) ← receive p m
  require (not deleted)
  (ds, m'') ← run es m'
  some (cs ++ ds, m'')

abbrev pub expected : List FlowEvent → List Bytes
expected [] = []
expected (expect p ∷ es) = p ∷ expected es
expected (from_hardware p ∷ es) = expected es

abbrev pub sent : List FlowEvent → List Bytes
sent [] = []
sent (expect p ∷ es) = sent es
sent (from_hardware p ∷ es) = p ∷ sent es

abbrev pub references : List Comparison → List Bytes
references [] = []
references (c ∷ cs) = c.reference ∷ references cs

abbrev pub receiveds : List Comparison → List Bytes
receiveds [] = []
receiveds (c ∷ cs) = c.received ∷ receiveds cs

pub references-append :
    (cs ds : List Comparison) → references (cs ++ ds) ≡ references cs ++ references ds
references-append [] ds = refl
references-append (c ∷ cs) ds = rw (references-append cs ds)

pub receiveds-append :
    (cs ds : List Comparison) → receiveds (cs ++ ds) ≡ receiveds cs ++ receiveds ds
receiveds-append [] ds = refl
receiveds-append (c ∷ cs) ds = rw (receiveds-append cs ds)

pub references-pairs : (rs ts : List Bytes) → references (pairs rs ts) ++ drop (length ts) rs ≡ rs
references-pairs [] ts = drop-all {A = Bytes} (length ts) [] (omega arith)
references-pairs (r ∷ rs) [] = refl
references-pairs (r ∷ rs) (t ∷ ts) = ap (λ q. r ∷ q) (references-pairs rs ts)

pub receiveds-pairs : (rs ts : List Bytes) → receiveds (pairs rs ts) ++ drop (length rs) ts ≡ ts
receiveds-pairs [] ts = refl
receiveds-pairs (r ∷ rs) [] = refl
receiveds-pairs (r ∷ rs) (t ∷ ts) = ap (λ q. t ∷ q) (receiveds-pairs rs ts)

-- Pairing two queues that grow goes on where the first pairing stopped.
pub pairs-append :
    (rs ts later more : List Bytes)
    → pairs (rs ++ later) (ts ++ more)
      ≡ pairs rs ts ++ pairs (drop (length ts) rs ++ later) (drop (length rs) ts ++ more)
pairs-append [] ts later more = rw (drop-all {A = Bytes} (length ts) [] (omega arith))
pairs-append (r ∷ rs) [] later more = refl
pairs-append (r ∷ rs) (t ∷ ts) later more = rw (pairs-append rs ts later more)

-- Of what is expected, nothing where the hardware sends nothing later.
abbrev pub before : List Bytes → List Bytes → List Bytes
before [] ys = []
before (x ∷ xs) ys = ys

-- The packets that are expected before the last packet of the hardware.
abbrev pub due : List FlowEvent → List Bytes
due [] = []
due (expect p ∷ es) = before (sent es) (p ∷ due es)
due (from_hardware p ∷ es) = due es

-- The comparisons that come when the packets `ds` are expected and the hardware sends `ans`, with
-- these queues before: none if the hardware sends nothing, else the i-th with the i-th.
abbrev pub made : List Bytes → List Bytes → List Bytes → List Bytes → List Comparison
made rs ts ds [] = []
made rs ts ds (a ∷ ans) = pairs (rs ++ ds) (ts ++ (a ∷ ans))

due-nil : (es : List FlowEvent) → sent es ≡ [] → due es ≡ []
due-nil [] e = refl
due-nil (expect p ∷ es) e = rw e refl
due-nil (from_hardware p ∷ es) e = cc

-- From empty queues the comparisons are the pairs.
pub made-pairs : (ds ans : List Bytes) → made [] [] ds ans ≡ pairs ds ans
made-pairs ds [] = sym (pairs-nil ds)
made-pairs ds (a ∷ ans) = refl

-- More that is expected counts where the hardware sends something later.
pub made-expect :
    (rs ts more ds ans : List Bytes)
    → made (rs ++ more) ts ds ans ≡ made rs ts (before ans (more ++ ds)) ans
made-expect rs ts more ds [] = refl
made-expect rs ts more ds (a ∷ ans) = rw append_assoc refl

-- A packet of the hardware makes the comparisons that complete the pairs, and leaves the rest of
-- the queues.
pub made-send :
    (rs buf : List Bytes) (p : Bytes) (ds ans : List Bytes)
    → (ans ≡ [] → ds ≡ [])
    → let ts = buf ++ (p ∷ []) in
      pairs rs ts ++ made (drop (length ts) rs) (drop (length rs) ts) ds ans
      ≡ made rs buf ds (p ∷ ans)
made-send rs buf p ds [] none = rw (none refl, append-nil, append-nil) refl
made-send rs buf p ds (a ∷ ans) none =
    rw (← append_assoc buf (p ∷ []) (a ∷ ans), pairs-append rs (buf ++ (p ∷ [])) ds (a ∷ ans)) refl

-- For every order of events whose pairs have equal sizes, `run` ends. If the hardware has sent
-- something, the comparisons made are exactly those of the i-th packet that the trace expects with
-- the i-th that the hardware sent, among the packets expected before the last that it sent; else
-- there are none. What is left waits: the references compared, followed by those still queued, are
-- what was expected, and so for the packets received.
pub run-fifo :
    (es : List FlowEvent) (m : TcpMimic)
    → AllSameSize (pairs (m.pkts_to_recv ++ expected es) (m.pkts_recved_buf ++ sent es))
    → (cs : List Comparison) × (m' : TcpMimic) × (run es m ≡ some (cs, m'))
      × (cs ≡ made m.pkts_to_recv m.pkts_recved_buf (due es) (sent es))
      × (references cs ++ m'.pkts_to_recv ≡ m.pkts_to_recv ++ expected es)
      × (receiveds cs ++ m'.pkts_recved_buf ≡ m.pkts_recved_buf ++ sent es)
unfolding run put_pkts_to_recv_back
run-fifo [] m same = ([], m, refl, refl, sym (append-nil _), sym (append-nil _))
run-fifo (expect p ∷ es) m same =
    let (cs, m', e, are, refs, recs) =
      run-fifo es (put_pkts_to_recv_back p m) (rw append_assoc same) in
    (
      cs,
      m',
      e,
      are ∙ made-expect m.pkts_to_recv m.pkts_recved_buf (p ∷ []) (due es) (sent es),
      refs ∙ append_assoc m.pkts_to_recv (p ∷ []) (expected es),
      recs,
    )
run-fifo (from_hardware p ∷ es) m same =
    let rs : List Bytes = m.pkts_to_recv in
    let ts : List Bytes = m.pkts_recved_buf ++ (p ∷ []) in
    let split : AllSameSize (
        pairs rs ts
        ++ pairs (drop (length ts) rs ++ expected es) (drop (length rs) ts ++ sent es)) =
      rw
        (
          ← append_assoc m.pkts_recved_buf (p ∷ []) (sent es),
          pairs-append rs ts (expected es) (sent es),
        )
        at same in
    let (now, later) = All-split _ (pairs rs ts) _ split in
    let (cs, m', e, are, refs, recs) =
      run-fifo es (with_queues (drop (length ts) rs) (drop (length rs) ts) m) later in
    (
      pairs rs ts ++ cs,
      m',
      rw (receive_lem p m now, e) refl,
      ap (λ q. pairs rs ts ++ q) are
          ∙ made-send rs m.pkts_recved_buf p (due es) (sent es) (due-nil es),
      rw (references-append, append_assoc, refs, ← append_assoc, references-pairs) refl,
      rw (receiveds-append, append_assoc, recs, ← append_assoc, receiveds-pairs, append_assoc) refl,
    )
