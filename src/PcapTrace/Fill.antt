-- ===== src/PcapTrace/Fill.antt =====
-- What the constructor makes of a whole trace file.
use tcp_hw.Base.{
  ℕ, zero, suc, ◌≤◌, ◌<◌, ◌≡◌, ◌≢◌, ◌∙◌, refl, sym, ap, arith, Bool, true, false, some, List, [],
  ◌∷◌, ◌++◌, Bytes, All, length, take, drop, ltb, lt→ltb, length-append, append_assoc, append-nil,
  Bool-cases, inl, inr,
}
use tcp_hw.Stdio.{File, unread}
use tcp_hw.Pcap.{record_bytes, file_header, consume_pcap_header}
use tcp_hw.Pcap.Record.{read-record, read-end}
use tcp_hw.Pcap.Header.{consume-write_header}
use tcp_hw.Frame.Address.{send_packet_iff}
use tcp_hw.PcapTrace.{PcapTrace, push_back, buffer_size, fill_pkt_vectors, new_pcap}

-- A packet with the times of its record.
pub record Entry : Type 0 where
  pub sec : ℕ
  pub usec : ℕ
  pub packet : Bytes

abbrev pub records : List Entry → Bytes
records [] = []
records (e ∷ es) = record_bytes e.sec e.usec e.packet ++ records es

-- The packets of the trace, those for the address `mac` in one list and the others in another.
pub data Split (mac : Bytes) : List Entry → List Bytes → List Bytes → Type 0 where
  done : Split mac [] [] []
  for_hardware :
      {e : Entry} {es : List Entry} {sends recvs : List Bytes}
      → take 6 e.packet ≡ take 6 mac
      → Split mac es sends recvs
      → Split mac (e ∷ es) (e.packet ∷ sends) recvs
  from_hardware :
      {e : Entry} {es : List Entry} {sends recvs : List Bytes}
      → take 6 e.packet ≢ take 6 mac
      → Split mac es sends recvs
      → Split mac (e ∷ es) sends (e.packet ∷ recvs)

-- A packet that holds a destination address and fits the buffer.
abbrev pub IsFrame : Entry → Type 0
IsFrame e = (6 ≤ length e.packet) × (length e.packet ≤ buffer_size)

take6 : (xs ys : Bytes) → 6 ≤ length xs → take 6 (xs ++ ys) ≡ take 6 xs
take6 (a ∷ b ∷ c ∷ d ∷ e ∷ f ∷ xs) ys h = refl
take6 [] ys h = absurd (omega arith)
take6 (a ∷ []) ys h = absurd (omega arith)
take6 (a ∷ b ∷ []) ys h = absurd (omega arith)
take6 (a ∷ b ∷ c ∷ []) ys h = absurd (omega arith)
take6 (a ∷ b ∷ c ∷ d ∷ []) ys h = absurd (omega arith)
take6 (a ∷ b ∷ c ∷ d ∷ e ∷ []) ys h = absurd (omega arith)

-- What the packets of the rest of the trace add.
abbrev Fills : (ℕ → Bytes) → Bytes → ℕ → Bytes → File → PcapTrace → List Entry → Type 0
Fills stale mac n buffer f t es =
    (sends : List Bytes) × (recvs : List Bytes) × (fill_pkt_vectors stale mac n buffer f t
      ≡ some (record t { send_pkts = t.send_pkts ++ sends; recv_pkts = t.recv_pkts ++ recvs }))
    × Split mac es sends recvs

-- A packet pushed back, and the later ones behind it.
abbrev behind : Bool → Bytes → PcapTrace → List Bytes → List Bytes → PcapTrace
behind send p t sends recvs = record t {
  send_pkts = (push_back send p t).send_pkts ++ sends;
  recv_pkts = (push_back send p t).recv_pkts ++ recvs;
  deleted = (push_back send p t).deleted;
}

behind_sent :
    (send : Bool) (p : Bytes) (t : PcapTrace) (sends recvs : List Bytes)
    → send ≡ true
    → behind send p t sends recvs
      ≡ record t { send_pkts = t.send_pkts ++ (p ∷ sends); recv_pkts = t.recv_pkts ++ recvs }
behind_sent send p t sends recvs b = rw b (rw append_assoc refl)

behind_kept :
    (send : Bool) (p : Bytes) (t : PcapTrace) (sends recvs : List Bytes)
    → send ≡ false
    → behind send p t sends recvs
      ≡ record t { send_pkts = t.send_pkts ++ sends; recv_pkts = t.recv_pkts ++ (p ∷ recvs) }
behind_kept send p t sends recvs b = rw b (rw append_assoc refl)

module _ (stale : ℕ → Bytes) (mac : Bytes) (six : 6 ≤ length mac) where
  fill_end :
      (n : ℕ) (buffer : Bytes) (f : File) (t : PcapTrace)
      → unread f ≡ []
      → Fills stale mac (suc n) buffer f t []
  unfolding fill_pkt_vectors
  fill_end n buffer f t e =
      let (f', r, _) = read-end (stale n) buffer_size f e in
      ([], [], rw (r, append-nil, append-nil) refl, done)

  fill_lem :
      (es : List Entry) (n : ℕ) (buffer : Bytes) (f : File) (t : PcapTrace)
      → unread f ≡ records es
      → All IsFrame es
      → length es < n
      → Fills stale mac n buffer f t es
  unfolding fill_pkt_vectors
  fill_lem es zero buffer f t e h fuel = absurd (omega arith)
  fill_lem [] (suc n) buffer f t e h fuel = fill_end n buffer f t e
  fill_lem (x ∷ es) (suc n) buffer f t e (hx, h) fuel =
      let (f', r, left) =
        read-record (stale n) buffer_size x.sec x.usec x.packet (records es) f e (omega (arith, hx))
          hx.1 in
      let buffer' : Bytes = x.packet ++ drop (length x.packet) buffer in
      let (send, s, iff) =
        send_packet_iff buffer' mac
          (omega (arith, length-append x.packet (drop (length x.packet) buffer), hx)) six in
      let pos : ltb 0 (length x.packet) ≡ true = lt→ltb 0 (length x.packet) (omega (arith, hx)) in
      let front : take 6 buffer' ≡ take 6 x.packet =
        take6 x.packet (drop (length x.packet) buffer) hx.0 in
      let (sends, recvs, later, split) =
        fill_lem es n buffer' f' (push_back send x.packet t) left h (omega arith) in
      let step : fill_pkt_vectors stale mac (suc n) buffer f t
          ≡ some (behind send x.packet t sends recvs) =
        rw (fill_pkt_vectors, r, pos, s) later in
      elim (Bool-cases send) [
        | inl b ↦ (
          x.packet ∷ sends,
          recvs,
          step ∙ ap some (behind_sent send x.packet t sends recvs b),
          for_hardware (sym front ∙ iff.0 b) split,
        )
        | inr b ↦ (
          sends,
          x.packet ∷ recvs,
          step ∙ ap some (behind_kept send x.packet t sends recvs b),
          from_hardware (λ q. cc (iff.1 (front ∙ q), b)) split,
        )
      ]

  -- Let the address have 6 bytes or more. From a trace file with the header that `writePCAPHeader`
  -- writes and whole records of at least 6 and at most 2048 bytes, the constructor makes the two
  -- lists of packets: those whose destination is the address, which the hardware will get, and the
  -- others, which it is to send, each in the order of the trace and with every packet in one of
  -- them. It does not end the simulation. One call of `read_pcap_record` more than there are
  -- records is enough.
  pub new_pcap_lem :
      (es : List Entry) (n : ℕ) (buffer : Bytes) (f : File)
      → unread f ≡ file_header ++ records es
      → All IsFrame es
      → length es < n
      → (sends : List Bytes) × (recvs : List Bytes) × (new_pcap stale mac n buffer f
          ≡ some (record { send_pkts = sends; recv_pkts = recvs; deleted = false }, false))
        × Split mac es sends recvs
  unfolding new_pcap
  new_pcap_lem es n buffer f e h fuel =
      let (whole, left) = consume-write_header f (records es) e in
      let (sends, recvs, run, split) =
        fill_lem es n buffer (consume_pcap_header f).1
          (record { send_pkts = []; recv_pkts = []; deleted = false }) left h fuel in
      (sends, recvs, rw (run, whole) refl, split)
