-- ===== src/Simulation/Mixed.antt =====
-- The simulator's calls while a trace is being read and the hardware answers: packets for the
-- hardware and packets from it in any order.
use tcp_hw.Base.{
  ℕ, ◌+◌, ◌≤◌, ◌≡◌, ◌∙◌, refl, sym, ap, subst, some, List, [], ◌∷◌, ◌++◌, Bytes, All, length, map,
  >>=-eq-some, some-injective, inl,
}
use tcp_hw.Backend.{kept}
use tcp_hw.Frame.{FlowTuple}
use tcp_hw.TcpTrace.{TcpTrace, Stale, FlowMap, get_buf_fr_io, put_buf_on_io}
use tcp_hw.TcpTrace.Reading.{Labelled}
use tcp_hw.TcpTrace.Interleaved.{Event, ask, answer, Compared, play}
use tcp_hw.Network.{Beat, NetworkSide, RxDataInterface, beat_bytes, no_beat}
use tcp_hw.Network.Loopback.{BeatsOf}
use tcp_hw.Network.Branches.{get_data_ignores}
use tcp_hw.Network.Lift.{Call, calls}
use tcp_hw.Network.Stream.{
  Stream, over, pause, carry, IsIp, claimed, Idle, gets, drive_lem, calls-append,
}
use tcp_hw.Network.Send.{puts, send_lem}
use tcp_hw.Simulation.{Running, tcp_backend}
use tcp_hw.Simulation.Calls.{run_at, get_run, put_run}

-- The calls for events in turn: some calls of `get_data` for each packet that is asked for, and one
-- call of `put_data` for each beat of a packet from the hardware. The j-th call of `get_data` finds
-- `vectors (i + j)`.
pub data Mixes (vectors : ℕ → Bytes) : ℕ → List Event → List Beat → List Call → Type 0 where
  ends : {i : ℕ} → Mixes vectors i [] [] []
  asks :
      {i : ℕ} {now : Stale} {l : Labelled} {es : List Event} {bs : List Beat} {cs : List Call}
      (m : ℕ)
      → Mixes vectors (i + m) es bs cs
      → Mixes vectors i (ask now l ∷ es) bs (gets vectors i m ++ cs)
  answers :
      {i : ℕ} {k : FlowTuple} {p : Bytes} {es : List Event} {bs : List Beat} {cs : List Call}
      (own : List Beat)
      → Mixes vectors i es bs cs
      → Mixes vectors i (answer k p ∷ es) (own ++ bs) (puts own ++ cs)

-- Beats that carry the packets from the hardware in turn.
pub data Sends : List Event → List Beat → Type 0 where
  silent : Sends [] []
  waits :
      {now : Stale} {l : Labelled} {es : List Event} {bs : List Beat}
      → Sends es bs
      → Sends (ask now l ∷ es) bs
  sends :
      {k : FlowTuple} {p : Bytes} {es : List Event} {own bs : List Beat}
      → BeatsOf p own
      → Sends es bs
      → Sends (answer k p ∷ es) (own ++ bs)

module _ (order : FlowMap → List FlowTuple) (stale : ℕ → Stale) where
  -- Each event is a call of the backend, which finds its own stale memory.
  abbrev pub Timed : ℕ → List Event → Type 0
  Timed c [] = Unit
  Timed c (ask now l ∷ es) = (now ≡ stale c) × Timed (c + 1) es
  Timed c (answer k p ∷ es) = Timed (c + 1) es

  module _ (vectors : ℕ → Bytes) (full : (j : ℕ) → length (vectors j) ≡ beat_bytes) where
    -- What the calls leave.
    pub record Mixed (i : ℕ) (es : List Event) (bs : List Beat) (outs : List Bytes) (t' : TcpTrace)
        (net : NetworkSide (Running TcpTrace)) : Type 0 where
      pub script : List Call
      pub driven : List Beat
      pub count : ℕ
      pub after : NetworkSide (Running TcpTrace)
      pub mixes : Mixes vectors i es bs script
      pub runs : calls (tcp_backend order stale) script net ≡ some (driven, after)
      pub stream : Stream driven (map claimed outs)
      pub left : after.backend ≡ run_at count t'

    no_calls :
        (net : NetworkSide (Running TcpTrace))
        → calls (tcp_backend order stale) [] net ≡ some ([], net)
    unfolding calls
    no_calls net = refl

    -- A packet that is asked for, or nothing.
    ask_lem :
        (i : ℕ) (net : NetworkSide (Running TcpTrace)) (out : Bytes) (s : Running TcpTrace)
        (outs : List Bytes)
        → Idle net
        → (tcp_backend order stale).get_buf_fr_io net.backend ≡ some (out, s)
        → All IsIp (kept out outs)
        → (m : ℕ) × (bs : List Beat) × (rx : RxDataInterface) × (calls
              (tcp_backend order stale)
              (gets vectors i m)
              net
            ≡ some (bs, record net { backend = s; rx_data_if = rx }))
          × ((cs : List Beat)
              → Stream cs (map claimed outs)
              → Stream (bs ++ cs) (map claimed (kept out outs)))
          × (rx.buffer_len ≤ rx.buffer_pos)
          × All IsIp outs
    unfolding calls
    ask_lem i net [] s outs idle given ips = (
      1,
      no_beat ∷ [],
      net.rx_data_if,
      rw (get_data_ignores (tcp_backend order stale) net [] s idle given (vectors i) (inl refl))
          refl,
      (λ cs st. pause st),
      idle,
      ips,
    )
    ask_lem i net (x ∷ xs) s outs idle given (ip, ips) =
        let (m, bs, rx, run, are, quiet) =
          drive_lem (tcp_backend order stale) vectors i net (x ∷ xs) s full idle given ip in
        (m, bs, rx, run, (λ cs st. carry are st), quiet, ips)

    pub mixed_lem :
        (es : List Event) (bs : List Beat) (i c : ℕ) (t : TcpTrace)
        (net : NetworkSide (Running TcpTrace)) (outs : List Bytes) (cmps : Compared) (t' : TcpTrace)
        → play order es t ≡ some (outs, cmps, t')
        → All IsIp outs
        → Sends es bs
        → Timed c es
        → net.backend ≡ run_at c t
        → Idle net
        → net.tx_buffer ≡ []
        → Mixed i es bs outs t' net
    unfolding play
    mixed_lem [] bs i c t net outs cmps t' e ips silent timed at idle empty =
        let outs_are : [] ≡ outs =
          ap (λ (r : List Bytes × Compared × TcpTrace). r.0) (some-injective e) in
        let state_is : t ≡ t' =
          ap (λ (r : List Bytes × Compared × TcpTrace). r.2) (some-injective e) in
        record {
          script = [];
          driven = [];
          count = c;
          after = net;
          mixes = ends;
          runs = no_calls net;
          stream = subst (λ o. Stream [] (map claimed o)) outs_are over;
          left = at ∙ ap (run_at c) state_is;
        }
    mixed_lem (ask now l ∷ es) bs i c t net outs cmps t' e ips (waits st) (when, timed) at idle
          empty =
        let ((out, t1), got, more) = >>=-eq-some (get_buf_fr_io order now t) _ e in
        let ((outs1, cmps1, t2), rest, same) = >>=-eq-some (play order es t1) _ more in
        let outs_are : kept out outs1 ≡ outs =
          ap (λ (r : List Bytes × Compared × TcpTrace). r.0) (some-injective same) in
        let state_is : t2 ≡ t' =
          ap (λ (r : List Bytes × Compared × TcpTrace). r.2) (some-injective same) in
        let (m, driven, rx, run, joins, quiet, later) =
          ask_lem i net out (run_at (c + 1) t1) outs1 idle
            (rw at (get_run order stale c t now when got)) (subst (All IsIp) (sym outs_are) ips) in
        let mixed =
          mixed_lem es bs (i + m) (c + 1) t1
            (record net { backend = run_at (c + 1) t1; rx_data_if = rx }) outs1 cmps1 t2 rest later
            st timed refl quiet empty in
        record {
          script = gets vectors i m ++ mixed.script;
          driven = driven ++ mixed.driven;
          count = mixed.count;
          after = mixed.after;
          mixes = asks m mixed.mixes;
          runs =
              calls-append (tcp_backend order stale) (gets vectors i m) mixed.script net run
                mixed.runs;
          stream =
              subst (λ o. Stream (driven ++ mixed.driven) (map claimed o)) outs_are
                (joins mixed.driven mixed.stream);
          left = mixed.left ∙ ap (run_at mixed.count) state_is;
        }
    mixed_lem (answer k p ∷ es) bs i c t net outs cmps t' e ips
          (sends {own = own} {bs = bs'} are st) timed at idle empty =
        let ((cs, t1, size), put, more) = >>=-eq-some (put_buf_on_io p t) _ e in
        let ((outs1, cmps1, t2), rest, same) = >>=-eq-some (play order es t1) _ more in
        let outs_are : outs1 ≡ outs =
          ap (λ (r : List Bytes × Compared × TcpTrace). r.0) (some-injective same) in
        let state_is : t2 ≡ t' =
          ap (λ (r : List Bytes × Compared × TcpTrace). r.2) (some-injective same) in
        let sent = record net { backend = run_at (c + 1) t1; tx_buffer = [] } in
        let mixed =
          mixed_lem es bs' i (c + 1) t1 sent outs1 cmps1 t2 rest
            (subst (All IsIp) (sym outs_are) ips) st timed refl idle refl in
        record {
          script = puts own ++ mixed.script;
          driven = mixed.driven;
          count = mixed.count;
          after = mixed.after;
          mixes = answers own mixed.mixes;
          runs =
              calls-append (tcp_backend order stale) (puts own) mixed.script net
                (send_lem (tcp_backend order stale) net {size = size} are empty
                  (rw at (put_run order stale c t p put)))
                mixed.runs;
          stream = subst (λ o. Stream mixed.driven (map claimed o)) outs_are mixed.stream;
          left = mixed.left ∙ ap (run_at mixed.count) state_is;
        }
