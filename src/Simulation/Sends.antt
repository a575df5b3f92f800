-- ===== src/Simulation/Sends.antt =====
-- All packets that the backend over a trace hands out, whatever calls it.
use tcp_hw.Base.{
  ℕ, suc, ◌+◌, ◌-◌, ◌<◌, ◌≡◌, ◌∙◌, refl, ap, arith, false, some, List, [], ◌∷◌, ◌++◌, Bytes, All,
  length, get_elem?-eq-none, load8, ◌&&◌, Bool-cases, inl, inr,
}
use native.Mathlib.Decide.{dec_le}
use tcp_hw.Stdio.{File, unread}
use tcp_hw.Pcap.{file_header}
use tcp_hw.Frame.{FlowTuple, flow_eq, ip_hdr_len}
use tcp_hw.Frame.Address.{flow_eq_iff}
use tcp_hw.Backend.{Yields, Yields-append}
use tcp_hw.TcpTrace.{TcpTrace, Stale, FlowMap, new_trace}
use tcp_hw.TcpTrace.Drain.{Visits}
use tcp_hw.TcpTrace.Rest.{Log, packets, of_flow}
use tcp_hw.TcpTrace.Queues.{expects}
use tcp_hw.TcpTrace.Reading.{Labelled, Fits, records, to_hardware, from_hardware, of_flow-append}
use tcp_hw.TcpTrace.Whole.{Calm, whole_trace}
use tcp_hw.Network.Stream.{IsIp}
use tcp_hw.Simulation.{tcp_backend}
use tcp_hw.Simulation.Calls.{run_at, fetch-Yields, fetch_rest-Yields}

ip_hdr_len-inside : (frame : Bytes) (n : ℕ) → ip_hdr_len frame ≡ some n → 14 < length frame
unfolding ip_hdr_len load8
ip_hdr_len-inside frame n e = elim (dec_le (length frame) 14) [
  | yes h ↦ cc (get_elem?-eq-none frame 14 h, e)
  | no h ↦ omega arith
]

packets-append : (xs ys : Log) → packets (xs ++ ys) ≡ packets xs ++ packets ys
packets-append [] ys = refl
packets-append ((k, p) ∷ xs) ys = ap (λ q. p ∷ q) (packets-append xs ys)

-- The packets of a log are all IP packets if those of each flow are.
pub packets-IsIp :
    (log : Log) → ((k : FlowTuple) → All IsIp (of_flow k log)) → All IsIp (packets log)
packets-IsIp [] each = tt
packets-IsIp ((k, p) ∷ log) each =
    let own : All IsIp (p ∷ of_flow k log) = rw ((flow_eq_iff k k).1 refl) at (each k) in
    (
      own.0,
      packets-IsIp log (λ j. elim (Bool-cases (flow_eq k j)) [
        | inl e ↦ let both : All IsIp (p ∷ of_flow j log) = rw e at (each j) in both.1
        | inr e ↦ rw e at (each j)
      ]),
    )

pub to_hardware-IsIp :
    (k : FlowTuple) (ls : List Labelled) → All (λ l. IsIp l.packet) ls → All IsIp (to_hardware k ls)
to_hardware-IsIp k [] ips = tt
to_hardware-IsIp k (l ∷ ls) (ip, ips) = elim (Bool-cases (l.send && flow_eq l.key k)) [
  | inl e ↦ rw e (ip, to_hardware-IsIp k ls ips)
  | inr e ↦ rw e (to_hardware-IsIp k ls ips)
]

module _ (order : FlowMap → List FlowTuple) (stale : ℕ → Stale) (ip_len : ℕ) (visits : Visits order)
    (framed : (i : ℕ) → ip_hdr_len (stale i).frame ≡ some ip_len) where
  -- What the backend over a trace does with as many calls as it takes: the packets for the
  -- hardware.
  pub trace-Yields :
      (f : File) (mac : Bytes) (ls : List Labelled)
      → All (Fits ip_len mac) ls
      → unread f ≡ file_header ++ records ls
      → (c : ℕ) × (t : TcpTrace) × (sent : Log) × ((new_trace f mac).1 ≡ false)
        × Yields
            (tcp_backend order stale)
            (run_at 0 (new_trace f mac).0)
            (packets sent)
            (run_at c t)
        × ((k : FlowTuple) → of_flow k sent ≡ to_hardware k ls)
        × ((k : FlowTuple) → expects k t.tcp_flows ≡ from_hardware k ls)
        × Calm t.tcp_flows
        × (t.deleted ≡ false)
        × (t.source_mac_addr ≡ mac)
  trace-Yields f mac ls fits e =
      let n : ℕ = length ls in
      let now : ℕ → Stale = λ i. stale (0 + (n - suc i)) in
      let later : ℕ → Stale = λ i. stale (n + (suc n - suc i)) in
      let (first, t, second, t', begun, read, rest, sent, awaits, calm, alive, same_mac) =
        whole_trace order now later ip_len f mac ls visits (λ i. framed (0 + (n - suc i)))
          (λ i. ip_hdr_len-inside (later i).frame ip_len (framed (n + (suc n - suc i)))) fits e in
      let first_run =
        fetch-Yields order stale now n 0 n (new_trace f mac).0 (packets first, t) (omega arith)
          (λ i h. refl) read in
      let (c, second_run) =
        fetch_rest-Yields order stale later (suc n) n t (packets second, t') (λ i h. refl) rest in
      (
        c,
        t',
        first ++ second,
        begun,
        rw (packets-append first second)
            (Yields-append (tcp_backend order stale) first_run second_run),
        (λ k. of_flow-append k first second ∙ sent k),
        awaits,
        calm,
        alive,
        same_mac,
      )
