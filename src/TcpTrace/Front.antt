-- ===== src/TcpTrace/Front.antt =====
-- What the trace backend reads of a packet at the front of its buffer does not depend on the stale
-- bytes behind it.
use tcp_hw.Base.{
  ℕ, zero, suc, ◌+◌, ◌≡◌, Bool, some, [], ◌∷◌, ◌++◌, Bytes, ◌==◌, load8, load16, load32,
  >>=-eq-some, Bool-cases, inl, inr,
}
use tcp_hw.Frame.{FlowTuple, same_mac_from, send_packet, lookup_tuple}
use tcp_hw.TcpTrace.{packet_key}

-- A load within a prefix of the buffer.
load8-front :
    (xs ys : Bytes) (off : ℕ) {v : ℕ} → load8 xs off ≡ some v → load8 (xs ++ ys) off ≡ some v
unfolding load8
load8-front [] ys off e = cc
load8-front (x ∷ xs) ys zero e = e
load8-front (x ∷ xs) ys (suc off) e = load8-front xs ys off e

load16-front :
    (xs ys : Bytes) (off : ℕ) {v : ℕ} → load16 xs off ≡ some v → load16 (xs ++ ys) off ≡ some v
unfolding load16
load16-front xs ys off e =
    let (a, ea, e1) = >>=-eq-some (load8 xs off) _ e in
    let (b, eb, e2) = >>=-eq-some (load8 xs (off + 1)) _ e1 in
    rw (load8-front xs ys off ea, load8-front xs ys (off + 1) eb) e2

load32-front :
    (xs ys : Bytes) (off : ℕ) {v : ℕ} → load32 xs off ≡ some v → load32 (xs ++ ys) off ≡ some v
unfolding load32
load32-front xs ys off e =
    let (a, ea, e1) = >>=-eq-some (load8 xs off) _ e in
    let (b, eb, e2) = >>=-eq-some (load8 xs (off + 1)) _ e1 in
    let (c, ec, e3) = >>=-eq-some (load8 xs (off + 2)) _ e2 in
    let (d, ed, e4) = >>=-eq-some (load8 xs (off + 3)) _ e3 in
    rw
      (
        load8-front xs ys off ea,
        load8-front xs ys (off + 1) eb,
        load8-front xs ys (off + 2) ec,
        load8-front xs ys (off + 3) ed,
      )
      e4

same_mac-front :
    (rounds i : ℕ) (xs ys mac : Bytes) {b : Bool}
    → same_mac_from rounds i xs mac ≡ some b
    → same_mac_from rounds i (xs ++ ys) mac ≡ some b
unfolding same_mac_from
same_mac-front zero i xs ys mac e = e
same_mac-front (suc rounds) i xs ys mac e =
    let (a, ea, e1) = >>=-eq-some (load8 xs i) _ e in
    let (c, ec, e2) = >>=-eq-some (load8 mac i) _ e1 in
    elim (Bool-cases (a == c)) [
      | inl t ↦
          rw (load8-front xs ys i ea, ec, t) (same_mac-front rounds (suc i) xs ys mac (rw t at e2))
      | inr t ↦ rw (load8-front xs ys i ea, ec, t) (rw t at e2)
    ]

send_packet-front :
    (xs ys mac : Bytes) {b : Bool}
    → send_packet xs mac ≡ some b
    → send_packet (xs ++ ys) mac ≡ some b
unfolding send_packet
send_packet-front xs ys mac e = same_mac-front 6 0 xs ys mac e

lookup_tuple-front :
    (send : Bool) (ip_len : ℕ) (xs ys : Bytes) {k : FlowTuple}
    → lookup_tuple send ip_len xs ≡ some k
    → lookup_tuple send ip_len (xs ++ ys) ≡ some k
unfolding lookup_tuple
lookup_tuple-front send ip_len xs ys e =
    let (src, e3, f1) = >>=-eq-some (load32 xs 26) _ e in
    let (dst, e4, f2) = >>=-eq-some (load32 xs 30) _ f1 in
    let (sport, e5, f3) = >>=-eq-some (load16 xs (14 + ip_len)) _ f2 in
    let (dport, e6, f4) = >>=-eq-some (load16 xs (14 + ip_len + 2)) _ f3 in
    rw
      (
        load32-front xs ys 26 e3,
        load32-front xs ys 30 e4,
        load16-front xs ys (14 + ip_len) e5,
        load16-front xs ys (14 + ip_len + 2) e6,
      )
      f4

-- The key of a packet does not depend on what stands behind it in the buffer.
pub packet_key-front :
    (ip_len : ℕ) (xs ys mac : Bytes) {r : Bool × FlowTuple}
    → packet_key ip_len xs mac ≡ some r
    → packet_key ip_len (xs ++ ys) mac ≡ some r
unfolding packet_key
packet_key-front ip_len xs ys mac e =
    let (send, es, e1) = >>=-eq-some (send_packet xs mac) _ e in
    let (key, ek, e2) = >>=-eq-some (lookup_tuple send ip_len xs) _ e1 in
    rw (send_packet-front xs ys mac es, lookup_tuple-front send ip_len xs ys ek) e2
