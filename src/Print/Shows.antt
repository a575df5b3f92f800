-- ===== src/Print/Shows.antt =====
-- How much of a header its printed lines show.
use tcp_hw.Base.{ℕ, ◌+◌, ◌*◌, ◌/◌, ◌%◌, ◌≡◌, ◌↔◌, ap, arith, Bytes}
use tcp_hw.Headers.{TcpHeader, IpHeader}
use tcp_hw.Print.{print_tcp_header, print_ip_header}

-- The printed lines of two TCP headers are the same exactly when the headers are, but for the
-- lowest bit of the byte that holds the header length, which is not shown.
print_tcp_header_iff :
    (g h : TcpHeader)
    → (print_tcp_header g ≡ print_tcp_header h)
      ↔ (g ≡ record h { hdrlen_rsvd_nonce = h.hdrlen_rsvd_nonce / 2 * 2 + g.hdrlen_rsvd_nonce % 2 })
unfolding print_tcp_header
print_tcp_header_iff g h = ((λ e. ground (arith, e)), λ e. ground (arith, e))

-- Where `inet_ntoa` writes different addresses differently, the printed lines of two IP headers are
-- the same exactly when the headers are.
print_ip_header_iff :
    (inet_ntoa : ℕ → Bytes) (g h : IpHeader)
    → ((a b : ℕ) → inet_ntoa a ≡ inet_ntoa b → a ≡ b)
    → (print_ip_header inet_ntoa g ≡ print_ip_header inet_ntoa h) ↔ (g ≡ h)
unfolding print_ip_header
print_ip_header_iff inet_ntoa g h injective = (
  (λ e.
      let source : inet_ntoa g.saddr ≡ inet_ntoa h.saddr = cc e in
      let dest : inet_ntoa g.daddr ≡ inet_ntoa h.daddr = cc e in
      ground (arith, e, injective g.saddr h.saddr source, injective g.daddr h.daddr dest)),
  λ e. ap (print_ip_header inet_ntoa) e,
)
