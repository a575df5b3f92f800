-- ===== src/Arp/Reply.antt =====
-- Which ARP requests are answered, and with what.
use tcp_hw.Base.{
  some-injective, ℕ, ◌≤◌, ◌≡◌, ◌⊎◌, ◌∙◌, refl, sym, ap, arith, none, some, [], ◌∷◌, Bytes, length,
  take, drop, ◌==◌, ==_iff, Bool-cases, inl, inr, load16, load16-some, load8, htons, memcpy,
  memcpy-some, same_bytes, same_bytes_iff,
}
use tcp_hw.Arp.{SockState, answer, reply_bytes, ethertype_ip, arpop_request}

four : (xs : Bytes) → length xs ≡ 4 → (a b c d : ℕ) × (xs ≡ a ∷ b ∷ c ∷ d ∷ [])
four (a ∷ b ∷ c ∷ d ∷ []) h = (a, b, c, d, refl)
four [] h = absurd (omega arith)
four (a ∷ []) h = absurd (omega arith)
four (a ∷ b ∷ []) h = absurd (omega arith)
four (a ∷ b ∷ c ∷ []) h = absurd (omega arith)
four (a ∷ b ∷ c ∷ d ∷ e ∷ xs) h = absurd (omega arith)

-- The bytes of a hardware address.
pub six : (xs : Bytes) → length xs ≡ 6 → (a b c d e f : ℕ) × (xs ≡ a ∷ b ∷ c ∷ d ∷ e ∷ f ∷ [])
six (a ∷ b ∷ xs) h =
    let (c, d, e, f, p) = four xs (omega arith) in (a, b, c, d, e, f, ap (λ t. a ∷ b ∷ t) p)
six [] h = absurd (omega arith)
six (a ∷ []) h = absurd (omega arith)

-- The request asks by IPv4 for the address of the host.
abbrev pub Asks : SockState → Bytes → Type 0
Asks state arp_req =
    (pro : ℕ) × (op : ℕ) × (load16 arp_req 2 ≡ some pro)
    × (load16 arp_req 6 ≡ some op)
    × (htons pro ≡ ethertype_ip)
    × (htons op ≡ arpop_request)
    × (memcpy arp_req 24 4 ≡ some state.s_addr)

-- The addresses in a reply stand where a reader looks for them, and no host answers it.
pub record Replies (state : SockState) (sha spa reply : Bytes) : Type 0 where
  pub to_requester : take 6 reply ≡ sha
  pub sender_mac : memcpy (drop 14 reply) 8 6 ≡ some state.source_mac_addr
  pub sender_ip : memcpy (drop 14 reply) 14 4 ≡ some state.s_addr
  pub target_mac : memcpy (drop 14 reply) 18 6 ≡ some sha
  pub target_ip : memcpy (drop 14 reply) 24 4 ≡ some spa
  pub final : (other : SockState) → answer other (drop 14 reply) ≡ some none

reply_lem :
    (state : SockState) (sha spa : Bytes)
    → length sha ≡ 6
    → length spa ≡ 4
    → length state.source_mac_addr ≡ 6
    → length state.s_addr ≡ 4
    → Replies state sha spa (reply_bytes state sha spa)
unfolding answer memcpy load16 load8 htons
reply_lem state sha spa h1 h2 h3 h4 =
    let (a, b, c, d, e, f, p) = six sha h1 in
    let (g, h, i, j, q) = four spa h2 in
    let (k, l, m, n, o, r, s) = six state.source_mac_addr h3 in
    let (t, u, v, w, x) = four state.s_addr h4 in
    record {
      to_requester = rw p refl;
      sender_mac = rw (p, s, x, q) refl;
      sender_ip = rw (p, s, x, q) refl;
      target_mac = rw (p, s, x, q) refl;
      target_ip = rw (p, s, x, q) refl;
      final = λ other. rw (p, s) refl;
    }

answered :
    (state : SockState) (arp_req sha spa : Bytes)
    → Asks state arp_req
    → memcpy arp_req 8 6 ≡ some sha
    → memcpy arp_req 14 4 ≡ some spa
    → answer state arp_req
      ≡ some (some (record state { dest_mac_addr = sha }, reply_bytes state sha spa))
unfolding answer
answered state arp_req sha spa (pro, op, epro, eop, ip, req, tpa) e1 e2 =
    rw (epro, eop, ip, req, tpa, e1, e2, (same_bytes_iff state.s_addr state.s_addr).1 refl) refl

-- What a request asks is read off its fields.
asked :
    (state : SockState) (arp_req tpa : Bytes) (pro op : ℕ)
    → load16 arp_req 2 ≡ some pro
    → load16 arp_req 6 ≡ some op
    → memcpy arp_req 24 4 ≡ some tpa
    → Asks state arp_req
    → (htons pro ≡ ethertype_ip) × (htons op ≡ arpop_request) × (tpa ≡ state.s_addr)
asked state arp_req tpa pro op e1 e2 e3 (pro', op', p1, p2, ip, req, p3) = (
  ap htons (some-injective (sym e1 ∙ p1)) ∙ ip,
  ap htons (some-injective (sym e2 ∙ p2)) ∙ req,
  some-injective (sym e3 ∙ p3),
)

-- A host whose addresses have 6 and 4 bytes answers an ARP packet of at least 28 bytes exactly if
-- it is an IPv4 request for the host's address. It then takes over the requester's hardware
-- address, and the reply goes to the requester, names both hosts with their addresses, and is
-- itself answered by no host.
pub answer_lem :
    (state : SockState) (arp_req : Bytes)
    → 28 ≤ length arp_req
    → length state.source_mac_addr ≡ 6
    → length state.s_addr ≡ 4
    → ((sha : Bytes) × (spa : Bytes) × (reply : Bytes) × Asks state arp_req
        × (memcpy arp_req 8 6 ≡ some sha)
        × (memcpy arp_req 14 4 ≡ some spa)
        × (answer state arp_req ≡ some (some (record state { dest_mac_addr = sha }, reply)))
        × Replies state sha spa reply)
      ⊎ ((answer state arp_req ≡ some none) × ¬ Asks state arp_req)
unfolding answer
answer_lem state arp_req long hm ha =
    let (pro, epro) = load16-some arp_req 2 (omega arith) in
    let (op, eop) = load16-some arp_req 6 (omega arith) in
    let (etpa, _) = memcpy-some arp_req 24 4 (omega arith) in
    let (esha, lsha) = memcpy-some arp_req 8 6 (omega arith) in
    let (espa, lspa) = memcpy-some arp_req 14 4 (omega arith) in
    let tpa : Bytes = take 4 (drop 24 arp_req) in
    let reads = asked state arp_req tpa pro op epro eop etpa in
    elim (Bool-cases (htons pro == ethertype_ip)) [
      | inr n ↦ inr (rw (epro, eop, n) refl, λ asks. ground (arith, n, (reads asks).0))
      | inl y ↦ elim (Bool-cases (htons op == arpop_request)) [
        | inr n ↦ inr (rw (epro, eop, y, n) refl, λ asks. ground (arith, n, (reads asks).1))
        | inl z ↦ elim (Bool-cases (same_bytes tpa state.s_addr)) [
          | inr n ↦ inr (
            rw (epro, eop, y, z, etpa, n) refl,
            λ asks. cc ((same_bytes_iff tpa state.s_addr).1 (reads asks).2, n),
          )
          | inl w ↦
              let asks : Asks state arp_req = (
                pro,
                op,
                epro,
                eop,
                (==_iff _ _).0 y,
                (==_iff _ _).0 z,
                etpa ∙ ap some ((same_bytes_iff tpa state.s_addr).0 w),
              ) in
              inl (
                take 6 (drop 8 arp_req),
                take 4 (drop 14 arp_req),
                reply_bytes state (take 6 (drop 8 arp_req)) (take 4 (drop 14 arp_req)),
                asks,
                esha,
                espa,
                answered state arp_req (take 6 (drop 8 arp_req)) (take 4 (drop 14 arp_req)) asks
                    esha espa,
                reply_lem state (take 6 (drop 8 arp_req)) (take 4 (drop 14 arp_req)) lsha lspa hm
                    ha,
              )
        ]
      ]
    ]
