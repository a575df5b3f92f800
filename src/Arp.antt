-- ===== src/Arp.antt =====
-- `struct sock_state` of sim_dpi/testing_utils.h and `handle_arp` of sim_dpi/testing_utils.cpp: the
-- reply to an ARP request.
pub mod Reply
mod Examples
use tcp_hw.Base.{
  ℕ, not, Option, none, some, ◌∷◌, ◌++◌, Bytes, ◌||◌, ◌==◌, if◌then◌else◌, ◌>>=◌, load16, bytes16,
  htons, memcpy, same_bytes,
}
use tcp_hw.Backend.{DpiTestingLib}

-- The fields of `instance_state` that the network side uses. `s_addr` is the four bytes of the
-- address in memory, in network order.
pub record SockState : Type 0 where
  pub s_addr : Bytes
  pub sin_port : ℕ
  pub source_mac_addr : Bytes
  pub dest_mac_addr : Bytes
  pub has_syn_acked : ℕ

abbrev pub ethertype_ip : ℕ
ethertype_ip = 0x0800

abbrev pub ethertype_arp : ℕ
ethertype_arp = 0x0806

abbrev pub arphrd_ether : ℕ
arphrd_ether = 1

abbrev pub arpop_request : ℕ
arpop_request = 1

abbrev pub arpop_reply : ℕ
arpop_reply = 2

-- The bytes of the `ether_header` and the `ether_arp` that answer the request of the host with the
-- addresses `sha` and `spa`.
abbrev pub reply_bytes : SockState → Bytes → Bytes → Bytes
reply_bytes state sha spa =
    sha
    ++ (state.source_mac_addr
        ++ (bytes16 (htons ethertype_arp)
            ++ (bytes16 (htons arphrd_ether)
                ++ (bytes16 (htons ethertype_ip)
                    ++ (6 ∷ 4 ∷ bytes16 (htons arpop_reply)
                        ++ (state.source_mac_addr ++ (state.s_addr ++ (sha ++ spa))))))))

-- `arp_req` is what stands from the `ether_arp` on. `none` inside is a return with no reply.
unfoldable pub answer : SockState → Bytes → Option (Option (SockState × Bytes))
answer state arp_req = do
  ar_pro ← load16 arp_req 2
  ar_op ← load16 arp_req 6
  let reply = (do
    tpa ← memcpy arp_req 24 4
    let mine = (do
      sha ← memcpy arp_req 8 6
      spa ← memcpy arp_req 14 4
      some (some (record state { dest_mac_addr = sha }, reply_bytes state sha spa)))
    if same_bytes tpa state.s_addr then mine else some none)
  if not (htons ar_pro == ethertype_ip) || not (htons ar_op == arpop_request)
      then some none
      else reply

module _ {S : Type 0} (backend : DpiTestingLib S) where
  open backend use {put_buf_on_io}

  unfoldable pub handle_arp : S → SockState → Bytes → Option (S × SockState)
  handle_arp s state arp_req = do
    reply ← answer state arp_req
    elim reply [
      | none ↦ some (s, state)
      | some (state', resp_buffer) ↦ do (bytes, s') ← put_buf_on_io resp_buffer s; some (s', state')
    ]
