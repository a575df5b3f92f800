-- ===== src/Checksum.antt =====
-- The checksum functions of sim_dpi/testing_utils.cpp: `csum`, `add_tcp_checksum`,
-- `add_ip_checksum`. `none` is a read or a write outside the buffer.
pub mod Sum
pub mod Tcp
mod Examples
use tcp_hw.Base.{
  ℕ, zero, suc, ◌+◌, ◌-◌, ◌*◌, ◌/◌, ◌%◌, Option, none, some, List, [], ◌∷◌, ◌++◌, Bytes, length,
  take, drop, leb, if◌then◌else◌, ◌>>=◌, load8, load32, bytes16, bytes32, htons, memcpy, word16,
  u32,
}

-- The loop over `nbytes`, and the odd byte behind it. The sum is a `long`, which no buffer fills.
unfoldable pub csum_loop : Bytes → ℕ → ℕ → Option ℕ
csum_loop ptr zero sum = some sum
csum_loop [] (suc n) sum = none
csum_loop (a ∷ ptr) (suc zero) sum = some (sum + a)
csum_loop (a ∷ []) (suc (suc n)) sum = none
csum_loop (a ∷ b ∷ ptr) (suc (suc n)) sum = csum_loop ptr n (sum + word16 a b)

-- The two additions of the carry, and the complement as an `unsigned short`.
unfoldable pub fold_sum : ℕ → ℕ
fold_sum sum =
    let once = sum / 65536 + sum % 65536 in let twice = once + once / 65536 in 65535 - twice % 65536

unfoldable pub csum : Bytes → ℕ → Option ℕ
csum ptr nbytes = do sum ← csum_loop ptr nbytes 0; some (fold_sum sum)

-- A store of a word at an offset.
unfoldable pub store16 : Bytes → ℕ → ℕ → Option Bytes
store16 bs off w =
    if leb (off + 2) (length bs)
    then some (take off bs ++ (bytes16 w ++ drop (off + 2) bs))
    else none

-- `IPPROTO_TCP`
abbrev pub ipproto_tcp : ℕ
ipproto_tcp = 6

-- `struct TCPChecksumHeader` in memory. The addresses are in network order.
unfoldable pub pseudo_header : ℕ → ℕ → ℕ → Bytes
pseudo_header source_addr dest_addr tcp_len =
    bytes32 source_addr ++ (bytes32 dest_addr ++ (0 ∷ ipproto_tcp ∷ bytes16 (htons tcp_len)))

-- Where `check` stands in a `tcphdr`, and in an `iphdr`.
abbrev pub tcp_check : ℕ
tcp_check = 16

abbrev pub ip_check : ℕ
ip_check = 10

-- `tcp_header->doff << 2`
unfoldable pub tcp_header_len : Bytes → Option ℕ
tcp_header_len tcp_segment = do b ← load8 tcp_segment 12; some (b / 16 * 4)

-- The segment with its checksum. The checksum is taken of a copy in which the field is zero.
unfoldable pub add_tcp_checksum : Bytes → ℕ → ℕ → ℕ → Option Bytes
add_tcp_checksum tcp_segment payload_len source_addr dest_addr = do
  header_len ← tcp_header_len tcp_segment
  segment ← memcpy tcp_segment 0 (header_len + payload_len)
  cleared ← store16 segment tcp_check 0
  let pseudogram = pseudo_header source_addr dest_addr (header_len + payload_len) ++ cleared
  checksum ← csum pseudogram (12 + (header_len + payload_len))
  store16 tcp_segment tcp_check checksum

-- `ihl << 2` bytes are summed, with whatever the field `check` holds.
unfoldable pub add_ip_checksum : Bytes → Option Bytes
add_ip_checksum ip_header = do
  ihl ← load8 ip_header 0
  checksum ← csum ip_header (ihl % 16 * 4)
  store16 ip_header ip_check checksum
