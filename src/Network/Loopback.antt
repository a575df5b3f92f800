-- ===== src/Network/Loopback.antt =====
-- A packet that goes to the hardware by `get_data` and comes back by `put_data` is the same packet.
use tcp_hw.Base.{
  ℕ, zero, suc, ◌*◌, ◌≤◌, ◌<◌, ◌≡◌, ◌∙◌, refl, ap, subst, arith, true, false, Option, some, none,
  List, [], ◌∷◌, ◌++◌, Bytes, length, take, drop, replicate, append_assoc, take-all,
  take-append-drop, >>=-some, drop-length_append, length-append, length-take, length-drop,
  length-replicate, le→leb, lt→leb, if◌then◌else◌, ◌>>=◌,
}
use tcp_hw.Backend.{DpiTestingLib}
use tcp_hw.Network.{
  RxDataInterface, Beat, NetworkSide, beat_bytes, next_beat, push_loop, get_data, put_data,
  send_on_socket,
}
use tcp_hw.Network.Packets.{Left, push_loop_lem}
use tcp_hw.Network.Memory.{BeatOf, next_beat_lem}
use mathlib.Core.List.{reverse, reverse-reverse, reverse-cons}
use native.Mathlib.Decide.{dec_le}

-- The beats of a packet.
pub data BeatsOf : Bytes → List Beat → Type 0 where
  final : {xs : Bytes} {b : Beat} → BeatOf xs b → length xs ≤ beat_bytes → BeatsOf xs (b ∷ [])
  more :
      {xs : Bytes} {b : Beat} {bs : List Beat}
      → BeatOf xs b
      → beat_bytes < length xs
      → BeatsOf (drop beat_bytes xs) bs
      → BeatsOf xs (b ∷ bs)

-- The number of zero bytes that `put_data` skips is the padding, in every beat.
skipped : (xs : Bytes) (b : Beat) → BeatOf xs b → (if b.last then b.padbytes else 0) ≡ b.padbytes
skipped xs b is = elim (dec_le (length xs) beat_bytes) [
  | yes h ↦ rw (is.last, le→leb (length xs) beat_bytes h)
  | no h ↦ rw (is.last, lt→leb (length xs) beat_bytes (omega arith)) (omega (arith, is.pad))
]

length-reverse : (xs : Bytes) → length (reverse xs) ≡ length xs
length-reverse [] = refl
length-reverse (x ∷ xs) =
    ap length (reverse-cons x xs)
    ∙ omega (arith, length-append (reverse xs) (x ∷ []), length-reverse xs)

pub length-bytes : (xs : Bytes) (b : Beat) → BeatOf xs b → length b.bytes ≡ beat_bytes
length-bytes xs b is = omega (
  arith,
  ap length is.bytes,
  length-append (replicate b.padbytes 0) (reverse (take beat_bytes xs)),
  length-replicate {A = ℕ} b.padbytes 0,
  length-reverse (take beat_bytes xs),
  length-take beat_bytes xs,
  is.pad,
)

-- `put_data` takes the bytes of the packet out of a beat again.
push-BeatOf :
    (xs out : Bytes) (b : Beat)
    → BeatOf xs b
    → push_loop beat_bytes b.padbytes b.bytes out ≡ some (out ++ take beat_bytes xs)
push-BeatOf xs out b is =
    let full : take beat_bytes b.bytes ≡ b.bytes =
      take-all beat_bytes b.bytes (omega (arith, length-bytes xs b is)) in
    let pad : length (replicate b.padbytes 0) ≡ b.padbytes = length-replicate b.padbytes 0 in
    let behind : drop b.padbytes b.bytes ≡ reverse (take beat_bytes xs) =
      ap (drop b.padbytes) is.bytes
      ∙ subst
          (λ (k : ℕ).
            drop k (replicate b.padbytes 0 ++ reverse (take beat_bytes xs))
            ≡ reverse (take beat_bytes xs))
          pad (drop-length_append (replicate b.padbytes 0) (reverse (take beat_bytes xs))) in
    push_loop_lem beat_bytes b.padbytes b.bytes out (omega (arith, length-bytes xs b is))
    ∙ rw (full, behind, reverse-reverse)

module _ {S : Type 0} (sim_backend : DpiTestingLib S) where
  -- The hardware takes the beats of one packet; the n-th call from the last finds `stale n`.
  unfoldable pub get_packet : (ℕ → Bytes) → ℕ → NetworkSide S → Option (List Beat × NetworkSide S)
  get_packet stale zero net = none
  get_packet stale (suc n) net = do
    (b, net') ← get_data sim_backend (stale n) net
    let later = (do (bs, net'') ← get_packet stale n net'; some (b ∷ bs, net''))
    if b.last then some (b ∷ [], net') else later

  -- The hardware sends beats.
  unfoldable pub put_packet : List Beat → NetworkSide S → Option (NetworkSide S)
  put_packet [] net = some net
  put_packet (b ∷ bs) net = do
    net' ← put_data sim_backend b.bytes b.last b.padbytes net
    put_packet bs net'

  put_data-final :
      (xs : Bytes) (b : Beat) (net : NetworkSide S)
      → BeatOf xs b
      → length xs ≤ beat_bytes
      → put_data sim_backend b.bytes b.last b.padbytes net
        ≡ send_on_socket sim_backend (record net { tx_buffer = net.tx_buffer ++ xs })
  unfolding put_data
  put_data-final xs b net is h =
      let ends : b.last ≡ true = is.last ∙ le→leb (length xs) beat_bytes h in
      let pushed : push_loop beat_bytes b.padbytes b.bytes net.tx_buffer
          ≡ some (net.tx_buffer ++ xs) =
        push-BeatOf xs net.tx_buffer b is ∙ rw (take-all beat_bytes xs h) in
      rw (ends, pushed)

  put_data-more :
      (xs : Bytes) (b : Beat) (net : NetworkSide S)
      → BeatOf xs b
      → beat_bytes < length xs
      → put_data sim_backend b.bytes b.last b.padbytes net
        ≡ some (record net { tx_buffer = net.tx_buffer ++ take beat_bytes xs })
  unfolding put_data
  put_data-more xs b net is h =
      let goes_on : b.last ≡ false = is.last ∙ lt→leb (length xs) beat_bytes h in
      let unpadded : b.padbytes ≡ 0 = omega (arith, is.pad) in
      let pushed : push_loop beat_bytes 0 b.bytes net.tx_buffer
          ≡ some (net.tx_buffer ++ take beat_bytes xs) =
        rw unpadded at (push-BeatOf xs net.tx_buffer b is) in
      rw (goes_on, pushed)

  -- The beats of a packet, sent by the hardware, reach the backend as that packet, behind what was
  -- in the buffer already.
  pub put_packet_lem :
      (xs : Bytes) (bs : List Beat) (net : NetworkSide S)
      → BeatsOf xs bs
      → put_packet bs net
        ≡ send_on_socket sim_backend (record net { tx_buffer = net.tx_buffer ++ xs })
  unfolding put_packet
  put_packet_lem xs bs net (final {b = b} is h) =
      rw (put_data-final xs b net is h)
        (>>=-some (send_on_socket sim_backend (record net { tx_buffer = net.tx_buffer ++ xs })))
  put_packet_lem xs bs net (more {b = b} {bs = later} is h rest) =
      rw (put_data-more xs b net is h) (
        put_packet_lem (drop beat_bytes xs) later
          (record net { tx_buffer = net.tx_buffer ++ take beat_bytes xs }) rest
        ∙ ap (λ (t : Bytes). send_on_socket sim_backend (record net { tx_buffer = t }))
            (append_assoc net.tx_buffer (take beat_bytes xs) (drop beat_bytes xs)
              ∙ ap (λ t. net.tx_buffer ++ t) (take-append-drop beat_bytes xs)))

  pub get_data-Left :
      (v buf xs : Bytes) (net : NetworkSide S)
      → Left buf xs net.rx_data_if
      → 0 < length xs
      → get_data sim_backend v net
        ≡ (next_beat v net.rx_data_if >>= λ r. some (r.0, record net { rx_data_if = r.1 }))
  unfolding get_data
  get_data-Left v buf xs net l pos = rw (
      lt→leb net.rx_data_if.buffer_len net.rx_data_if.buffer_pos (omega (arith, l.sized, l.inside)))

  -- A packet of which something is left is driven to its end, with no fault and with the buffer
  -- freed, and nothing else of the network side changes.
  pub get_packet_lem :
      (stale : ℕ → Bytes) (n : ℕ) (net : NetworkSide S) (buf xs : Bytes)
      → ((i : ℕ) → length (stale i) ≡ beat_bytes)
      → Left buf xs net.rx_data_if
      → 0 < length xs
      → length xs ≤ beat_bytes * n
      → (bs : List Beat) × (rx : RxDataInterface) × (get_packet stale n net
          ≡ some (bs, record net { rx_data_if = rx }))
        × BeatsOf xs bs
        × (rx.buffer ≡ none)
        × (rx.buffer_pos ≡ rx.buffer_len)
  unfolding get_packet
  get_packet_lem stale zero net buf xs full l pos fuel = absurd (omega arith)
  get_packet_lem stale (suc n) net buf xs full l pos fuel =
      let (b, rx, run, is, after) = next_beat_lem (stale n) buf xs net.rx_data_if (full n) l in
      let data_got = get_data-Left (stale n) buf xs net l pos in
      elim (dec_le (length xs) beat_bytes) [
        | yes h ↦
            let ends : b.last ≡ true = is.last ∙ le→leb (length xs) beat_bytes h in
            let (gone, idle) = after.done h in
            (b ∷ [], rx, rw (data_got, run, ends) refl, final is h, gone, idle)
        | no h ↦
            let goes_on : b.last ≡ false = is.last ∙ lt→leb (length xs) beat_bytes (omega arith) in
            let (bs, rx', later, are, gone, idle) =
              get_packet_lem stale n (record net { rx_data_if = rx }) buf (drop beat_bytes xs) full
                (after.more (omega arith)) (omega (arith, length-drop beat_bytes xs))
                (omega (arith, length-drop beat_bytes xs)) in
            (
              b ∷ bs,
              rx',
              rw (data_got, run, goes_on, later) refl,
              more is (omega arith) are,
              gone,
              idle,
            )
      ]
