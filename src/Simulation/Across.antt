-- ===== src/Simulation/Across.antt =====
-- Two simulations joined by files: what the hardware of one sends, the hardware of the other gets.
use tcp_hw.Base.{
  ℕ, suc, ◌+◌, ◌*◌, ◌≤◌, ◌≡◌, ◌∙◌, refl, sym, subst, ap, some, List, [], ◌++◌, Bytes, length, take,
  load16, htons,
}
use tcp_hw.Arp.{ethertype_ip}
use tcp_hw.FileIo.{FileIo}
use tcp_hw.FileIo.Exchange.{CaughtUp, sees, put-get}
use tcp_hw.Network.{NetworkSide, Beat, beat_bytes, ether_header_size, send_on_socket}
use tcp_hw.Network.Loopback.{BeatsOf, get_packet, put_packet, put_packet_lem}
use tcp_hw.Network.Echo.{echo_lem}
use tcp_hw.Simulation.{Running, file_backend}

abbrev Side : Type 0
Side = NetworkSide (Running FileIo)

-- The side `b` finds in its file what `a` has written.
abbrev pub looks : Side → Side → Side
looks a b = record b {
  backend = record b.backend { object = sees a.backend.object b.backend.object };
}

module _ (stale : ℕ → Bytes) (clock : ℕ → ℕ × ℕ) where
  -- The packet in the send buffer of `a` is the next that the backend of `b` gives.
  sent :
      (xs : Bytes) (a b : Side)
      → CaughtUp a.backend.object b.backend.object
      → length xs ≤ 2048
      → (a' : Side) × (r : Running FileIo) × (send_on_socket
            (file_backend stale clock)
            (record a { tx_buffer = xs })
          ≡ some a')
        × ((file_backend stale clock).get_buf_fr_io (looks a' b).backend ≡ some (xs, r))
        × CaughtUp a'.backend.object r.object
  unfolding send_on_socket file_backend
  sent xs a b caught fits =
      let (sec, usec) = clock a.backend.calls in
      let (writer, reader, put, got, again) =
        put-get sec usec (stale b.backend.calls) xs a.backend.object b.backend.object caught fits in
      (
        record a {
          backend = record { calls = a.backend.calls + 1; object = writer };
          tx_buffer = [];
        },
        record { calls = b.backend.calls + 1; object = reader },
        rw put refl,
        rw got refl,
        again,
      )

  -- Let the side `b` have nothing left to drive, and have read all of the file that the side `a`
  -- writes, with no call that found nothing there. If the hardware of `a`, whose send buffer is
  -- empty, sends the beats of an IP packet of at most 2048 bytes that is at least as long as its
  -- header claims, then the hardware of `b` gets the bytes that the header claims, as beats, no
  -- call faults, and `b` has again read all of the file of `a` with no call that found nothing.
  pub across :
      (vectors : ℕ → Bytes) (n : ℕ) (xs : Bytes) (bs : List Beat) (a b : Side)
      (ether_type tot_len : ℕ)
      → ((i : ℕ) → length (vectors i) ≡ beat_bytes)
      → BeatsOf xs bs
      → a.tx_buffer ≡ []
      → b.rx_data_if.buffer_len ≤ b.rx_data_if.buffer_pos
      → CaughtUp a.backend.object b.backend.object
      → length xs ≤ 2048
      → load16 xs 12 ≡ some ether_type
      → htons ether_type ≡ ethertype_ip
      → load16 xs 16 ≡ some tot_len
      → htons tot_len + ether_header_size ≤ length xs
      → htons tot_len + ether_header_size ≤ beat_bytes * suc n
      → (a' : Side) × (bs' : List Beat) × (b' : Side) × (put_packet (file_backend stale clock) bs a
          ≡ some a')
        × (get_packet (file_backend stale clock) vectors (suc n) (looks a' b) ≡ some (bs', b'))
        × BeatsOf (take (htons tot_len + ether_header_size) xs) bs'
        × CaughtUp a'.backend.object b'.backend.object
  across vectors n xs bs a b ether_type tot_len full beats empty idle caught fits typed is_ip sized
        whole fuel =
      let (a', r, put, got, again) = sent xs a b caught fits in
      let (bs', b', run, are, _, _, now, _) =
        echo_lem (file_backend stale clock) (looks a' b) xs r ether_type tot_len idle got typed
          is_ip sized whole vectors n (record a { tx_buffer = [] }) full fuel refl in
      (
        a',
        bs',
        b',
        put_packet_lem (file_backend stale clock) xs bs a beats
            ∙ ap
                (λ (t : Bytes).
                  send_on_socket (file_backend stale clock) (record a { tx_buffer = t ++ xs }))
                empty
            ∙ put,
        run,
        are,
        subst (λ (t : Running FileIo). CaughtUp a'.backend.object t.object) (sym now) again,
      )
