-- ===== src/Network/Memory.antt =====
-- One beat: what is driven, and what becomes of the buffer.
use tcp_hw.Base.{
  ℕ, ◌+◌, ◌-◌, ◌≤◌, ◌<◌, ◌≡◌, ◌∙◌, refl, sym, ap, subst, arith, true, some, none, ◌++◌, Bytes,
  length, take, drop, replicate, drop-drop, drop-all, drop-length_append, append-nil, length-append,
  length-take, length-drop, leb, le→leb, lt→leb, ==_iff, lt→==_false, ◌==◌,
}
use tcp_hw.Network.{RxDataInterface, Beat, beat_bytes, pad_loop, next_beat}
use tcp_hw.Network.Packets.{Left, Copied, copy_loop_lem, pad_loop_lem}
use mathlib.Core.List.{reverse}
use native.Mathlib.Decide.{dec_le}

-- The beat for `xs`, what is left of a packet: as many of its bytes as fit, the first of them in
-- the highest slot, zeros below, and whether this is the end.
pub record BeatOf (xs : Bytes) (beat : Beat) : Type 0 where
  pub val : beat.val ≡ true
  pub pad : beat.padbytes ≡ beat_bytes - length xs
  pub bytes : beat.bytes ≡ replicate beat.padbytes 0 ++ reverse (take beat_bytes xs)
  pub last : beat.last ≡ leb (length xs) beat_bytes

-- The buffer is freed exactly behind the last byte.
pub record After (bs xs : Bytes) (rx : RxDataInterface) : Type 0 where
  pub more : beat_bytes < length xs → Left bs (drop beat_bytes xs) rx
  pub done : length xs ≤ beat_bytes → (rx.buffer ≡ none) × (rx.buffer_pos ≡ rx.buffer_len)

padded :
    (pad : ℕ) (v rs : Bytes)
    → pad ≤ length v
    → length v ≡ beat_bytes
    → (filled : Bytes) → filled ≡ take pad v ++ (rs ++ drop beat_bytes v)
    → pad ≤ length filled
    → pad_loop pad filled ≡ replicate pad 0 ++ rs
padded pad v rs h full filled e fits =
    let front : length (take pad v) ≡ pad = omega (arith, length-take pad v) in
    let behind : drop pad filled ≡ rs ++ drop beat_bytes v = rw e (
      subst (λ (k : ℕ). drop k (take pad v ++ (rs ++ drop beat_bytes v)) ≡ rs ++ drop beat_bytes v)
        front (drop-length_append (take pad v) (rs ++ drop beat_bytes v))) in
    pad_loop_lem pad filled fits
    ∙ rw (behind, drop-all beat_bytes v (omega (arith, full)), append-nil)

module _ (v bs xs filled : Bytes) (rx rx1 : RxDataInterface) (pad : ℕ)
    (full : length v ≡ beat_bytes) (l : Left bs xs rx)
    (c : Copied beat_bytes v xs rx (filled, rx1, pad)) where
  fits : pad ≤ length filled
  fits = omega (
    arith,
    c.pad,
    ap length c.bytes,
    length-append (take pad v) (reverse (take beat_bytes xs) ++ drop beat_bytes v),
    length-take pad v,
  )

  filled_bytes : pad_loop pad filled ≡ replicate pad 0 ++ reverse (take beat_bytes xs)
  filled_bytes =
      padded pad v (reverse (take beat_bytes xs)) (omega (arith, c.pad)) full filled c.bytes fits

  -- The test of `last` and that of the `free` agree: they hold when nothing is left.
  at_end : (rx1.buffer_pos == rx1.buffer_len) ≡ leb (length xs) beat_bytes
  at_end = elim (dec_le (length xs) beat_bytes) [
    | yes h ↦
        (==_iff rx1.buffer_pos rx1.buffer_len).1
          (omega (arith, c.moved, c.same_len, l.sized, l.inside))
        ∙ sym (le→leb (length xs) beat_bytes h)
    | no h ↦
        lt→==_false rx1.buffer_pos rx1.buffer_len
          (omega (arith, c.moved, c.same_len, l.sized, l.inside))
        ∙ sym (lt→leb (length xs) beat_bytes (omega arith))
  ]

  freed : leb rx1.buffer_len rx1.buffer_pos ≡ leb (length xs) beat_bytes
  freed = elim (dec_le (length xs) beat_bytes) [
    | yes h ↦
        le→leb rx1.buffer_len rx1.buffer_pos (omega (arith, c.moved, c.same_len, l.sized, l.inside))
        ∙ sym (le→leb (length xs) beat_bytes h)
    | no h ↦
        lt→leb rx1.buffer_len rx1.buffer_pos (omega (arith, c.moved, c.same_len, l.sized, l.inside))
        ∙ sym (lt→leb (length xs) beat_bytes (omega arith))
  ]

  still-Left : beat_bytes < length xs → Left bs (drop beat_bytes xs) rx1
  still-Left h = record {
    allocated = c.same_buffer ∙ l.allocated;
    sized = c.same_len ∙ l.sized;
    rest =
        ap (λ (k : ℕ). drop k bs)
          (let e : rx1.buffer_pos ≡ rx.buffer_pos + beat_bytes = omega (arith, c.moved) in e)
        ∙ sym (drop-drop beat_bytes rx.buffer_pos bs)
        ∙ ap (drop beat_bytes) l.rest;
    inside = omega (arith, c.moved, l.inside, length-drop beat_bytes xs);
  }

pub next_beat_lem :
    (v bs xs : Bytes) (rx : RxDataInterface)
    → length v ≡ beat_bytes
    → Left bs xs rx
    → (beat : Beat) × (rx' : RxDataInterface) × (next_beat v rx ≡ some (beat, rx'))
      × BeatOf xs beat
      × After bs xs rx'
unfolding next_beat
next_beat_lem v bs xs rx full l =
    let ((filled, rx1, pad), run, c) =
      copy_loop_lem beat_bytes v bs xs rx (omega (arith, full)) l in
    let beat : Beat = record {
      val = true;
      bytes = pad_loop pad filled;
      last = rx1.buffer_pos == rx1.buffer_len;
      padbytes = pad;
    } in
    let is : BeatOf xs beat = record {
      val = refl;
      pad = c.pad;
      bytes = filled_bytes v bs xs filled rx rx1 pad full l c;
      last = at_end v bs xs filled rx rx1 pad full l c;
    } in
    let tested = freed v bs xs filled rx rx1 pad full l c in
    elim (dec_le (length xs) beat_bytes) [
      | yes h ↦ (
        beat,
        record rx1 { buffer = none },
        rw (run, tested, le→leb (length xs) beat_bytes h) refl,
        is,
        record {
          more = λ p. absurd (omega arith);
          done = λ _. (refl, omega (arith, c.moved, c.same_len, l.sized, l.inside));
        },
      )
      | no h ↦ (
        beat,
        rx1,
        rw (run, tested, lt→leb (length xs) beat_bytes (omega arith)) refl,
        is,
        record { more = still-Left v bs xs filled rx rx1 pad full l c; done = λ p. absurd (h p) },
      )
    ]
