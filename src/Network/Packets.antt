-- ===== src/Network/Packets.antt =====
-- What the loops of `get_data` and `put_data` do with a vector.
use tcp_hw.Base.{
  ℕ, zero, suc, ◌+◌, ◌-◌, ◌≤◌, ◌<◌, ◌≡◌, ◌∙◌, refl, sym, ap, arith, Option, some, [], ◌∷◌, ◌++◌,
  Bytes, length, take, drop, set, replicate, min, get_elem?, get_elem?-drop, get_elem?_of_drop,
  take-append-drop, drop-all, append-nil, append_assoc, length-set, length-take, load8, lt→ltb,
  le→ltb, le→leb, lt→leb,
}
use tcp_hw.Network.{RxDataInterface, read_buffer, copy_loop, pad_loop, push_loop}
use mathlib.Core.List.{reverse, reverse-append, reverse-cons}
use native.Mathlib.Decide.{dec_le}
use native.Mathlib.Numerals.{add-one}

-- Writing at an index leaves what is below, and puts the value before what is above.
take-set : (k i b : ℕ) (v : Bytes) → k ≤ i → take k (set v i b) ≡ take k v
take-set zero i b v h = refl
take-set (suc k) i b [] h = refl
take-set (suc k) zero b (x ∷ v) h = absurd (omega arith)
take-set (suc k) (suc i) b (x ∷ v) h = ap (λ t. x ∷ t) (take-set k i b v (omega arith))

drop-set : (i b : ℕ) (v : Bytes) → i < length v → drop i (set v i b) ≡ b ∷ drop (suc i) v
drop-set i b [] h = absurd (omega arith)
drop-set zero b (x ∷ v) h = refl
drop-set (suc i) b (x ∷ v) h = drop-set i b v (omega arith)

-- Where the first loop stops, from `n` slots, with `xs` left of the packet: it has filled the
-- vector from slot `n - 1` downwards.
pub record Copied (n : ℕ) (v xs : Bytes) (rx : RxDataInterface) (out : Bytes × RxDataInterface × ℕ)
    : Type 0 where
  pub pad : out.2 ≡ n - length xs
  pub bytes : out.0 ≡ take out.2 v ++ (reverse (take n xs) ++ drop n v)
  pub moved : out.1.buffer_pos ≡ rx.buffer_pos + min n (length xs)
  pub same_buffer : out.1.buffer ≡ rx.buffer
  pub same_len : out.1.buffer_len ≡ rx.buffer_len

zero-in : (i : ℕ) (t : Bytes) → replicate i 0 ++ (0 ∷ t) ≡ 0 ∷ (replicate i 0 ++ t)
zero-in zero t = refl
zero-in (suc i) t = ap (λ u. 0 ∷ u) (zero-in i t)

take_snoc :
    (i : ℕ) (v : Bytes) {b : ℕ} → get_elem? v i ≡ some b → take (suc i) v ≡ take i v ++ (b ∷ [])
take_snoc i [] e = cc
take_snoc zero (x ∷ v) e = ground (arith, e)
take_snoc (suc i) (x ∷ v) e = ap (λ t. x ∷ t) (take_snoc i v e)

drop-snoc :
    (k : ℕ) (v : Bytes) (b : ℕ) → k ≤ length v → drop k (v ++ (b ∷ [])) ≡ drop k v ++ (b ∷ [])
drop-snoc zero v b h = refl
drop-snoc (suc k) [] b h = absurd (omega arith)
drop-snoc (suc k) (x ∷ v) b h = drop-snoc k v b (omega arith)

-- What is left of the packet in the buffer.
pub record Left (bs xs : Bytes) (rx : RxDataInterface) : Type 0 where
  pub allocated : rx.buffer ≡ some bs
  pub sized : rx.buffer_len ≡ length bs
  pub rest : drop rx.buffer_pos bs ≡ xs
  pub inside : rx.buffer_pos + length xs ≡ length bs

read_allocated :
    (buffer : Option Bytes) (bs : Bytes) (pos x : ℕ)
    → buffer ≡ some bs
    → get_elem? bs pos ≡ some x
    → read_buffer buffer pos ≡ some x
unfolding read_buffer load8
read_allocated buffer bs pos x e h = rw (e, read_buffer) h

pub copy_loop_lem :
    (n : ℕ) (v bs xs : Bytes) (rx : RxDataInterface)
    → n ≤ length v
    → Left bs xs rx
    → (out : Bytes × RxDataInterface × ℕ) × (copy_loop n v rx ≡ some out) × Copied n v xs rx out
unfolding copy_loop
copy_loop_lem zero v bs xs rx fits l = (
  (v, rx, 0),
  refl,
  record {
    pad = omega arith;
    bytes = refl;
    moved = omega arith;
    same_buffer = refl;
    same_len = refl;
  },
)
copy_loop_lem (suc i) v bs [] rx fits l = (
  (v, rx, suc i),
  rw (le→ltb rx.buffer_pos rx.buffer_len (omega (arith, l.sized, l.inside))) refl,
  record {
    pad = omega arith;
    bytes = sym (take-append-drop (suc i) v);
    moved = omega arith;
    same_buffer = refl;
    same_len = refl;
  },
)
copy_loop_lem (suc i) v bs (x ∷ xs) rx fits l =
    let (here, later) = get_elem?_of_drop bs rx.buffer_pos l.rest in
    let rx' : RxDataInterface = record rx { buffer_pos = rx.buffer_pos + 1 } in
    let left : Left bs xs rx' = record {
      allocated = l.allocated;
      sized = l.sized;
      rest = rw add-one later;
      inside = omega (arith, l.inside);
    } in
    let (out, run, c) =
      copy_loop_lem i (set v i x) bs xs rx' (omega (arith, length-set v i x)) left in
    (
      out,
      rw
          (
            lt→ltb rx.buffer_pos rx.buffer_len (omega (arith, l.sized, l.inside)),
            read_allocated rx.buffer bs rx.buffer_pos x l.allocated here,
          )
          run,
      record {
        pad = omega (arith, c.pad);
        bytes =
            c.bytes
            ∙ rw (
              take-set out.2 i x v (omega (arith, c.pad)),
              drop-set i x v fits,
              reverse-cons,
              append_assoc,
            );
        moved = omega (arith, c.moved);
        same_buffer = c.same_buffer;
        same_len = c.same_len;
      },
    )

-- The second loop.
pub pad_loop_lem : (n : ℕ) (v : Bytes) → n ≤ length v → pad_loop n v ≡ replicate n 0 ++ drop n v
unfolding pad_loop
pad_loop_lem zero v h = refl
pad_loop_lem (suc i) v h =
    pad_loop_lem i (set v i 0) (omega (arith, length-set v i 0))
    ∙ rw (drop-set i 0 v h) (zero-in i (drop (suc i) v))

-- The loop of `put_data` pushes the slots from `n - 1` down to `pad`.
pub push_loop_lem :
    (n pad : ℕ) (v out : Bytes)
    → n ≤ length v
    → push_loop n pad v out ≡ some (out ++ reverse (drop pad (take n v)))
unfolding push_loop load8
push_loop_lem zero pad v out h =
    rw (drop-all {A = ℕ} pad [] (omega arith)) (ap some (sym (append-nil out)))
push_loop_lem (suc i) pad v out h = elim (dec_le pad i) [
  | yes p ↦
      let (b, here, _) = get_elem?-drop v i h in
      rw (le→leb pad i p, here, push_loop_lem i pad v (out ++ (b ∷ [])) (omega arith))
        (ap some (
          rw append_assoc (
            ap (λ t. out ++ t)
              (sym (
                rw
                  (
                    take_snoc i v here,
                    drop-snoc pad (take i v) b (omega (arith, length-take i v)),
                    reverse-append,
                  )
                  refl)))))
  | no p ↦
      rw
        (
          lt→leb pad i (omega arith),
          drop-all pad (take (suc i) v) (omega (arith, length-take (suc i) v)),
        )
        (ap some (sym (append-nil out)))
]
