-- ===== src/Stdio.antt =====
-- The part of C's stdio on which sim_dpi/pcap_helpers.cpp rests: a stream is the bytes of the file,
-- a position, and its end-of-file indicator. A read that meets the end sets the indicator, and while
-- it is set nothing is read, whatever has been appended since. Writes succeed, go to the end of the
-- file, as in the mode "ab+", and leave the indicator as it is.
use tcp_hw.Base.{
  ℕ, ◌+◌, ◌≡◌, refl, arith, Bool, false, [], ◌++◌, Bytes, length, take, drop, leb, ltb, ◌||◌,
  if◌then◌else◌, Bool-cases, inl, inr,
}
use tcp_hw.Base.{
  ◌<◌, lt→ltb, length-take, drop-drop, drop-all, take-length_append, drop-length_append,
}
use mathlib.Core.Path.{◌∙◌, sym, ap}
use native.Mathlib.Decide.{dec_le}

pub record File : Type 0 where
  pub content : Bytes
  pub pos : ℕ
  -- `feof(f)`
  pub at_end : Bool

-- What a read can still get.
abbrev pub unread : File → Bytes
unread f = if f.at_end then [] else drop f.pos f.content

-- `fread(buffer, 1, n, f)`: the bytes that it stores.
unfoldable pub fread : ℕ → File → Bytes × File
fread n f =
    let got = take n (unread f) in
    (got, record f { pos = f.pos + length got; at_end = f.at_end || ltb (length got) n })

-- `fread(&item, size, 1, f)`: whether a whole item came.
unfoldable pub fread_item : ℕ → File → Bool × File
unfolding fread
fread_item size f = let (got, f') = fread size f in (leb size (length got), f')

-- `fwrite(buffer, 1, n, f)` on a stream opened for appending.
unfoldable pub fwrite : Bytes → File → File
fwrite bs f = record {
  content = f.content ++ bs;
  pos = length f.content + length bs;
  at_end = f.at_end;
}

pub fread-got : (n : ℕ) (f : File) → (fread n f).0 ≡ take n (unread f)
unfolding fread
fread-got n f = refl

-- What is read moves the position on, and reading past the end reads to the end.
pub unread-fread : (n : ℕ) (f : File) → unread (fread n f).1 ≡ drop n (unread f)
unfolding fread
unread-fread n f = elim (Bool-cases f.at_end) [
  | inl e ↦ rw e (sym (drop-all n [] (omega arith)))
  | inr e ↦
      let xs : Bytes = drop f.pos f.content in
      elim (dec_le n (length xs)) [
        | yes h ↦
            let l : length (take n xs) ≡ n = omega (arith, length-take n xs) in
            let more : ltb n n ≡ false = ground arith in
            rw (e, l, more) (sym (drop-drop n f.pos f.content))
        | no h ↦
            let l : length (take n xs) < n = omega (arith, length-take n xs) in
            rw (e, lt→ltb (length (take n xs)) n l) (sym (drop-all n xs (omega arith)))
      ]
]

pub content-fread : (n : ℕ) (f : File) → (fread n f).1.content ≡ f.content
unfolding fread
content-fread n f = refl

module _ (f : File) (xs rest : Bytes) (e : unread f ≡ xs ++ rest) where
  -- Reading exactly a known prefix of the unread bytes.
  pub fread-got_append : (fread (length xs) f).0 ≡ xs
  fread-got_append = fread-got (length xs) f ∙ rw e (take-length_append xs rest)

  pub unread-fread_append : unread (fread (length xs) f).1 ≡ rest
  unread-fread_append = unread-fread (length xs) f ∙ rw e (drop-length_append xs rest)

  -- Neither meets the end, and both move the position on by as much.
  pub at_end-fread_append : (fread (length xs) f).1.at_end ≡ f.at_end
  unfolding fread
  at_end-fread_append =
      let all : ltb (length xs) (length xs) ≡ false = ground arith in
      rw (fread-got_append, all) (ground arith)

  pub pos-fread_append : (fread (length xs) f).1.pos ≡ f.pos + length xs
  unfolding fread
  pos-fread_append = ap (λ (t : Bytes). f.pos + length t) fread-got_append
