-- ===== src/Compare/Reports.antt =====
-- What a verdict says of the two buffers.
use tcp_hw.Base.{
  ℕ, zero, suc, ◌+◌, ◌≡◌, ◌≢◌, ◌↔◌, ◌∙◌, refl, ap, arith, some, List, [], ◌∷◌, Bytes, All, length,
  get_elem?, ◌==◌, drop, get_elem?_of_drop, get_elem?-drop, get_elem?-eq-none, sym, ==_iff,
  Bool-cases, inl, inr, ◌⊎◌,
}
use native.Mathlib.Nat.{zero-add}
use native.Mathlib.Decide.{dec_lt}
use tcp_hw.Compare.{Difference, differences, compare_from, compare_bufs}

-- A reported byte stands at that place in the buffers, which differ there.
abbrev pub IsDifference : Bytes → Bytes → Difference → Type 0
IsDifference ref recved d =
    (get_elem? ref d.at ≡ some d.expected)
    × (get_elem? recved d.at ≡ some d.got)
    × (d.expected ≢ d.got)

-- Whether a report is of index `i`.
abbrev pub Reports : ℕ → List Difference → Type 0
Reports i [] = ⊥
Reports i (d ∷ ds) = (d.at ≡ i) ⊎ Reports i ds

compare_from-nil :
    (i : ℕ) (ref recved : Bytes)
    → length ref ≡ length recved
    → (compare_from i ref recved ≡ [])
    → ref ≡ recved
unfolding compare_from
compare_from-nil i [] [] h e = refl
compare_from-nil i [] (b ∷ recved) h e = absurd (omega arith)
compare_from-nil i (a ∷ ref) [] h e = absurd (omega arith)
compare_from-nil i (a ∷ ref) (b ∷ recved) h e =
    ground (arith, compare_from-nil (suc i) ref recved (omega arith))

compare_from_self : (i : ℕ) (ref : Bytes) → compare_from i ref ref ≡ []
unfolding compare_from
compare_from_self i [] = refl
compare_from_self i (a ∷ ref) = ground (arith, compare_from_self (suc i) ref)

-- A verdict with no complaint is given exactly on equal packets.
compare_bufs-eq_iff :
    (ref recved : Bytes) → (compare_bufs ref recved ≡ differences []) ↔ (ref ≡ recved)
unfolding compare_bufs
compare_bufs-eq_iff ref recved = (
  (λ e. elim (Bool-cases (length ref == length recved)) [
    | inl p ↦ compare_from-nil 0 ref recved ((==_iff _ _).0 p) (ground (arith, e, p))
    | inr p ↦ ground (arith, e, p)
  ]),
  λ e. rw (← e) (ground (arith, compare_from_self 0 ref)),
)

-- The loop reports every index at which the bytes differ.
compare_from_complete :
    (i j : ℕ) (ref recved : Bytes) {a b : ℕ}
    → get_elem? ref j ≡ some a
    → get_elem? recved j ≡ some b
    → a ≢ b
    → Reports (i + j) (compare_from i ref recved)
unfolding compare_from
compare_from_complete i j [] recved p q ne = cc
compare_from_complete i j (x ∷ ref) [] p q ne = cc
compare_from_complete i zero (x ∷ ref) (y ∷ recved) p q ne = ground arith
compare_from_complete i (suc j) (x ∷ ref) (y ∷ recved) p q ne =
    let shift : i + suc j ≡ suc i + j = omega arith in
    let later : Reports (suc i + j) (compare_from (suc i) ref recved) =
      compare_from_complete (suc i) j ref recved p q ne in
    rw shift (elim (Bool-cases (x == y)) [ inl e ↦ rw e later | inr e ↦ rw e (inr later) ])

-- And nothing else: `ref` and `recved` are what is left of the buffers from `i` on.
compare_from_sound :
    (whole other : Bytes) (i : ℕ) (ref recved : Bytes)
    → drop i whole ≡ ref
    → drop i other ≡ recved
    → All (IsDifference whole other) (compare_from i ref recved)
unfolding compare_from
compare_from_sound whole other i [] recved p q = tt
compare_from_sound whole other i (x ∷ ref) [] p q = tt
compare_from_sound whole other i (x ∷ ref) (y ∷ recved) p q =
    let (ex, dx) = get_elem?_of_drop whole i p in
    let (ey, dy) = get_elem?_of_drop other i q in
    let later = compare_from_sound whole other (suc i) ref recved dx dy in
    elim (Bool-cases (x == y)) [
      | inl e ↦ rw e later
      | inr e ↦ rw e ((ex, ey, ground (arith, e)), later)
    ]

reported :
    (ref recved : Bytes) (ds : List Difference) (i : ℕ)
    → All (IsDifference ref recved) ds
    → Reports i ds
    → get_elem? ref i ≢ get_elem? recved i
reported ref recved [] i h r = absurd r
reported ref recved (d ∷ ds) i h (inl e) = λ same. ground (arith, h.0, e, same)
reported ref recved (d ∷ ds) i h (inr r) = reported ref recved ds i h.1 r

-- Two packets of one size have a byte at the same places.
both :
    (ref recved : Bytes) (i : ℕ)
    → length ref ≡ length recved
    → get_elem? ref i ≢ get_elem? recved i
    → (a b : ℕ) × (get_elem? ref i ≡ some a) × (get_elem? recved i ≡ some b) × (a ≢ b)
both ref recved i same ne = elim (dec_lt i (length ref)) [
  | yes h ↦
      let (a, ea, _) = get_elem?-drop ref i h in
      let (b, eb, _) = get_elem?-drop recved i (omega arith) in
      (a, b, ea, eb, λ e. ne (ea ∙ ap some e ∙ sym eb))
  | no h ↦
      absurd (
        ne (get_elem?-eq-none ref i (omega arith) ∙ sym (get_elem?-eq-none recved i (omega arith))))
]

-- The reports on two packets of one size are exactly the places at which they differ, each with the
-- two bytes that stand there.
pub compare_bufs-Reports :
    (ref recved : Bytes)
    → length ref ≡ length recved
    → (ds : List Difference) × (compare_bufs ref recved ≡ differences ds)
      × All (IsDifference ref recved) ds
      × ((i : ℕ) → Reports i ds ↔ (get_elem? ref i ≢ get_elem? recved i))
unfolding compare_bufs
compare_bufs-Reports ref recved same =
    let sound = compare_from_sound ref recved 0 ref recved refl refl in
    (
      compare_from 0 ref recved,
      rw ((==_iff _ _).1 same) refl,
      sound,
      λ i. (
        reported ref recved (compare_from 0 ref recved) i sound,
        λ ne.
            let (a, b, p, q, d) = both ref recved i same ne in
            rw zero-add at (compare_from_complete 0 i ref recved p q d),
      ),
    )
