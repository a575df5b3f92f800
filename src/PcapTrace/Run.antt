-- ===== src/PcapTrace/Run.antt =====
-- A run of the backend: any order of calls, up to the one that ends the simulation.
use tcp_hw.Base.{
  ℕ, zero, suc, ◌≡◌, refl, arith, true, false, Option, none, some, List, [], ◌∷◌, ◌++◌, Bytes,
  length, drop, drop-all, ==_iff, ◌>>=◌,
}
use tcp_hw.Compare.{Verdict, compare_bufs, finishes}
use tcp_hw.PcapTrace.{PcapTrace, get_buf_fr_io, put_buf_on_io}

-- A call by the network side.
pub data Event : Type 0 where
  get : Event
  put : Bytes → Event

abbrev note_verdict : Option Verdict → List Verdict → List Verdict
note_verdict none vs = vs
note_verdict (some v) vs = v ∷ vs

-- The calls in turn: what the `get`s return, the verdicts, and the state.
unfoldable pub run : List Event → PcapTrace → Option (List Bytes × List Verdict × PcapTrace)
run [] t = some ([], [], t)
run (get ∷ es) t = do
  (pkt, t') ← get_buf_fr_io t
  (outs, vs, t'') ← run es t'
  some (pkt ∷ outs, vs, t'')
run (put pkt ∷ es) t = do
  (v, t', bytes) ← put_buf_on_io pkt t
  (outs, vs, t'') ← run es t'
  some (outs, note_verdict v vs, t'')

abbrev pub gets : List Event → ℕ
gets [] = 0
gets (get ∷ es) = suc (gets es)
gets (put p ∷ es) = gets es

abbrev pub puts : List Event → List Bytes
puts [] = []
puts (get ∷ es) = puts es
puts (put p ∷ es) = p ∷ puts es

-- The packets in turn, and then nothing.
abbrev pub in_turn : ℕ → List Bytes → List Bytes
in_turn zero pkts = []
in_turn (suc n) [] = [] ∷ in_turn n []
in_turn (suc n) (p ∷ pkts) = p ∷ in_turn n pkts

abbrev pub verdicts : List Bytes → List Bytes → List Verdict
verdicts [] ps = []
verdicts (r ∷ refs) [] = []
verdicts (r ∷ refs) (p ∷ ps) = compare_bufs r p ∷ verdicts refs ps

-- As many packets as there are references, each of the size of its reference.
pub data SameSizes : List Bytes → List Bytes → Type 0 where
  empty : SameSizes [] []
  pair :
      {ref p : Bytes} {refs ps : List Bytes}
      → length ref ≡ length p
      → SameSizes refs ps
      → SameSizes (ref ∷ refs) (p ∷ ps)

goes_on : (ref p : Bytes) → length ref ≡ length p → finishes (compare_bufs ref p) ≡ false
unfolding compare_bufs finishes
goes_on ref p same = rw ((==_iff (length ref) (length p)).1 same) refl

-- A packet that is not the last expected one.
put_next :
    (ref next p : Bytes) (refs sends : List Bytes)
    → length ref ≡ length p
    → put_buf_on_io p (record { send_pkts = sends; recv_pkts = ref ∷ next ∷ refs; deleted = false })
      ≡ some (
        some (compare_bufs ref p),
        record { send_pkts = sends; recv_pkts = next ∷ refs; deleted = false },
        length p,
      )
unfolding put_buf_on_io
put_next ref next p refs sends same = rw (goes_on ref p same) refl

put_last :
    (ref p : Bytes) (sends : List Bytes)
    → length ref ≡ length p
    → put_buf_on_io p (record { send_pkts = sends; recv_pkts = ref ∷ []; deleted = false })
      ≡ some (
        some (compare_bufs ref p),
        record { send_pkts = sends; recv_pkts = []; deleted = true },
        length p,
      )
unfolding put_buf_on_io
put_last ref p sends same = rw (goes_on ref p same) refl

too_many : (ps : List Bytes) (last : Bytes) → SameSizes [] (ps ++ (last ∷ [])) → ⊥
too_many [] last s = elim s [ ]
too_many (p ∷ ps) last s = elim s [ ]

drop-nil : (n : ℕ) (none_sent : List Bytes) → none_sent ≡ [] → drop n none_sent ≡ []
drop-nil n none_sent e = rw e (drop-all n [] (omega arith))

run_steps :
    (es : List Event) (last : Bytes) (sends refs : List Bytes)
    → SameSizes refs (puts es ++ (last ∷ []))
    → run (es ++ (put last ∷ [])) (record { send_pkts = sends; recv_pkts = refs; deleted = false })
      ≡ some (
        in_turn (gets es) sends,
        verdicts refs (puts es ++ (last ∷ [])),
        record { send_pkts = drop (gets es) sends; recv_pkts = []; deleted = true },
      )
unfolding run get_buf_fr_io
run_steps [] last sends [] s = elim s [ ]
run_steps [] last sends (ref ∷ []) (pair same s) = rw (put_last ref last sends same) refl
run_steps [] last sends (ref ∷ next ∷ refs) (pair same s) = elim s [ ]
run_steps (get ∷ es) last [] refs s =
    rw (run_steps es last [] refs s, drop-nil (gets es) [] refl) refl
run_steps (get ∷ es) last (p ∷ sends) refs s = rw (run_steps es last sends refs s) refl
run_steps (put q ∷ es) last sends [] s = elim s [ ]
run_steps (put q ∷ es) last sends (ref ∷ []) (pair same s) = absurd (too_many (puts es) last s)
run_steps (put q ∷ es) last sends (ref ∷ next ∷ refs) (pair same s) =
    rw (put_next ref next q refs sends same, run_steps es last sends (next ∷ refs) s) refl

-- Let the hardware send as many packets as the backend expects, each of the size of the expected
-- one, and let it ask for packets at any time before the last. Then no call faults. The packets for
-- the hardware are handed out in turn, then nothing; the packets from the hardware are compared
-- with the expected ones in turn. The last of them, and no earlier one, ends the simulation, so
-- that every later call faults.
pub run_ends :
    (es : List Event) (last : Bytes) (t : PcapTrace)
    → t.deleted ≡ false
    → SameSizes t.recv_pkts (puts es ++ (last ∷ []))
    → (t' : PcapTrace) × (run (es ++ (put last ∷ [])) t
        ≡ some (in_turn (gets es) t.send_pkts, verdicts t.recv_pkts (puts es ++ (last ∷ [])), t'))
      × (t'.recv_pkts ≡ [])
      × (t'.send_pkts ≡ drop (gets es) t.send_pkts)
      × (get_buf_fr_io t' ≡ none)
      × ((pkt : Bytes) → put_buf_on_io pkt t' ≡ none)
unfolding get_buf_fr_io put_buf_on_io
run_ends es last t alive s = (
  record { send_pkts = drop (gets es) t.send_pkts; recv_pkts = []; deleted = true },
  rw alive (run_steps es last t.send_pkts t.recv_pkts s),
  refl,
  refl,
  refl,
  λ pkt. refl,
)
