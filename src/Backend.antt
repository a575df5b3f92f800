-- ===== src/Backend.antt =====
-- sim_dpi/dpi_testing_lib.hpp: the abstract class `DPITestingLib`, over a type of states. `none` is
-- a fault of the backend.
use tcp_hw.Base.{ℕ, ◌≡◌, Option, some, List, [], ◌∷◌, ◌++◌, Bytes}

pub record DpiTestingLib (S : Type 0) : Type 0 where
  pub get_buf_fr_io : S → Option (Bytes × S)
  pub put_buf_on_io : Bytes → S → Option (ℕ × S)

-- A call that returns nothing hands out no packet.
abbrev pub kept : Bytes → List Bytes → List Bytes
kept [] outs = outs
kept (b ∷ bs) outs = (b ∷ bs) ∷ outs

module _ {S : Type 0} (backend : DpiTestingLib S) where
  -- Calls of `get_buf_fr_io` in turn: the packets that they hand out, and the state that they
  -- leave.
  pub data Yields : S → List Bytes → S → Type 0 where
    rests : {s : S} → Yields s [] s
    gives :
        {s s' s'' : S} {pkt : Bytes} {pkts : List Bytes}
        → backend.get_buf_fr_io s ≡ some (pkt, s')
        → Yields s' pkts s''
        → Yields s (kept pkt pkts) s''

  -- Packets that `put_buf_on_io` takes in turn.
  pub data Accepts : S → List Bytes → S → Type 0 where
    stays : {s : S} → Accepts s [] s
    takes :
        {s s' s'' : S} {pkt : Bytes} {pkts : List Bytes} {size : ℕ}
        → backend.put_buf_on_io pkt s ≡ some (size, s')
        → Accepts s' pkts s''
        → Accepts s (pkt ∷ pkts) s''

  pub Yields-append :
      {s s' s'' : S} {ps qs : List Bytes}
      → Yields s ps s'
      → Yields s' qs s''
      → Yields s (ps ++ qs) s''
  Yields-append rests y = y
  Yields-append {qs = qs} (gives {pkt = []} e x) y = gives e (Yields-append x y)
  Yields-append {qs = qs} (gives {pkt = b ∷ bs} e x) y = gives e (Yields-append x y)
