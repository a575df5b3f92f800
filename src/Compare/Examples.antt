-- ===== src/Compare/Examples.antt =====
-- The verdict on two packets of three bytes.
use tcp_hw.Base.{ℕ, some, arith, ◌≡◌, ◌≢◌, ◌↔◌, refl, List, [], ◌∷◌, Bytes, All, get_elem?}
use tcp_hw.Compare.{Difference, differences, compare_bufs}
use tcp_hw.Compare.Loop.{compare_by_index, compare_by_index_lem}
use tcp_hw.Compare.Reports.{IsDifference, Reports, compare_bufs-Reports}

abbrev ref : Bytes
ref = 1 ∷ 2 ∷ 3 ∷ []

abbrev recved : Bytes
recved = 1 ∷ 5 ∷ 6 ∷ []

compare_bufs_example :
    (ds : List Difference) × (compare_bufs ref recved ≡ differences ds)
    × All (IsDifference ref recved) ds
    × ((i : ℕ) → Reports i ds ↔ (get_elem? ref i ≢ get_elem? recved i))
compare_bufs_example = compare_bufs-Reports ref recved refl

compare_by_index_example : compare_by_index 3 ref recved ≡ some (compare_bufs ref recved)
compare_by_index_example = compare_by_index_lem ref recved (omega arith)
