-- ===== src/RawSocket/Name.antt =====
-- The name of the interface in `get_netif_index`.
use tcp_hw.Base.{
  ne→==_false, le→ltb, ℕ, ◌+◌, ◌≤◌, ◌<◌, ◌≡◌, ◌≢◌, ◌⊎◌, inl, inr, refl, ap, arith, [], ◌∷◌, ◌++◌,
  Bytes, All, length, length-append, length-drop, drop, lt→ltb, ◌==◌, if◌then◌else◌,
}
use tcp_hw.Process.{exit}
use tcp_hw.RawSocket.{Kernel, ifr_name, ifnamsiz, or_exit, get_netif_index}
use native.Mathlib.Decide.{dec_le}

-- The bytes up to the first zero.
abbrev pub c_string : Bytes → Bytes
c_string [] = []
c_string (c ∷ cs) = let rest = c_string cs in if c == 0 then [] else c ∷ rest

c_string-append :
    (name rest : Bytes) → All (λ (c : ℕ). c ≢ 0) name → c_string (name ++ (0 ∷ rest)) ≡ name
c_string-append [] rest h = refl
c_string-append (c ∷ name) rest (ne, h) =
    rw (ne→==_false c 0 ne) (ap (λ t. c ∷ t) (c_string-append name rest h))

-- For a name that holds no zero byte: either it has at most 15 bytes, and the operating system is
-- asked, exactly once, with an `ifr_name` of 16 bytes that reads as the name, whatever the stack
-- held; its answer is returned, or the process exits with 1 if there is none. Or the process exits
-- with 1 and nothing is written.
pub get_netif_index_lem :
    {W : Type 0} (kernel : Kernel W) (stale if_name : Bytes) (sock : ℕ) (w : W)
    → length stale ≡ ifnamsiz
    → All (λ (c : ℕ). c ≢ 0) if_name
    → ((length (ifr_name stale if_name) ≡ ifnamsiz)
        × (c_string (ifr_name stale if_name) ≡ if_name)
        × (get_netif_index kernel stale sock if_name w
            ≡ or_exit 1 (kernel.if_index sock (ifr_name stale if_name) w)))
      ⊎ ((ifnamsiz ≤ length if_name) × (get_netif_index kernel stale sock if_name w ≡ exit 1))
unfolding get_netif_index ifr_name
get_netif_index_lem kernel stale if_name sock w full no_zero =
    elim (dec_le ifnamsiz (length if_name)) [
      | yes h ↦ inr (h, rw (le→ltb (length if_name) ifnamsiz h) refl)
      | no h ↦
          let short : length if_name < ifnamsiz = omega arith in
          inl (
            omega (
              arith,
              length-append if_name (0 ∷ drop (length if_name + 1) stale),
              length-drop (length if_name + 1) stale,
            ),
            c_string-append if_name (drop (length if_name + 1) stale) no_zero,
            rw (lt→ltb (length if_name) ifnamsiz short) refl,
          )
    ]
