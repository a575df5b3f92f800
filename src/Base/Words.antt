-- ===== src/Base/Words.antt =====
-- Bytes in memory and the words that a little-endian host loads from them. `htons`, `ntohs`,
-- `htonl` and `ntohl` swap bytes there.
use Prim.Native.Nat.{ℕ, ◌+◌, ◌*◌, ◌/◌, ◌%◌, ◌^◌, ◌≤◌, ◌<◌}
use mathlib.Core.Path.{◌≡◌, refl}
use mathlib.Core.List.{List, [], ◌∷◌}
use tcp_hw.Base.Tests.{leb, le→leb, ◌==◌, if◌then◌else◌}
use mathlib.Core.Bool.{Bool, true, false, ◌&&◌}
use mathlib.Core.Logic.{◌↔◌}
use mathlib.Core.Option.{Option, some, none}
use native.Mathlib.Omega.{arith}
use tcp_hw.Base.Fault.{◌>>=◌}
use tcp_hw.Base.Lists.{take, drop, get_elem?, length, length-take, length-drop, get_elem?-drop}

abbrev pub IsByte : ℕ → Type 0
IsByte b = b < 256

abbrev pub IsU16 : ℕ → Type 0
IsU16 w = w < 65536

abbrev pub IsU32 : ℕ → Type 0
IsU32 w = w < 2 ^ 32

-- A packet, a file or a struct in memory.
abbrev pub Bytes : Type 0
Bytes = List ℕ

abbrev pub u8 : ℕ → ℕ
u8 x = x % 256

abbrev pub u16 : ℕ → ℕ
u16 x = x % 65536

abbrev pub u32 : ℕ → ℕ
u32 x = x % 2 ^ 32

-- The words at the front of `bs`, as a little-endian host loads them.
abbrev pub word16 : ℕ → ℕ → ℕ
word16 a b = a + 256 * b

abbrev pub word32 : ℕ → ℕ → ℕ → ℕ → ℕ
word32 a b c d = a + 256 * b + 65536 * c + 2 ^ 24 * d

unfoldable pub load8 : Bytes → ℕ → Option ℕ
load8 = get_elem?

unfoldable pub load16 : Bytes → ℕ → Option ℕ
load16 bs off = do a ← load8 bs off; b ← load8 bs (off + 1); some (word16 a b)

unfoldable pub load32 : Bytes → ℕ → Option ℕ
load32 bs off = do
  a ← load8 bs off
  b ← load8 bs (off + 1)
  c ← load8 bs (off + 2)
  d ← load8 bs (off + 3)
  some (word32 a b c d)

-- The bytes of a word, in the order in which such a host stores them.
abbrev pub bytes16 : ℕ → Bytes
bytes16 x = x % 256 ∷ x / 256 % 256 ∷ []

abbrev pub bytes32 : ℕ → Bytes
bytes32 x = x % 256 ∷ x / 256 % 256 ∷ x / 65536 % 256 ∷ x / 2 ^ 24 % 256 ∷ []

unfoldable pub htons : ℕ → ℕ
htons x = x % 256 * 256 + x / 256 % 256

unfoldable pub htonl : ℕ → ℕ
htonl x = x % 256 * 2 ^ 24 + x / 256 % 256 * 65536 + x / 65536 % 256 * 256 + x / 2 ^ 24 % 256

pub htons-htons : (x : ℕ) → htons (htons x) ≡ x % 65536
unfolding htons
htons-htons x = omega arith

pub htonl-htonl : (x : ℕ) → htonl (htonl x) ≡ x % 2 ^ 32
unfolding htonl
htonl-htonl x = omega arith

pub htons-lt : (x : ℕ) → htons x < 65536
unfolding htons
htons-lt x = omega arith

pub htonl-lt : (x : ℕ) → htonl x < 2 ^ 32
unfolding htonl
htonl-lt x = omega arith

-- A word that is stored and loaded again.
pub word32-bytes32 :
    (x : ℕ)
    → word32 (u32 x % 256) (u32 x / 256 % 256) (u32 x / 65536 % 256) (u32 x / 2 ^ 24 % 256) ≡ u32 x
word32-bytes32 x = omega arith

-- A load inside the buffer has a value.
pub load8-some : (bs : Bytes) (off : ℕ) → off < length bs → (x : ℕ) × (load8 bs off ≡ some x)
unfolding load8
load8-some bs off h = let (x, e, _) = get_elem?-drop bs off h in (x, e)

pub load16-some : (bs : Bytes) (off : ℕ) → off + 1 < length bs → (x : ℕ) × (load16 bs off ≡ some x)
unfolding load16
load16-some bs off h =
    let (a, ea) = load8-some bs off (omega arith) in
    let (b, eb) = load8-some bs (off + 1) h in (word16 a b, rw (ea, eb))

pub load32-some : (bs : Bytes) (off : ℕ) → off + 3 < length bs → (x : ℕ) × (load32 bs off ≡ some x)
unfolding load32
load32-some bs off h =
    let (a, ea) = load8-some bs off (omega arith) in
    let (b, eb) = load8-some bs (off + 1) (omega arith) in
    let (c, ec) = load8-some bs (off + 2) (omega arith) in
    let (d, ed) = load8-some bs (off + 3) h in (word32 a b c d, rw (ea, eb, ec, ed))

-- `memcpy` of `n` bytes from an offset, and `memcmp(…) == 0` of two fields.
unfoldable pub memcpy : Bytes → ℕ → ℕ → Option Bytes
memcpy bs off n = if leb (off + n) (length bs) then some (take n (drop off bs)) else none

-- A copy inside the buffer.
pub memcpy-some :
    (bs : Bytes) (off n : ℕ)
    → off + n ≤ length bs
    → (memcpy bs off n ≡ some (take n (drop off bs))) × (length (take n (drop off bs)) ≡ n)
unfolding memcpy
memcpy-some bs off n h = (
  rw (le→leb (off + n) (length bs) h) refl,
  omega (arith, length-take n (drop off bs), length-drop off bs),
)

unfoldable pub same_bytes : Bytes → Bytes → Bool
same_bytes [] [] = true
same_bytes [] (b ∷ bs) = false
same_bytes (a ∷ more) [] = false
same_bytes (a ∷ more) (b ∷ bs) = a == b && same_bytes more bs

pub same_bytes_iff : (xs ys : Bytes) → (same_bytes xs ys ≡ true) ↔ (xs ≡ ys)
unfolding same_bytes
same_bytes_iff [] [] = ((λ _. refl), λ _. refl)
same_bytes_iff [] (b ∷ bs) = ground arith
same_bytes_iff (a ∷ more) [] = ground arith
same_bytes_iff (a ∷ more) (b ∷ bs) = ground (arith, same_bytes_iff more bs)
