-- ===== src/Util/Endian.antt =====
-- The byte order helpers of include/util.hh. The host is little-endian, as on the platforms for
-- which the code has fast paths: `Copy` to the other order turns each word round.
pub mod Laws
pub mod Arrays
use mathlib.Core.List.{reverse}
use drew.Prelude.{
  ℕ, zero, suc, ◌+◌, ◌*◌, ◌/◌, ◌%◌, ◌^◌, ◌<◌, ◌≡◌, List, [], ◌∷◌, ◌++◌, length, take, drop,
}

-- `DREW_LITTLE_ENDIAN` and `DREW_BIG_ENDIAN`, the parameter of `Endian`.
pub data Endianness : Type 0 where
  little big : Endianness

-- A word of `k` bytes in memory on the host, the lowest byte first: what `memcpy` reads and writes.
unfoldable pub host_load : ℕ → List ℕ → ℕ
host_load zero bs = 0
host_load (suc k) [] = 0
host_load (suc k) (b ∷ bs) = b + 256 * host_load k bs

unfoldable pub host_store : ℕ → ℕ → List ℕ
host_store zero x = []
host_store (suc k) x = x % 256 ∷ host_store k (x / 256)

-- `Endian<E>::Convert`: read a word of `k` bytes, and write one.
unfoldable pub load : Endianness → ℕ → List ℕ → ℕ
load little k bs = host_load k (take k bs)
load big k bs = host_load k (reverse (take k bs))

unfoldable pub store : Endianness → ℕ → ℕ → List ℕ
store little k x = host_store k x
store big k x = reverse (host_store k x)

-- `Endian<E>::Copy` between bytes and an array of `n` words of `k` bytes.
unfoldable pub copy_in : Endianness → ℕ → ℕ → List ℕ → List ℕ
copy_in e k zero bs = []
copy_in e k (suc n) bs = load e k bs ∷ copy_in e k n (drop k bs)

unfoldable pub copy_out : Endianness → ℕ → List ℕ → List ℕ
copy_out e k [] = []
copy_out e k (w ∷ ws) = store e k w ++ copy_out e k ws

-- Every element is below `m`: bytes for `m = 256`, words of `w` bits for `m = 2 ^ w`.
abbrev pub AllBelow : ℕ → List ℕ → Type 0
AllBelow m [] = Unit
AllBelow m (x ∷ xs) = (x < m) × AllBelow m xs

-- A block of `n` bytes, and an array of `n` words of `k` bytes.
pub record IsBlock (n : ℕ) (bs : List ℕ) : Type 0 where
  pub size : length bs ≡ n
  pub below : AllBelow 256 bs

pub record IsWords (k n : ℕ) (ws : List ℕ) : Type 0 where
  pub size : length ws ≡ n
  pub below : AllBelow (256 ^ k) ws
