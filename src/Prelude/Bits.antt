-- ===== src/Prelude/Bits.antt =====
-- Laws of the bit operations at variables: exclusive or cancels and commutes, all three stay below
-- a power of two, and `|` of disjoint fields is a sum.
use native.Mathlib.Nat.{pow-suc, add-zero, add-suc}
use Prim.Native.Nat.{ℕ, zero, suc, ◌+◌, ◌*◌, ◌/◌, ◌%◌, ◌^◌, ◌≤◌, ◌<◌, bit_and, bit_or, bit_xor}
use mathlib.Core.Path.{◌≡◌, refl, ap}
use native.Mathlib.Omega.{arith}
use drew.Prelude.Digits.{bit_and_low, bit_or_low, bit_xor_low}

xor_cancel_fuel : (n a b : ℕ) → a ≤ n → b ≤ n → bit_xor (bit_xor a b) b ≡ a
xor_cancel_fuel zero zero zero p q = refl
xor_cancel_fuel zero zero (suc b) p q = absurd (omega arith)
xor_cancel_fuel zero (suc a) b p q = absurd (omega arith)
xor_cancel_fuel (suc n) a b p q = ground (
  arith,
  bit_xor_low a b,
  bit_xor_low (bit_xor a b) b,
  xor_cancel_fuel n (a / 2) (b / 2) (omega arith) (omega arith),
)

-- Adding a mask twice restores the number.
pub xor_cancel : (a b : ℕ) → bit_xor (bit_xor a b) b ≡ a
xor_cancel a b = xor_cancel_fuel (a + b) a b (omega arith) (omega arith)

xor_comm_fuel : (n a b : ℕ) → a ≤ n → b ≤ n → bit_xor a b ≡ bit_xor b a
xor_comm_fuel zero zero zero p q = refl
xor_comm_fuel zero zero (suc b) p q = absurd (omega arith)
xor_comm_fuel zero (suc a) b p q = absurd (omega arith)
xor_comm_fuel (suc n) a b p q = ground (
  arith,
  bit_xor_low a b,
  bit_xor_low b a,
  xor_comm_fuel n (a / 2) (b / 2) (omega arith) (omega arith),
)

pub xor_comm : (a b : ℕ) → bit_xor a b ≡ bit_xor b a
xor_comm a b = xor_comm_fuel (a + b) a b (omega arith) (omega arith)

pub xor_cancel_left : (a b : ℕ) → bit_xor a (bit_xor a b) ≡ b
xor_cancel_left a b = ground (arith, xor_comm a b, xor_comm a (bit_xor b a), xor_cancel b a)

pub xor-lt : (k a b : ℕ) → a < 2 ^ k → b < 2 ^ k → bit_xor a b < 2 ^ k
xor-lt zero zero zero p q = omega arith
xor-lt zero zero (suc b) p q = absurd (omega arith)
xor-lt zero (suc a) b p q = absurd (omega arith)
xor-lt (suc k) a b p q =
    let e = pow-suc 2 k in
    omega (arith, bit_xor_low a b, xor-lt k (a / 2) (b / 2) (omega arith) (omega arith))

or_comm_fuel : (n a b : ℕ) → a ≤ n → b ≤ n → bit_or a b ≡ bit_or b a
or_comm_fuel zero zero zero p q = refl
or_comm_fuel zero zero (suc b) p q = absurd (omega arith)
or_comm_fuel zero (suc a) b p q = absurd (omega arith)
or_comm_fuel (suc n) a b p q = ground (
  arith,
  bit_or_low a b,
  bit_or_low b a,
  or_comm_fuel n (a / 2) (b / 2) (omega arith) (omega arith),
)

pub or_comm : (a b : ℕ) → bit_or a b ≡ bit_or b a
or_comm a b = or_comm_fuel (a + b) a b (omega arith) (omega arith)

or-zero_fuel : (n a : ℕ) → a ≤ n → bit_or a 0 ≡ a
or-zero_fuel n zero p = refl
or-zero_fuel zero (suc a) p = absurd (omega arith)
or-zero_fuel (suc n) (suc a) p =
    omega (arith, bit_or_low (suc a) 0, or-zero_fuel n (suc a / 2) (omega arith))

scale-suc : (q k : ℕ) → q * 2 ^ suc k ≡ 2 * (q * 2 ^ k)
scale-suc q k = omega (arith, ap (λ (t : ℕ). q * t) (pow-suc 2 k))

-- `(q << k) | r` is a sum when `r` has `k` bits at most.
pub or-fields : (k q r : ℕ) → r < 2 ^ k → bit_or (q * 2 ^ k) r ≡ q * 2 ^ k + r
or-fields zero q zero p = ground (arith, or-zero_fuel q q)
or-fields zero q (suc r) p = absurd (omega arith)
or-fields (suc k) q r p =
    ground (arith, bit_or_low (q * 2 ^ suc k) r, scale-suc q k, pow-suc 2 k, or-fields k q (r / 2))

pub or-lt : (k a b : ℕ) → a < 2 ^ k → b < 2 ^ k → bit_or a b < 2 ^ k
or-lt zero zero zero p q = omega arith
or-lt zero zero (suc b) p q = absurd (omega arith)
or-lt zero (suc a) b p q = absurd (omega arith)
or-lt (suc k) a b p q =
    let e = pow-suc 2 k in
    omega (arith, bit_or_low a b, or-lt k (a / 2) (b / 2) (omega arith) (omega arith))

and_zero_fuel : (m c : ℕ) → c ≤ m → bit_and c 0 ≡ 0
and_zero_fuel zero zero h = refl
and_zero_fuel zero (suc c) h = absurd (omega arith)
and_zero_fuel (suc m) zero h = refl
and_zero_fuel (suc m) (suc c) h =
    omega (arith, bit_and_low (suc c) 0, and_zero_fuel m (suc c / 2) (omega arith))

-- The mask of the four lowest bits.
pub and_15 : (n : ℕ) → bit_and n 15 ≡ n % 16
and_15 n = omega (
  arith,
  bit_and_low n 15,
  bit_and_low (n / 2) 7,
  bit_and_low (n / 2 / 2) 3,
  bit_and_low (n / 2 / 2 / 2) 1,
  and_zero_fuel (n / 2 / 2 / 2 / 2) (n / 2 / 2 / 2 / 2) (omega arith),
)

pub and-lt : (k a b : ℕ) → b < 2 ^ k → bit_and a b < 2 ^ k
and-lt zero a (suc b) p = absurd (omega arith)
and-lt zero a zero p = omega (arith, and_zero_fuel a a (omega arith))
and-lt (suc k) a b p =
    let e = pow-suc 2 k in omega (arith, bit_and_low a b, and-lt k (a / 2) (b / 2) (omega arith))

pub pow-add : (m n : ℕ) → 2 ^ (m + n) ≡ 2 ^ m * 2 ^ n
pow-add m zero = omega (arith, ap (λ (t : ℕ). 2 ^ t) (add-zero m))
pow-add m (suc n) = omega (
  arith,
  ap (λ (t : ℕ). 2 ^ t) (add-suc m n),
  pow-suc 2 (m + n),
  pow-suc 2 n,
  pow-add m n,
  ap (λ (t : ℕ). 2 ^ m * t) (pow-suc 2 n),
)

xor_right_comm_fuel :
    (n a b c : ℕ) → a ≤ n → b ≤ n → c ≤ n → bit_xor (bit_xor a b) c ≡ bit_xor (bit_xor a c) b
xor_right_comm_fuel zero zero zero zero p q r = refl
xor_right_comm_fuel zero zero zero (suc c) p q r = absurd (omega arith)
xor_right_comm_fuel zero zero (suc b) c p q r = absurd (omega arith)
xor_right_comm_fuel zero (suc a) b c p q r = absurd (omega arith)
xor_right_comm_fuel (suc n) a b c p q r = ground (
  arith,
  bit_xor_low a b,
  bit_xor_low a c,
  bit_xor_low (bit_xor a b) c,
  bit_xor_low (bit_xor a c) b,
  xor_right_comm_fuel n (a / 2) (b / 2) (c / 2) (omega arith) (omega arith) (omega arith),
)

-- Two masks may be added in either order.
pub xor_right_comm : (a b c : ℕ) → bit_xor (bit_xor a b) c ≡ bit_xor (bit_xor a c) b
xor_right_comm a b c =
    xor_right_comm_fuel (a + b + c) a b c (omega arith) (omega arith) (omega arith)
