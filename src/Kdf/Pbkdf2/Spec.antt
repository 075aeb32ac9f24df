-- ===== src/Kdf/Pbkdf2/Spec.antt =====
-- PBKDF2 as RFC 2898 defines it, over a function of a message: the password is already in it. The index of
-- a piece is written modulo 2^32; the RFC
-- allows less than 2^32 pieces.
use drew.Prelude.{ℕ, zero, suc, ◌+◌, ◌-◌, List, [], ◌++◌}
use drew.Util.Endian.{big, store}
use drew.Util.Keystream.{xor_bytes}

module _ (f : List ℕ → List ℕ) where
  -- `U_(n+1)` and `U_1 xor … xor U_(n+1)`, from `U_1`.
  unfoldable pub nth : ℕ → List ℕ → List ℕ
  nth zero u = u
  nth (suc n) u = f (nth n u)

  unfoldable pub sum : ℕ → List ℕ → List ℕ
  sum zero u = u
  sum (suc n) u = xor_bytes (sum n u) (nth (suc n) u)

  -- `F (P, S, c, i + 1)`
  unfoldable pub piece : List ℕ → ℕ → ℕ → List ℕ
  piece salt count i = sum (count - 1) (f (salt ++ store big 4 (i + 1)))

  -- The pieces from `i`, `n` of them.
  unfoldable pub pieces : List ℕ → ℕ → ℕ → ℕ → List ℕ
  pieces salt count zero i = []
  pieces salt count (suc n) i = piece salt count i ++ pieces salt count n (i + 1)
