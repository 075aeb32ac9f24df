-- ===== src/Kdf/Prf.antt =====
-- include/drew/kdf.h: what `pbkdf_generate` calls of the pseudorandom function that it is given, and the
-- contract of these calls.
use drew.Prelude.{ℕ, Option, ◌<◌, ◌≡◌, List, length}
use drew.Mode.Status.{Status}

-- The operations on a context of type `S`: `reset`, `setkey` and `generate`, whose result has the bytes
-- written, and what `info` returns for `DREW_KDF_SIZE`: the size, or a negated error code.
pub record Prf (S : Type 0) : Type 0 where
  pub reset : S → S
  pub set_key : List ℕ → S → S
  pub generate : ℕ → List ℕ → S → Status × List ℕ × S
  pub size : ℕ
  pub info_error : Option ℕ

-- The operations compute the function `f` of a key and a message for the keys `IsKey` and messages shorter
-- than `limit`: a context that has been given a key answers, after each `reset`, for that key.
pub record IsPrf {S : Type 0} (p : Prf S) (limit : ℕ) (IsKey : List ℕ → Type 0)
    (f : List ℕ → List ℕ → List ℕ) : Type 1 where
  pub IsReady : S → Type 0
  pub IsKeyed : List ℕ → S → Type 0
  pub size_some : 0 < p.size
  pub size_short : p.size < limit
  pub reset-IsReady : (s : S) → IsReady s → IsReady (p.reset s)
  pub set_key-IsKeyed :
      (key : List ℕ) (s : S) → IsKey key → IsReady s → IsKeyed key (p.set_key key s)
  pub generate_lem :
      (key msg : List ℕ) (s : S)
      → IsKey key
      → IsKeyed key s
      → length msg < limit
      → (p.generate p.size msg (p.reset s)).1 ≡ f key msg
  pub generate-IsKeyed :
      (key msg : List ℕ) (s : S)
      → IsKey key
      → IsKeyed key s
      → length msg < limit
      → IsKeyed key (p.generate p.size msg (p.reset s)).2
  pub length-f : (key msg : List ℕ) → IsKey key → length msg < limit → length (f key msg) ≡ p.size
