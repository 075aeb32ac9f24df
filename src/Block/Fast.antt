-- ===== src/Block/Fast.antt =====
-- `EncryptFast` and `DecryptFast` of impl/block/blockcipher.hh: several blocks in one call. The output
-- array may be the input, since each block is read before it is written.
mod Tests
use drew.Prelude.{
  ℕ, zero, suc, ◌+◌, ◌*◌, ◌/◌, ◌%◌, ◌≡◌, ◌≢◌, ◌⊎◌, inl, inr, refl, sym, ap, ap₂, length-append, ◌∙◌,
  List, [], ◌∷◌, ◌++◌, length, take, drop, ◌==◌, if◌then◌else◌, length-drop, length-take,
  take-append-drop, arith,
}
use native.Mathlib.Nat.{suc-mul}
use mathlib.Core.List.{append_assoc}
use drew.Util.Endian.{AllBelow, IsBlock}
use drew.Util.Endian.Laws.{take-append_self, drop-append_self, AllBelow-take, AllBelow-drop}
use drew.Block.Interface.{BlockCipher}

-- `n` bytes at a time, `k` times.
unfoldable pub many : (List ℕ → List ℕ) → ℕ → ℕ → List ℕ → List ℕ
many f n zero bs = []
many f n (suc k) bs = f (take n bs) ++ many f n k (drop n bs)

-- Blocks of 8 bytes are taken in pairs.
unfoldable pub rounds : ℕ → ℕ → ℕ
rounds block_size n = if block_size == 8 then n / 2 * 2 else n

unfoldable pub encrypt_fast : BlockCipher → ℕ → List ℕ → List ℕ
encrypt_fast e n = many e.encrypt e.block_size (rounds e.block_size n)

unfoldable pub decrypt_fast : BlockCipher → ℕ → List ℕ → List ℕ
decrypt_fast e n = many e.decrypt e.block_size (rounds e.block_size n)

length-many :
    (e : BlockCipher) (k : ℕ) (bs : List ℕ)
    → length (many e.encrypt e.block_size k bs) ≡ k * e.block_size
unfolding many
length-many e zero bs = omega arith
length-many e (suc k) bs = omega (
  arith,
  suc-mul k e.block_size,
  length-append (e.encrypt (take e.block_size bs))
      (many e.encrypt e.block_size k (drop e.block_size bs)),
  e.length-encrypt (take e.block_size bs),
  length-many e k (drop e.block_size bs),
)

-- A cipher block by block, undone block by block.
many_undo :
    (e : BlockCipher) (k : ℕ) (bs : List ℕ)
    → length bs ≡ k * e.block_size
    → AllBelow 256 bs
    → many e.decrypt e.block_size k (many e.encrypt e.block_size k bs) ≡ bs
unfolding many
many_undo e zero [] h b = refl
many_undo e zero (x ∷ xs) h b =
    let none : 0 * e.block_size ≡ 0 = omega arith in absurd (omega arith)
many_undo e (suc k) bs h b =
    let n = e.block_size in
    let step : suc k * n ≡ k * n + n = suc-mul k n in
    let first : IsBlock n (take n bs) = record {
      size = omega (arith, length-take n bs);
      below = AllBelow-take 256 n bs b;
    } in
    let rest = many e.encrypt n k (drop n bs) in
    let size = e.length-encrypt (take n bs) in
    ap₂ (λ x y. e.decrypt x ++ many e.decrypt n k y)
      (take-append_self n (e.encrypt (take n bs)) rest size)
      (drop-append_self n (e.encrypt (take n bs)) rest size)
    ∙ ap₂ (λ x y. x ++ y) (e.decrypt-encrypt (take n bs) first)
        (many_undo e k (drop n bs) (omega (arith, length-drop n bs)) (AllBelow-drop 256 n bs b))
    ∙ take-append-drop n bs

-- The blocks that `n` stands for: all, unless they have 8 bytes. Those are taken in pairs, and an odd last one
-- is left out.
pub data Taken (block_size n k : ℕ) : Type 0 where
  each : block_size ≢ 8 → n ≡ k → Taken block_size n k
  even : block_size ≡ 8 → (pairs : ℕ) → k ≡ pairs * 2 → n ≡ k → Taken block_size n k
  odd : block_size ≡ 8 → (pairs : ℕ) → k ≡ pairs * 2 → n ≡ k + 1 → Taken block_size n k

Taken-rounds : (block_size n k : ℕ) → Taken block_size n k → rounds block_size n ≡ k
unfolding rounds
Taken-rounds block_size n k (each other same) = ground arith
Taken-rounds block_size n k (even eight pairs half same) =
    let all : n / 2 * 2 ≡ k = omega arith in ground arith
Taken-rounds block_size n k (odd eight pairs half more) =
    let all : n / 2 * 2 ≡ k = omega arith in ground arith

-- The first `k` blocks of what `EncryptFast` and `DecryptFast` are given are what they look at.
many-append :
    (f : List ℕ → List ℕ) (n k : ℕ) (bs rest : List ℕ)
    → length bs ≡ k * n
    → many f n k (bs ++ rest) ≡ many f n k bs
unfolding many
many-append f n zero bs rest h = refl
many-append f n (suc k) bs rest h =
    let step = suc-mul k n in
    let first = length-take n bs in
    let split : bs ++ rest ≡ take n bs ++ (drop n bs ++ rest) =
      ap (λ t. t ++ rest) (sym (take-append-drop n bs))
      ∙ append_assoc (take n bs) (drop n bs) rest in
    ap₂ (λ x y. f x ++ many f n k y)
      (ap (take n) split ∙ take-append_self n (take n bs) (drop n bs ++ rest) (omega arith))
      (ap (drop n) split ∙ drop-append_self n (take n bs) (drop n bs ++ rest) (omega arith))
    ∙ ap (λ t. f (take n bs) ++ t)
        (many-append f n k (drop n bs) rest (omega (arith, length-drop n bs)))

-- Of `n` blocks of bytes, `EncryptFast` writes as many as are taken, whatever follows them, and `DecryptFast` with
-- the same `n` gives their bytes back: all `n` blocks, or without the last one if `n` is odd and a block has
-- 8 bytes.
pub decrypt_fast-encrypt_fast :
    (e : BlockCipher) (n k : ℕ) (bs rest : List ℕ)
    → Taken e.block_size n k
    → length bs ≡ k * e.block_size
    → AllBelow 256 bs
    → (length (encrypt_fast e n (bs ++ rest)) ≡ length bs)
      × (decrypt_fast e n (encrypt_fast e n (bs ++ rest)) ≡ bs)
unfolding decrypt_fast encrypt_fast
decrypt_fast-encrypt_fast e n k bs rest taken h b =
    let made =
      ap (λ m. many e.encrypt e.block_size m (bs ++ rest)) (Taken-rounds e.block_size n k taken)
      ∙ many-append e.encrypt e.block_size k bs rest h in
    (
      ap length made ∙ length-many e k bs ∙ sym h,
      ap₂ (many e.decrypt e.block_size) (Taken-rounds e.block_size n k taken) made
          ∙ many_undo e k bs h b,
    )
