-- ===== src/Block/Interface.antt =====
-- The interface of impl/block/blockcipher.hh: what a keyed cipher object offers to the modes, and
-- how a cipher that works on words is one. A block is a list of bytes.
use drew.Prelude.{ℕ, zero, suc, ◌*◌, ◌<◌, ◌≡◌, refl, ap, ◌∙◌, List, [], ◌∷◌, length, get_or, arith}
use drew.Util.Endian.{Endianness, copy_in, copy_out, AllBelow, IsBlock, IsWords}
use drew.Util.Endian.Arrays.{
  copy_in-IsWords, copy_out-IsBlock, copy_in-copy_out, copy_out-copy_in, length-copy_in,
  length-copy_out,
}

-- A keyed object: its block size, `Encrypt` and `Decrypt`, and the contract that they are inverse.
pub record BlockCipher : Type 0 where
  pub block_size : ℕ
  pub encrypt : List ℕ → List ℕ
  pub decrypt : List ℕ → List ℕ
  pub encrypt-IsBlock : (bs : List ℕ) → IsBlock block_size bs → IsBlock block_size (encrypt bs)
  pub decrypt-IsBlock : (bs : List ℕ) → IsBlock block_size bs → IsBlock block_size (decrypt bs)
  pub length-encrypt : (bs : List ℕ) → length (encrypt bs) ≡ block_size
  pub decrypt-encrypt : (bs : List ℕ) → IsBlock block_size bs → decrypt (encrypt bs) ≡ bs

-- `E::Copy(v, in, sizeof(v)); …; E::Copy(out, v, sizeof(v));` round a computation on `n` words of
-- `k` bytes.
unfoldable pub on_words : Endianness → ℕ → ℕ → (List ℕ → List ℕ) → List ℕ → List ℕ
on_words e k n core bs = copy_out e k (core (copy_in e k n bs))

-- Two computations on words of which the second undoes the first.
pub record WordCipher (k n : ℕ) : Type 0 where
  pub forward : List ℕ → List ℕ
  pub back : List ℕ → List ℕ
  pub forward-IsWords : (ws : List ℕ) → IsWords k n ws → IsWords k n (forward ws)
  pub back-IsWords : (ws : List ℕ) → IsWords k n ws → IsWords k n (back ws)
  pub length-forward : (ws : List ℕ) → length ws ≡ n → length (forward ws) ≡ n
  pub back-forward : (ws : List ℕ) → IsWords k n ws → back (forward ws) ≡ ws

module _ (e : Endianness) {k n : ℕ} (c : WordCipher k n) where
  on_words-IsBlock :
      (f : List ℕ → List ℕ)
      → ((ws : List ℕ) → IsWords k n ws → IsWords k n (f ws))
      → (bs : List ℕ) → IsBlock (n * k) bs
      → IsBlock (n * k) (on_words e k n f bs)
  unfolding on_words
  on_words-IsBlock f keep bs b =
      copy_out-IsBlock e k n (f (copy_in e k n bs)) ((keep _ (copy_in-IsWords e k n bs b)).size)

  length-on_words : (bs : List ℕ) → length (on_words e k n (c.forward) bs) ≡ n * k
  unfolding on_words
  length-on_words bs =
      length-copy_out e k (c.forward (copy_in e k n bs))
      ∙ ap (λ (t : ℕ). t * k) (c.length-forward (copy_in e k n bs) (length-copy_in e k n bs))

  -- Decrypting what was encrypted, through the byte order conversions.
  pub on_words_undo :
      (bs : List ℕ)
      → IsBlock (n * k) bs
      → on_words e k n (c.back) (on_words e k n (c.forward) bs) ≡ bs
  unfolding on_words
  on_words_undo bs b =
      ap (λ t. copy_out e k (c.back t))
        (copy_in-copy_out e k n _ (c.forward-IsWords _ (copy_in-IsWords e k n bs b)))
      ∙ ap (copy_out e k) (c.back-forward _ (copy_in-IsWords e k n bs b))
      ∙ copy_out-copy_in e k n bs b

  -- A cipher on words is a cipher on blocks of bytes.
  pub of_words : BlockCipher
  of_words = record {
    block_size = n * k;
    encrypt = on_words e k n (c.forward);
    decrypt = on_words e k n (c.back);
    encrypt-IsBlock = on_words-IsBlock (c.forward) (c.forward-IsWords);
    decrypt-IsBlock = on_words-IsBlock (c.back) (c.back-IsWords);
    length-encrypt = length-on_words;
    decrypt-encrypt = on_words_undo;
  }

  pub of_words-block_size : of_words.block_size ≡ n * k
  unfolding of_words
  of_words-block_size = refl

-- Reading a word array: every index gives a word, and a short array is the list of its reads.
pub get_or-lt : (m i : ℕ) (ws : List ℕ) → 0 < m → AllBelow m ws → get_or ws i 0 < m
get_or-lt m i [] h b = h
get_or-lt m zero (w ∷ ws) h b = b.0
get_or-lt m (suc i) (w ∷ ws) h b = get_or-lt m i ws h (b.1)

pub two_reads : (ws : List ℕ) → length ws ≡ 2 → get_or ws 0 0 ∷ get_or ws 1 0 ∷ [] ≡ ws
two_reads [] h = absurd (omega arith)
two_reads (a ∷ []) h = absurd (omega arith)
two_reads (a ∷ b ∷ []) h = refl
two_reads (a ∷ b ∷ c ∷ ws) h = absurd (omega arith)
