-- ===== src/Util/Endian/Arrays.antt =====
-- `Endian<E>::Copy` between a block of bytes and an array of words is a bijection.
use drew.Prelude.{
  ℕ, zero, suc, ◌*◌, ◌^◌, ◌≡◌, refl, ap, ap₂, ◌∙◌, List, [], ◌∷◌, ◌++◌, length, drop, length-append,
  length-take, length-drop, take-append-drop, arith,
}
use drew.Util.Endian.{Endianness, store, copy_in, copy_out, AllBelow, IsBlock, IsWords}
use drew.Util.Endian.Laws.{
  AllBelow-append, AllBelow-take, AllBelow-drop, drop-append_self, length-store, store-AllBelow,
  load-store, store-load, load-lt,
}

module _ (e : Endianness) (k : ℕ) where
  words_of_bytes :
      (ws : List ℕ) → AllBelow (256 ^ k) ws → copy_in e k (length ws) (copy_out e k ws) ≡ ws
  unfolding copy_in copy_out
  words_of_bytes [] p = refl
  words_of_bytes (w ∷ ws) p = ap₂ ◌∷◌ (load-store e k w (copy_out e k ws) (p.0)) (
      ap (copy_in e k (length ws))
        (drop-append_self k (store e k w) (copy_out e k ws) (length-store e k w))
      ∙ words_of_bytes ws (p.1))

  bytes_of_words :
      (n : ℕ) (bs : List ℕ)
      → length bs ≡ n * k
      → AllBelow 256 bs
      → copy_out e k (copy_in e k n bs) ≡ bs
  unfolding copy_in copy_out
  bytes_of_words zero [] p q = refl
  bytes_of_words zero (b ∷ bs) p q = absurd (omega arith)
  bytes_of_words (suc n) bs p q =
      ap₂ ◌++◌ (store-load e k bs (omega (arith, length-take k bs)) (AllBelow-take 256 k bs q))
        (bytes_of_words n (drop k bs) (omega (arith, length-drop k bs)) (AllBelow-drop 256 k bs q))
      ∙ take-append-drop k bs

  pub length-copy_in : (n : ℕ) (bs : List ℕ) → length (copy_in e k n bs) ≡ n
  unfolding copy_in
  length-copy_in zero bs = refl
  length-copy_in (suc n) bs = ap suc (length-copy_in n (drop k bs))

  copy_in-AllBelow : (n : ℕ) (bs : List ℕ) → AllBelow 256 bs → AllBelow (256 ^ k) (copy_in e k n bs)
  unfolding copy_in
  copy_in-AllBelow zero bs h = tt
  copy_in-AllBelow (suc n) bs h =
      (load-lt e k bs h, copy_in-AllBelow n (drop k bs) (AllBelow-drop 256 k bs h))

  pub length-copy_out : (ws : List ℕ) → length (copy_out e k ws) ≡ length ws * k
  unfolding copy_out
  length-copy_out [] = omega arith
  length-copy_out (w ∷ ws) =
      omega (
        arith,
        length-append (store e k w) (copy_out e k ws),
        length-store e k w,
        length-copy_out ws,
      )

  copy_out-AllBelow : (ws : List ℕ) → AllBelow 256 (copy_out e k ws)
  unfolding copy_out
  copy_out-AllBelow [] = tt
  copy_out-AllBelow (w ∷ ws) =
      AllBelow-append 256 (store e k w) (copy_out e k ws) (store-AllBelow e k w)
        (copy_out-AllBelow ws)

  pub copy_in-IsWords : (n : ℕ) (bs : List ℕ) → IsBlock (n * k) bs → IsWords k n (copy_in e k n bs)
  copy_in-IsWords n bs b = record {
    size = length-copy_in n bs;
    below = copy_in-AllBelow n bs (b.below);
  }

  pub copy_out-IsBlock : (n : ℕ) (ws : List ℕ) → length ws ≡ n → IsBlock (n * k) (copy_out e k ws)
  copy_out-IsBlock n ws h = record {
    size = length-copy_out ws ∙ ap (λ (t : ℕ). t * k) h;
    below = copy_out-AllBelow ws;
  }

pub copy_in-copy_out :
    (e : Endianness) (k n : ℕ) (ws : List ℕ) → IsWords k n ws → copy_in e k n (copy_out e k ws) ≡ ws
copy_in-copy_out e k n ws h =
    ap (λ t. copy_in e k t (copy_out e k ws)) size ∙ words_of_bytes e k ws (h.below)
  where
    size : n ≡ length ws
    size = omega arith

pub copy_out-copy_in :
    (e : Endianness) (k n : ℕ) (bs : List ℕ)
    → IsBlock (n * k) bs
    → copy_out e k (copy_in e k n bs) ≡ bs
copy_out-copy_in e k n bs b = bytes_of_words e k n bs (b.size) (b.below)

-- Copying an array of `n` words out to bytes and back in gives the array, and copying a block of
-- `n * k` bytes in and back out gives the block, in either byte order.
pub copy_inverse :
    (e : Endianness) (k n : ℕ) (ws bs : List ℕ)
    → IsWords k n ws
    → IsBlock (n * k) bs
    → (copy_in e k n (copy_out e k ws) ≡ ws) × (copy_out e k (copy_in e k n bs) ≡ bs)
copy_inverse e k n ws bs h b = (copy_in-copy_out e k n ws h, copy_out-copy_in e k n bs b)
