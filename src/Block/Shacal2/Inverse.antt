-- ===== src/Block/Shacal2/Inverse.antt =====
-- SHACAL-2: decryption undoes encryption under every key of at most 64 bytes.
use drew.Prelude.{
  ap, ◌≤◌, length, false, none, some, Option, ltb, arith, ℕ, ◌-◌, ◌≡◌, List, ◌++◌, replicate,
  length-append,
}
use drew.Prelude.Recurrence.{filled-Follows}
use drew.Util.Endian.{big, IsBlock, copy_in}
use drew.Util.Endian.Arrays.{length-copy_in}
use drew.Block.Interface.{BlockCipher, WordCipher, of_words, on_words_undo}
use drew.Hash.Sha256.{expanded, forward_transform, inverse_transform}
use drew.Hash.Sha256.Expansion.{IsExpanded, expanded-IsBackward}
use drew.Hash.Sha256.Transform.{
  length-forward_transform, forward_transform-IsWords, inverse_transform-IsWords,
  sha256_inverse-forward,
}
use drew.Block.Shacal2.{expand_key, set_key, encrypt, decrypt}

-- The key schedule leaves an expanded block.
pub shacal2_expand_key-IsExpanded : (key : List ℕ) → IsExpanded (expand_key key)
unfolding expand_key
shacal2_expand_key-IsExpanded key =
    let buf = key ++ replicate (64 - length key) 0 in
    let start = copy_in big 4 16 buf ++ replicate 48 0 in
    let size : length start ≡ 64 =
      omega (
        arith,
        length-append (copy_in big 4 16 buf) (replicate 48 0),
        length-copy_in big 4 16 buf,
      ) in
    filled-Follows expanded expanded-IsBackward 64 start size (omega arith)

word_cipher : List ℕ → WordCipher 4 8
word_cipher key =
    let x = shacal2_expand_key-IsExpanded key in
    record {
      forward = λ v. forward_transform v (expand_key key);
      back = λ v. inverse_transform v (expand_key key);
      forward-IsWords = λ v. forward_transform-IsWords v (expand_key key) x;
      back-IsWords = λ v. inverse_transform-IsWords v (expand_key key);
      length-forward = λ v. length-forward_transform v (expand_key key);
      back-forward = λ v. sha256_inverse-forward v (expand_key key) x;
    }

pub cipher : List ℕ → BlockCipher
cipher key = of_words big (word_cipher key)

-- A block encrypted, and decrypted again, after the key schedule.
abbrev pub there_and_back : List ℕ → List ℕ → Option (List ℕ)
there_and_back key bs = elim (set_key key) [
  | none ↦ none
  | some words ↦ some (decrypt words (encrypt words bs))
]

-- The key schedule succeeds for every key of at most 64 bytes, and `Decrypt` then gives back the block of
-- 32 bytes that `Encrypt` was given.
pub shacal2_decrypt-encrypt :
    (key bs : List ℕ) → length key ≤ 64 → IsBlock 32 bs → there_and_back key bs ≡ some bs
unfolding set_key encrypt decrypt word_cipher
shacal2_decrypt-encrypt key bs fits b =
    let go : ltb 64 (length key) ≡ false = ground arith in
    rw (there_and_back, go) (ap some (on_words_undo big (word_cipher key) bs b))
