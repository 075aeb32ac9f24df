-- ===== src/Block/Shacal/Inverse.antt =====
-- SHACAL-1: decryption undoes encryption under every key of at most 64 bytes.
use drew.Prelude.{ap, ◌≤◌, length, false, none, some, Option, ltb, arith, ℕ, ◌≡◌, List}
use drew.Util.Endian.{big, IsBlock}
use drew.Block.Interface.{BlockCipher, WordCipher, of_words, on_words_undo}
use drew.Hash.Sha1.{forward_transform, inverse_transform}
use drew.Hash.Sha1.Transform.{
  length-forward_transform, forward_transform-IsWords, inverse_transform-IsWords,
  inverse_transform-forward_transform,
}
use drew.Block.Shacal.{expand_key, set_key, encrypt, decrypt}
use drew.Block.Shacal.Schedule.{expand_key-IsExpanded}

word_cipher : List ℕ → WordCipher 4 5
word_cipher key =
    let x = expand_key-IsExpanded key in
    record {
      forward = λ v. forward_transform 1 v (expand_key key);
      back = λ v. inverse_transform v (expand_key key);
      forward-IsWords = λ v. forward_transform-IsWords v (expand_key key) x;
      back-IsWords = λ v. inverse_transform-IsWords v (expand_key key);
      length-forward = λ v. length-forward_transform v (expand_key key);
      back-forward = λ v. inverse_transform-forward_transform v (expand_key key) x;
    }

pub cipher : List ℕ → BlockCipher
cipher key = of_words big (word_cipher key)

-- A block encrypted, and decrypted again, after the key schedule.
abbrev pub there_and_back : List ℕ → List ℕ → Option (List ℕ)
there_and_back key bs = elim (set_key key) [
  | none ↦ none
  | some words ↦ some (decrypt words (encrypt words bs))
]

-- The key schedule succeeds for every key of at most 64 bytes, and `Decrypt` then gives back the block of
-- 20 bytes that `Encrypt` was given.
pub shacal1_decrypt-encrypt :
    (key bs : List ℕ) → length key ≤ 64 → IsBlock 20 bs → there_and_back key bs ≡ some bs
unfolding set_key encrypt decrypt word_cipher
shacal1_decrypt-encrypt key bs fits b =
    let go : ltb 64 (length key) ≡ false = ground arith in
    rw (there_and_back, go) (ap some (on_words_undo big (word_cipher key) bs b))
