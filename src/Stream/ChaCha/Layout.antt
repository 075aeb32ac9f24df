-- ===== src/Stream/ChaCha/Layout.antt =====
-- What stands in the 16 words, for keys and nonces of the sizes that the plugin names.
use drew.Prelude.{
  ℕ, ◌/◌, ◌≡◌, refl, sym, ap, ap₂, ◌∙◌, ◌⊎◌, inl, inr, List, [], ◌∷◌, ◌++◌, length, get_or, set,
  ◌==◌, if◌then◌else◌,
}
use drew.Util.Endian.{little, copy_in}
use drew.Util.Memory.{overwrite, tabulate, tabulate-get_or}
use drew.Stream.ChaCha.{Keystream, write_counter, ks_reset, ks_set_key, ks_set_nonce}

-- The input of the hash: four constants, eight words of key, where a key of 16 bytes is used twice, and
-- the counter and the nonce, which share four words.
arrange : ℕ → ℕ → List ℕ → List ℕ → ℕ → ℕ → List ℕ
arrange ks vs key iv lo hi =
    let constants =
      if ks == 16
      then 0x61707865 ∷ 0x3120646e ∷ 0x79622d36 ∷ 0x6b206574 ∷ []
      else 0x61707865 ∷ 0x3320646e ∷ 0x79622d32 ∷ 0x6b206574 ∷ [] in
    let keys =
      if ks == 16
      then copy_in little 4 4 key ++ copy_in little 4 4 key
      else copy_in little 4 8 key in
    let tail = if vs == 8 then lo ∷ hi ∷ copy_in little 4 2 iv else lo ∷ copy_in little 4 3 iv in
    constants ++ keys ++ tail

pub input : List ℕ → List ℕ → ℕ → ℕ → List ℕ
unfolding arrange
input key iv lo hi = arrange (length key) (length iv) key iv lo hi

-- The sizes of a key and of a nonce.
abbrev pub IsKeySize : ℕ → Type 0
IsKeySize n = (n ≡ 16) ⊎ (n ≡ 32)

abbrev pub IsNonceSize : ℕ → Type 0
IsNonceSize n = (n ≡ 8) ⊎ (n ≡ 12)

-- After the key and the nonce, whatever the counter's words are.
pub record IsInput (key iv : List ℕ) (k : Keystream) : Type 0 where
  pub size : k.noncesz ≡ length iv
  pub words : (lo hi : ℕ) → write_counter k.noncesz k.state lo hi ≡ input key iv lo hi

-- The writes of `SetKey`, `SetNonce` and `FillBuffer` to the array.
laid : List ℕ → List ℕ → ℕ → ℕ → List ℕ → ℕ → ℕ → List ℕ
laid key iv lo hi ws ks vs =
    let first = overwrite ws 4 (copy_in little 4 (ks / 4) key) in
    let keys = if ks == 16 then overwrite first 8 (copy_in little 4 4 key) else first in
    let st = overwrite keys (if vs == 12 then 13 else 14) (copy_in little 4 (vs / 4) iv) in
    let left = set (set st 0 0x61707865) 1 (if ks == 16 then 0x3120646e else 0x3320646e) in
    write_counter vs (set (set left 2 (if ks == 16 then 0x79622d36 else 0x79622d32)) 3 0x6b206574)
      lo hi

laid_lem :
    (key iv : List ℕ) (lo hi : ℕ) (f : ℕ → ℕ) {ks vs : ℕ}
    → IsKeySize ks
    → IsNonceSize vs
    → laid key iv lo hi (tabulate 16 f) ks vs ≡ arrange ks vs key iv lo hi
unfolding laid arrange tabulate overwrite copy_in write_counter
laid_lem key iv lo hi f (inl k) (inl v) = rw (k, v) refl
laid_lem key iv lo hi f (inl k) (inr v) = rw (k, v) refl
laid_lem key iv lo hi f (inr k) (inl v) = rw (k, v) refl
laid_lem key iv lo hi f (inr k) (inr v) = rw (k, v) refl

pub set_nonce-IsInput :
    (key iv : List ℕ) (k : Keystream)
    → length k.state ≡ 16
    → IsKeySize (length key)
    → IsNonceSize (length iv)
    → IsInput key iv (ks_set_nonce iv (ks_set_key key (ks_reset k)))
unfolding laid input ks_set_nonce ks_set_key ks_reset
set_nonce-IsInput key iv k h ks vs =
    let read : ℕ → ℕ = λ i. get_or k.state i 0 in
    let all : k.state ≡ tabulate 16 read =
      sym (tabulate-get_or k.state) ∙ ap (λ m. tabulate m read) h in
    record {
      size = refl;
      words = λ lo hi.
          ap (λ ws. laid key iv lo hi ws (length key) (length iv)) all
          ∙ laid_lem key iv lo hi read ks vs;
    }

-- The counter's words are written over those of another counter.
counter_again :
    (key iv : List ℕ) (x y lo hi : ℕ) {ks vs : ℕ}
    → IsKeySize ks
    → IsNonceSize vs
    → write_counter vs (arrange ks vs key iv x y) lo hi ≡ arrange ks vs key iv lo hi
unfolding arrange copy_in write_counter
counter_again key iv x y lo hi (inl k) (inl v) = rw (k, v) refl
counter_again key iv x y lo hi (inl k) (inr v) = rw (k, v) refl
counter_again key iv x y lo hi (inr k) (inl v) = rw (k, v) refl
counter_again key iv x y lo hi (inr k) (inr v) = rw (k, v) refl

-- A block that was given leaves the counter's words of another, which are written again.
pub counted-IsInput :
    (key iv : List ℕ) (k : Keystream) (x y : ℕ)
    → IsKeySize (length key)
    → IsNonceSize (length iv)
    → IsInput key iv k
    → IsInput key iv (record k { state = write_counter k.noncesz k.state x y })
unfolding input
counted-IsInput key iv k x y ks vs h = record {
  size = h.size;
  words = λ lo hi.
      ap₂ (λ m ws. write_counter m ws lo hi) h.size (h.words x y)
      ∙ counter_again key iv x y lo hi ks vs;
}
