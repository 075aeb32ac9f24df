-- ===== src/Stream/Salsa20/Layout.antt =====
-- What stands in the 16 words: the arrangement of the Salsa20 specification.
use drew.Prelude.{
  ℕ, ◌/◌, ◌≡◌, refl, sym, ap, ap₂, ◌∙◌, List, [], ◌∷◌, length, drop, get_or, set, ◌==◌,
  if◌then◌else◌,
}
use drew.Util.Endian.{little, load, copy_in}
use drew.Util.Memory.{overwrite, tabulate, tabulate-get_or}
use drew.Stream.Salsa20.{Keystream, ks_reset, ks_set_key, ks_set_nonce}

-- The input of the hash: the constants on the diagonal, the key in two halves, the nonce and the two words
-- of the block counter. A key of 16 bytes is used for both halves.
pub input : List ℕ → List ℕ → ℕ → ℕ → List ℕ
input key iv lo hi =
    let short = length key == 16 in
    let rest = if short then key else drop 16 key in
    0x61707865
    ∷ load little 4 key
    ∷ load little 4 (drop 4 key)
    ∷ load little 4 (drop 4 (drop 4 key))
    ∷ load little 4 (drop 4 (drop 4 (drop 4 key)))
    ∷ (if short then 0x3120646e else 0x3320646e)
    ∷ load little 4 iv
    ∷ load little 4 (drop 4 iv)
    ∷ lo
    ∷ hi
    ∷ (if short then 0x79622d36 else 0x79622d32)
    ∷ load little 4 rest
    ∷ load little 4 (drop 4 rest)
    ∷ load little 4 (drop 4 (drop 4 rest))
    ∷ load little 4 (drop 4 (drop 4 (drop 4 rest)))
    ∷ 0x6b206574
    ∷ []

-- After the key and the nonce, whatever the counter's words are.
abbrev pub IsInput : List ℕ → List ℕ → Keystream → Type 0
IsInput key iv k = (lo hi : ℕ) → set (set k.state 8 lo) 9 hi ≡ input key iv lo hi

-- The writes of `SetKey` and `SetNonce` to the array, for `q` words of nonce, and those of the counter.
laid : List ℕ → List ℕ → ℕ → ℕ → List ℕ → ℕ → List ℕ
laid key iv lo hi ws q =
    let short = length key == 16 in
    let halves =
      overwrite (overwrite ws 1 (copy_in little 4 4 key)) 11
        (copy_in little 4 4 (if short then key else drop 16 key)) in
    let st = overwrite halves 6 (copy_in little 4 q iv) in
    let left = set (set st 0 0x61707865) 5 (if short then 0x3120646e else 0x3320646e) in
    let right = set (set left 10 (if short then 0x79622d36 else 0x79622d32)) 15 0x6b206574 in
    set (set right 8 lo) 9 hi

laid_lem :
    (key iv : List ℕ) (lo hi : ℕ) (f : ℕ → ℕ)
    → laid key iv lo hi (tabulate 16 f) 2 ≡ input key iv lo hi
unfolding laid input tabulate overwrite copy_in
laid_lem key iv lo hi f = refl

pub set_nonce-IsInput :
    (key iv : List ℕ) (k : Keystream)
    → length k.state ≡ 16
    → length iv ≡ 8
    → IsInput key iv (ks_set_nonce iv (ks_set_key key (ks_reset k)))
unfolding laid ks_set_nonce ks_set_key ks_reset
set_nonce-IsInput key iv k h n lo hi =
    let words : ℕ → ℕ = λ i. get_or k.state i 0 in
    let all : k.state ≡ tabulate 16 words =
      sym (tabulate-get_or k.state) ∙ ap (λ m. tabulate m words) h in
    let two : length iv / 4 ≡ 2 = ap (λ (m : ℕ). m / 4) n in
    ap₂ (laid key iv lo hi) all two ∙ laid_lem key iv lo hi words

-- A block that was given leaves the counter's words of another, which are written again.
pub counted-IsInput :
    (key iv : List ℕ) (k : Keystream) (x y : ℕ)
    → IsInput key iv k
    → IsInput key iv (record k { state = set (set k.state 8 x) 9 y })
unfolding input
counted-IsInput key iv k x y h lo hi = ap (λ ws. set (set ws 8 lo) 9 hi) (h x y)
