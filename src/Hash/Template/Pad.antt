-- ===== src/Hash/Template/Pad.antt =====
-- `Pad` absorbs the mark 0x80, zeros up to the place of the length, and the length, in one block or
-- two.
use native.Mathlib.Nat.{mod-lt}
use mathlib.Core.List.{append_assoc}
use drew.Prelude.{
  ℕ, ◌+◌, ◌-◌, ◌*◌, ◌%◌, ◌≤◌, ◌<◌, ◌≡◌, inl, inr, sym, ap, ◌∙◌, List, [], ◌∷◌, ◌++◌, length, take,
  replicate, length-append, length-take, length-replicate, leb, if◌then◌else◌, Bool-cases, arith,
}
use drew.Util.Memory.{overwrite, overwrite-length, take-overwrite, overwrite_to_end}
use drew.Hash.Template.{Algorithm, Hash, length_bytes, pad_mark, pad}
use drew.Hash.Template.Absorb.{absorb, absorb-append, absorb_block}
use drew.Hash.Template.Update.{view, block_some}

-- The bytes before the length, for a block of which `off` bytes are used.
unfoldable pub fill_bytes : Algorithm → ℕ → List ℕ
fill_bytes a off =
    let trip = a.block_size - 2 * a.word_size in
    0x80
    ∷ (if leb trip off
        then replicate (a.block_size - (off + 1)) 0 ++ replicate trip 0
        else replicate (trip - (off + 1)) 0)

module _ (a : Algorithm) (s : Hash) (lb : List ℕ) where
  -- The length fits into the block.
  one_block :
      length s.buf ≡ a.block_size
      → length lb ≡ 2 * a.word_size
      → s.len0 % a.block_size < a.block_size - 2 * a.word_size
      → (let off = s.len0 % a.block_size in
          let trip = a.block_size - 2 * a.word_size in
          let marked = overwrite s.buf off (0x80 ∷ []) in
          let cleared = overwrite marked (off + 1) (replicate (trip - (off + 1)) 0) in
          record { hash = a.transform s.hash (overwrite cleared trip lb); pending = [] }
          ≡ absorb a (view a s) (0x80 ∷ replicate (trip - (off + 1)) 0 ++ lb))
  unfolding view
  one_block whole size l =
      let n = a.block_size in
      let off = s.len0 % n in
      let trip = n - 2 * a.word_size in
      let zeros : List ℕ = replicate (trip - (off + 1)) 0 in
      let zeros_size : length zeros ≡ trip - (off + 1) = length-replicate (trip - (off + 1)) 0 in
      let fits = a.length_fits in
      let o : off < n = mod-lt s.len0 (block_some a) in
      let marked = overwrite s.buf off (0x80 ∷ []) in
      let cleared = overwrite marked (off + 1) zeros in
      let marked_size : length marked ≡ n =
        overwrite-length s.buf off (0x80 ∷ []) (omega arith) ∙ whole in
      let cleared_size : length cleared ≡ n =
        overwrite-length marked (off + 1) zeros (omega arith) ∙ marked_size in
      let front : length (take off s.buf) ≡ off = omega (arith, length-take off s.buf) in
      let up_to : off + 1 + length zeros ≡ trip = omega arith in
      let text : overwrite cleared trip lb ≡ take off s.buf ++ (0x80 ∷ zeros ++ lb) =
        overwrite_to_end cleared trip lb (omega arith)
        ∙ ap (λ t. take t cleared ++ lb) (sym up_to)
        ∙ ap (λ t. t ++ lb) (take-overwrite marked (off + 1) zeros (omega arith))
        ∙ ap (λ t. t ++ zeros ++ lb) (take-overwrite s.buf off (0x80 ∷ []) (omega arith))
        ∙ append_assoc (take off s.buf ++ 0x80 ∷ []) zeros lb
        ∙ append_assoc (take off s.buf) (0x80 ∷ []) (zeros ++ lb) in
      ap (λ t. record { hash = a.transform s.hash t; pending = [] }) text
      ∙ sym (
          absorb_block a s.hash (take off s.buf) (0x80 ∷ zeros ++ lb) (omega arith)
            (omega (arith, length-append zeros lb)))

  -- It does not: the first block ends in zeros, and the second holds zeros and the length.
  two_blocks :
      length s.buf ≡ a.block_size
      → length lb ≡ 2 * a.word_size
      → a.block_size - 2 * a.word_size ≤ s.len0 % a.block_size
      → (let off = s.len0 % a.block_size in
          let trip = a.block_size - 2 * a.word_size in
          let marked = overwrite s.buf off (0x80 ∷ []) in
          let first = overwrite marked (off + 1) (replicate (a.block_size - (off + 1)) 0) in
          let cleared = overwrite first 0 (replicate (trip - 0) 0) in
          record {
            hash = a.transform (a.transform s.hash first) (overwrite cleared trip lb);
            pending = [];
          }
          ≡ absorb a
              (view a s)
              (0x80 ∷ (replicate (a.block_size - (off + 1)) 0 ++ replicate trip 0) ++ lb))
  unfolding view
  two_blocks whole size l =
      let n = a.block_size in
      let off = s.len0 % n in
      let trip = n - 2 * a.word_size in
      let ends : List ℕ = replicate (n - (off + 1)) 0 in
      let zeros : List ℕ = replicate (trip - 0) 0 in
      let all : trip - 0 ≡ trip = omega arith in
      let ends_size : length ends ≡ n - (off + 1) = length-replicate (n - (off + 1)) 0 in
      let zeros_size : length zeros ≡ trip - 0 = length-replicate (trip - 0) 0 in
      let fits = a.length_fits in
      let o : off < n = mod-lt s.len0 (block_some a) in
      let marked = overwrite s.buf off (0x80 ∷ []) in
      let first = overwrite marked (off + 1) ends in
      let cleared = overwrite first 0 zeros in
      let marked_size : length marked ≡ n =
        overwrite-length s.buf off (0x80 ∷ []) (omega arith) ∙ whole in
      let first_size : length first ≡ n =
        overwrite-length marked (off + 1) ends (omega arith) ∙ marked_size in
      let cleared_size : length cleared ≡ n =
        overwrite-length first 0 zeros (omega arith) ∙ first_size in
      let front : length (take off s.buf) ≡ off = omega (arith, length-take off s.buf) in
      let first_text : first ≡ take off s.buf ++ (0x80 ∷ ends) =
        overwrite_to_end marked (off + 1) ends (omega arith)
        ∙ ap (λ t. t ++ ends) (take-overwrite s.buf off (0x80 ∷ []) (omega arith))
        ∙ append_assoc (take off s.buf) (0x80 ∷ []) ends in
      let up_to : 0 + length zeros ≡ trip = omega arith in
      let second_text : overwrite cleared trip lb ≡ zeros ++ lb =
        overwrite_to_end cleared trip lb (omega arith)
        ∙ ap (λ t. take t cleared ++ lb) (sym up_to)
        ∙ ap (λ t. t ++ lb) (take-overwrite first 0 zeros (omega arith)) in
      let h1 = a.transform s.hash first in
      ap (λ t. record { hash = a.transform h1 t; pending = [] }) second_text
      ∙ sym
          (absorb_block a h1 [] (zeros ++ lb) (omega arith) (omega (arith, length-append zeros lb)))
      ∙ ap (λ t. absorb a (record { hash = a.transform s.hash t; pending = [] }) (zeros ++ lb))
          first_text
      ∙ ap (λ t. absorb a t (zeros ++ lb))
          (sym (absorb_block a s.hash (take off s.buf) (0x80 ∷ ends) (omega arith) (omega arith)))
      ∙ sym (absorb-append a (view a s) (0x80 ∷ ends) (zeros ++ lb))
      ∙ ap (absorb a (view a s)) (ap (λ t. 0x80 ∷ t) (sym (append_assoc ends zeros lb)))
      ∙ ap (λ t. absorb a (view a s) (0x80 ∷ (ends ++ replicate t 0) ++ lb)) all

-- `Pad` leaves the hash that absorbing the fill bytes and the length leaves, with no byte pending.
pub pad_lem :
    (a : Algorithm) (s : Hash)
    → length s.buf ≡ a.block_size
    → length (length_bytes a s.len0 s.len1) ≡ 2 * a.word_size
    → record { hash = (pad a s).hash; pending = [] }
      ≡ absorb a (view a s) (fill_bytes a (s.len0 % a.block_size) ++ length_bytes a s.len0 s.len1)
unfolding pad pad_mark fill_bytes
pad_lem a s whole size =
    let lb = length_bytes a s.len0 s.len1 in
    elim (Bool-cases (leb (a.block_size - 2 * a.word_size) (s.len0 % a.block_size))) [
      | inl late ↦ rw late (two_blocks a s lb whole size (ground arith))
      | inr early ↦ rw early (one_block a s lb whole size (ground arith))
    ]
