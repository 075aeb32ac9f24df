-- ===== src/Util/Tests.antt =====
-- The helpers of include/util.hh at concrete inputs.
use drew.Prelude.{ℕ, ◌+◌, ◌≡◌, refl, inl, List, [], ◌∷◌, length, arith}
use drew.Util.Rotate.{
  rotate_left, not_word, ternary_selection, ternary_majority, ternary_parity, get_byte,
}
use drew.Util.Endian.{little, big, copy_in, load, host_load}
use drew.Util.Keystream.{xor_bytes, Cursor, copy_and_xor}
use drew.Util.Keystream.Aligned.{xor_aligned, copy_aligned, copy_and_xor_aligned}
use drew.Util.Keystream.Spec.{outputs, after}
use drew.Util.Keystream.Refine.{copy_and_xor_lem}

rotated : rotate_left 32 0x80000001 4 ≡ 0x18
unfolding rotate_left
rotated = refl

selected : ternary_selection 0xf0 0xaa 0x55 ≡ 0xa5
unfolding ternary_selection
selected = refl

outvoted : ternary_majority 0xf0 0xaa 0x55 ≡ 0xf0
unfolding ternary_majority
outvoted = refl

odd_bits : ternary_parity 0xf0 0xaa 0x55 ≡ 0x0f
unfolding ternary_parity
odd_bits = refl

second_byte : get_byte 0x12345678 1 ≡ 0x56
unfolding get_byte
second_byte = refl

complement : not_word 8 0x0f ≡ 0xf0
unfolding not_word
complement = refl

abbrev bytes_4 : List ℕ
bytes_4 = 0x12 ∷ 0x34 ∷ 0x56 ∷ 0x78 ∷ []

abbrev words_2 : List ℕ
words_2 = 0x1234 ∷ 0x5678 ∷ []

big_words : copy_in big 2 2 bytes_4 ≡ words_2
unfolding copy_in load host_load
big_words = refl

little_words : copy_in little 2 2 bytes_4 ≡ 0x3412 ∷ 0x7856 ∷ []
unfolding copy_in load host_load
little_words = refl

-- A counter that fills a buffer of four bytes.
abbrev count_up : ℕ → List ℕ × ℕ
count_up k = (k ∷ (k + 1) ∷ (k + 2) ∷ (k + 3) ∷ [], k + 4)

count_up_full : (k : ℕ) → length (count_up k).0 ≡ 4
count_up_full k = refl

abbrev cursor : Cursor ℕ
cursor = record { mbuf = bytes_4; bufrem = 3; obj = 40 }

copy_and_xor_lem_example :
    copy_and_xor 4 count_up cursor bytes_4
    ≡ (outputs 4 count_up cursor bytes_4, after 4 count_up cursor bytes_4)
copy_and_xor_lem_example =
    copy_and_xor_lem 4 count_up (omega arith) count_up_full cursor bytes_4 refl (omega arith)
      (inl (omega arith))

-- Buffers of less than a piece are not added at all.
nothing_written :
    (copy_and_xor_aligned 4 count_up 4 (0 ∷ 0 ∷ 0 ∷ 0 ∷ []) bytes_4 40 bytes_4).out
    ≡ 0 ∷ 0 ∷ 0 ∷ 0 ∷ []
unfolding copy_and_xor_aligned copy_aligned xor_aligned xor_bytes
nothing_written = refl
