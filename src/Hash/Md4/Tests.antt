-- ===== src/Hash/Md4/Tests.antt =====
-- MD4 of "abc" and of the empty message, by the template: the first vectors of the plugin's test.
use drew.Prelude.{ℕ, ◌≡◌, refl, false, List, [], ◌∷◌}
use drew.Util.Memory.{overwrite}
use drew.Util.Rotate.{rotate_left, add_word}
use drew.Util.Endian.{copy_in, copy_out, load, store, host_load, host_store}
use drew.Hash.Template.{
  reset, add_length, whole_blocks, update_rest, fill_buffer, update, length_bytes, pad_mark, pad,
  get_digest,
}
use drew.Hash.Template.Digest.{feed}
use drew.Hash.Md4.{f, g, h, op, calls, transform, md4}

abbrev abc : List (List ℕ)
abc = (0x61 ∷ 0x62 ∷ 0x63 ∷ []) ∷ []

md4_of_abc :
    (get_digest md4 (feed md4 (reset md4) abc) 16 false).0
    ≡ 0xa4 ∷ 0x48 ∷ 0x01 ∷ 0x7a ∷ 0xaf ∷ 0x21 ∷ 0xd8 ∷ 0x52 ∷ 0x5f ∷ 0xc1 ∷ 0x0a ∷ 0xe8 ∷ 0x7a
      ∷ 0xa6 ∷ 0x72 ∷ 0x9d ∷ []
unfolding f g h op calls transform rotate_left add_word copy_in copy_out load store host_load
    host_store overwrite reset add_length whole_blocks update_rest fill_buffer update length_bytes
    pad_mark pad get_digest feed
md4_of_abc = refl

md4_of_nothing :
    (get_digest md4 (reset md4) 16 false).0
    ≡ 0x31 ∷ 0xd6 ∷ 0xcf ∷ 0xe0 ∷ 0xd1 ∷ 0x6a ∷ 0xe9 ∷ 0x31 ∷ 0xb7 ∷ 0x3c ∷ 0x59 ∷ 0xd7 ∷ 0xe0
      ∷ 0xc0 ∷ 0x89 ∷ 0xc0 ∷ []
unfolding f g h op calls transform rotate_left add_word copy_in copy_out load store host_load
    host_store overwrite reset length_bytes pad_mark pad get_digest
md4_of_nothing = refl
