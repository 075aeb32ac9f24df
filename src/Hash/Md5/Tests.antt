-- ===== src/Hash/Md5/Tests.antt =====
-- MD5 of "abc" and of the empty message, by the template.
use drew.Prelude.{ℕ, ◌≡◌, refl, false, List, [], ◌∷◌}
use drew.Util.Memory.{overwrite}
use drew.Util.Rotate.{rotate_left, add_word, not_word}
use drew.Util.Endian.{copy_in, copy_out, load, store, host_load, host_store}
use drew.Hash.Template.{
  reset, add_length, whole_blocks, update_rest, fill_buffer, update, length_bytes, pad_mark, pad,
  get_digest,
}
use drew.Hash.Template.Digest.{feed}
use drew.Hash.Md5.{f, g, h, i, op, calls, transform, md5}

abbrev abc : List (List ℕ)
abc = (0x61 ∷ 0x62 ∷ 0x63 ∷ []) ∷ []

md5_of_abc :
    (get_digest md5 (feed md5 (reset md5) abc) 16 false).0
    ≡ 0x90 ∷ 0x01 ∷ 0x50 ∷ 0x98 ∷ 0x3c ∷ 0xd2 ∷ 0x4f ∷ 0xb0 ∷ 0xd6 ∷ 0x96 ∷ 0x3f ∷ 0x7d ∷ 0x28
      ∷ 0xe1 ∷ 0x7f ∷ 0x72 ∷ []
unfolding f g h i op calls transform rotate_left add_word not_word copy_in copy_out load store
    host_load host_store overwrite reset add_length whole_blocks update_rest fill_buffer update
    length_bytes pad_mark pad get_digest feed
md5_of_abc = refl

md5_of_nothing :
    (get_digest md5 (reset md5) 16 false).0
    ≡ 0xd4 ∷ 0x1d ∷ 0x8c ∷ 0xd9 ∷ 0x8f ∷ 0x00 ∷ 0xb2 ∷ 0x04 ∷ 0xe9 ∷ 0x80 ∷ 0x09 ∷ 0x98 ∷ 0xec
      ∷ 0xf8 ∷ 0x42 ∷ 0x7e ∷ []
unfolding f g h i op calls transform rotate_left add_word not_word copy_in copy_out load store
    host_load host_store overwrite reset length_bytes pad_mark pad get_digest
md5_of_nothing = refl
