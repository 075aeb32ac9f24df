-- ===== src/Hash/Sha256/Tests.antt =====
-- SHA-256 and SHA-224 of "abc", by the template, in two updates.
use drew.Prelude.{ℕ, ◌≡◌, refl, false, List, [], ◌∷◌}
use drew.Prelude.Loops.{for_up}
use drew.Util.Rotate.{rotate_right, add_word, ternary_selection, ternary_majority}
use drew.Util.Endian.{copy_in, copy_out, load, store, host_load, host_store}
use drew.Util.Memory.{overwrite}
use drew.Hash.Template.{
  reset, add_length, whole_blocks, update_rest, fill_buffer, update, length_bytes, pad_mark, pad,
  get_digest,
}
use drew.Hash.Template.Digest.{feed}
use drew.Hash.Sha256.{
  upper_s0, upper_s1, s0, s1, round, expanded, first_round, round2, forward_transform, transform,
}
use drew.Hash.Sha256.Class.{sha256, sha224}

abbrev a_bc : List (List ℕ)
a_bc = (0x61 ∷ []) ∷ (0x62 ∷ 0x63 ∷ []) ∷ []

abbrev sha256_abc : List ℕ
sha256_abc =
    0xba ∷ 0x78 ∷ 0x16 ∷ 0xbf ∷ 0x8f ∷ 0x01 ∷ 0xcf ∷ 0xea ∷ 0x41 ∷ 0x41 ∷ 0x40 ∷ 0xde ∷ 0x5d ∷ 0xae
    ∷ 0x22 ∷ 0x23 ∷ 0xb0 ∷ 0x03 ∷ 0x61 ∷ 0xa3 ∷ 0x96 ∷ 0x17 ∷ 0x7a ∷ 0x9c ∷ 0xb4 ∷ 0x10 ∷ 0xff
    ∷ 0x61 ∷ 0xf2 ∷ 0x00 ∷ 0x15 ∷ 0xad ∷ []

abbrev sha224_abc : List ℕ
sha224_abc =
    0x23 ∷ 0x09 ∷ 0x7d ∷ 0x22 ∷ 0x34 ∷ 0x05 ∷ 0xd8 ∷ 0x22 ∷ 0x86 ∷ 0x42 ∷ 0xa4 ∷ 0x77 ∷ 0xbd ∷ 0xa2
    ∷ 0x55 ∷ 0xb3 ∷ 0x2a ∷ 0xad ∷ 0xbc ∷ 0xe4 ∷ 0xbd ∷ 0xa0 ∷ 0xb3 ∷ 0xf7 ∷ 0xe3 ∷ 0x6c ∷ 0x9d
    ∷ 0xa7 ∷ []

sha256_of_abc : (get_digest sha256 (feed sha256 (reset sha256) a_bc) 32 false).0 ≡ sha256_abc
unfolding transform forward_transform first_round round2 round upper_s0 upper_s1 s0 s1 expanded
    for_up ternary_selection ternary_majority rotate_right add_word copy_in copy_out load store
    host_load host_store overwrite reset add_length whole_blocks update_rest fill_buffer update
    length_bytes pad_mark pad get_digest feed
sha256_of_abc = refl

sha224_of_abc : (get_digest sha224 (feed sha224 (reset sha224) a_bc) 28 false).0 ≡ sha224_abc
unfolding transform forward_transform first_round round2 round upper_s0 upper_s1 s0 s1 expanded
    for_up ternary_selection ternary_majority rotate_right add_word copy_in copy_out load store
    host_load host_store overwrite reset add_length whole_blocks update_rest fill_buffer update
    length_bytes pad_mark pad get_digest feed
sha224_of_abc = refl
