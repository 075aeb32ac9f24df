-- ===== src/Hash/Sha512/Tests.antt =====
-- SHA-512 and SHA-384 of "abc", by the template.
use drew.Prelude.{ℕ, ◌≡◌, refl, false, List, [], ◌∷◌}
use drew.Prelude.Loops.{for_up}
use drew.Util.Memory.{overwrite}
use drew.Util.Rotate.{rotate_right, add_word, ternary_selection, ternary_majority}
use drew.Util.Endian.{copy_in, copy_out, load, store, host_load, host_store}
use drew.Hash.Template.{
  reset, add_length, whole_blocks, update_rest, fill_buffer, update, length_bytes, pad_mark, pad,
  get_digest,
}
use drew.Hash.Template.Digest.{feed}
use drew.Hash.Sha512.{
  upper_s0, upper_s1, s0, s1, round, first_round, round2, transform, sha512, sha384,
}

abbrev abc : List (List ℕ)
abc = (0x61 ∷ 0x62 ∷ 0x63 ∷ []) ∷ []

sha512_of_abc :
    (get_digest sha512 (feed sha512 (reset sha512) abc) 64 false).0
    ≡ 0xdd ∷ 0xaf ∷ 0x35 ∷ 0xa1 ∷ 0x93 ∷ 0x61 ∷ 0x7a ∷ 0xba ∷ 0xcc ∷ 0x41 ∷ 0x73 ∷ 0x49 ∷ 0xae
      ∷ 0x20 ∷ 0x41 ∷ 0x31 ∷ 0x12 ∷ 0xe6 ∷ 0xfa ∷ 0x4e ∷ 0x89 ∷ 0xa9 ∷ 0x7e ∷ 0xa2 ∷ 0x0a ∷ 0x9e
      ∷ 0xee ∷ 0xe6 ∷ 0x4b ∷ 0x55 ∷ 0xd3 ∷ 0x9a ∷ 0x21 ∷ 0x92 ∷ 0x99 ∷ 0x2a ∷ 0x27 ∷ 0x4f ∷ 0xc1
      ∷ 0xa8 ∷ 0x36 ∷ 0xba ∷ 0x3c ∷ 0x23 ∷ 0xa3 ∷ 0xfe ∷ 0xeb ∷ 0xbd ∷ 0x45 ∷ 0x4d ∷ 0x44 ∷ 0x23
      ∷ 0x64 ∷ 0x3c ∷ 0xe8 ∷ 0x0e ∷ 0x2a ∷ 0x9a ∷ 0xc9 ∷ 0x4f ∷ 0xa5 ∷ 0x4c ∷ 0xa4 ∷ 0x9f ∷ []
unfolding transform first_round round2 round upper_s0 upper_s1 s0 s1 for_up ternary_selection
    ternary_majority rotate_right add_word copy_in copy_out load store host_load host_store
    overwrite reset add_length whole_blocks update_rest fill_buffer update length_bytes pad_mark pad
    get_digest feed
sha512_of_abc = refl

sha384_of_abc :
    (get_digest sha384 (feed sha384 (reset sha384) abc) 48 false).0
    ≡ 0xcb ∷ 0x00 ∷ 0x75 ∷ 0x3f ∷ 0x45 ∷ 0xa3 ∷ 0x5e ∷ 0x8b ∷ 0xb5 ∷ 0xa0 ∷ 0x3d ∷ 0x69 ∷ 0x9a
      ∷ 0xc6 ∷ 0x50 ∷ 0x07 ∷ 0x27 ∷ 0x2c ∷ 0x32 ∷ 0xab ∷ 0x0e ∷ 0xde ∷ 0xd1 ∷ 0x63 ∷ 0x1a ∷ 0x8b
      ∷ 0x60 ∷ 0x5a ∷ 0x43 ∷ 0xff ∷ 0x5b ∷ 0xed ∷ 0x80 ∷ 0x86 ∷ 0x07 ∷ 0x2b ∷ 0xa1 ∷ 0xe7 ∷ 0xcc
      ∷ 0x23 ∷ 0x58 ∷ 0xba ∷ 0xec ∷ 0xa1 ∷ 0x34 ∷ 0xc8 ∷ 0x25 ∷ 0xa7 ∷ []
unfolding transform first_round round2 round upper_s0 upper_s1 s0 s1 for_up ternary_selection
    ternary_majority rotate_right add_word copy_in copy_out load store host_load host_store
    overwrite reset add_length whole_blocks update_rest fill_buffer update length_bytes pad_mark pad
    get_digest feed
sha384_of_abc = refl
