-- ===== src/Hash/Template/Tests.antt =====
-- The template with SHA-1 in it: "abc" in two updates, and the theorems at it.
use drew.Prelude.{
  ℕ, ◌+◌, ◌*◌, ◌%◌, ◌^◌, ◌<◌, ◌≡◌, refl, false, List, [], ◌∷◌, length, take, replicate, arith,
}
use drew.Prelude.Loops.{for_up}
use drew.Util.Rotate.{rotate_left, add_word}
use drew.Util.Endian.{big, copy_in, copy_out, load, store, host_load, host_store}
use drew.Hash.Sha1.{
  op, ff, gg, hh, ii, round_function, expansion, forward_round, forward_transform, transform,
  initial_hash,
}
use drew.Hash.Sha1.Class.{sha}
use drew.Util.Memory.{overwrite}
use drew.Hash.Template.{
  Algorithm, Hash, reset, add_length, whole_blocks, update_rest, fill_buffer, update, length_bytes,
  pad_mark, pad, get_digest,
}
use drew.Hash.Template.Absorb.{absorb}
use drew.Hash.Template.Length.{count, IsCounted, add_length_lem}
use drew.Hash.Template.Update.{view, update_lem}
use drew.Hash.Template.Fast.{whole_blocks_enough}
use drew.Hash.Template.Digest.{feed, join, start, padded, digest_lem}

abbrev sha1 : Algorithm
sha1 = sha 1

abbrev ab_c : List (List ℕ)
ab_c = (0x61 ∷ 0x62 ∷ []) ∷ (0x63 ∷ []) ∷ []

abbrev sha1_abc : List ℕ
sha1_abc =
    0xa9 ∷ 0x99 ∷ 0x3e ∷ 0x36 ∷ 0x47 ∷ 0x06 ∷ 0x81 ∷ 0x6a ∷ 0xba ∷ 0x3e ∷ 0x25 ∷ 0x71 ∷ 0x78 ∷ 0x50
    ∷ 0xc2 ∷ 0x6c ∷ 0x9c ∷ 0xd0 ∷ 0xd8 ∷ 0x9d ∷ []

digest_abc : (get_digest sha1 (feed sha1 (reset sha1) ab_c) 20 false).0 ≡ sha1_abc
unfolding transform forward_transform forward_round op ff gg hh ii round_function expansion for_up
    rotate_left add_word copy_in copy_out load store host_load host_store overwrite reset add_length
    whole_blocks update_rest fill_buffer update length_bytes pad_mark pad get_digest feed
digest_abc = refl

digest_lem_example :
    (get_digest sha1 (feed sha1 (reset sha1) ab_c) 20 false).0
    ≡ take 20 (copy_out big 4 (absorb sha1 (start sha1) (padded sha1 (join ab_c))).hash)
digest_lem_example = digest_lem sha1 ab_c 20 (omega arith)

-- The low word is about to wrap.
abbrev nearly_full : Hash
nearly_full = record { hash = initial_hash; buf = replicate 64 0; len0 = 0xffffffc0; len1 = 7 }

nearly_full-IsCounted : IsCounted sha1 nearly_full
nearly_full-IsCounted = record { low = omega arith; high = omega arith }

low_wraps : (add_length sha1 100 nearly_full).len1 ≡ 8
unfolding add_length
low_wraps = refl

add_length_lem_example :
    count sha1 (add_length sha1 100 nearly_full)
    ≡ (count sha1 nearly_full + 100) % (256 ^ 4 * 256 ^ 4)
add_length_lem_example = add_length_lem sha1 nearly_full 100 nearly_full-IsCounted (omega arith)

update_lem_example :
    (view sha1 (update sha1 nearly_full (0x61 ∷ []))
      ≡ absorb sha1 (view sha1 nearly_full) (0x61 ∷ []))
    × (length (update sha1 nearly_full (0x61 ∷ [])).buf ≡ 64)
update_lem_example = update_lem sha1 nearly_full (0x61 ∷ []) refl

whole_blocks_enough_example :
    (whole_blocks sha1 2 initial_hash (replicate 130 5)
      ≡ whole_blocks sha1 130 initial_hash (replicate 130 5))
    × (length (whole_blocks sha1 2 initial_hash (replicate 130 5)).1 < 64)
whole_blocks_enough_example =
    whole_blocks_enough sha1 2 initial_hash (replicate 130 5) (omega arith)
