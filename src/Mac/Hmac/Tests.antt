-- ===== src/Mac/Hmac/Tests.antt =====
-- HMAC over MD5.
use drew.Prelude.{ℕ, ◌≡◌, refl, true, false, none, some, List, [], ◌∷◌, take, replicate, arith}
use drew.Util.Memory.{overwrite}
use drew.Util.Rotate.{rotate_left, add_word, not_word}
use drew.Util.Endian.{copy_in, copy_out, load, store, host_load, host_store}
use drew.Hash.Template.{
  reset, add_length, whole_blocks, update_rest, fill_buffer, update, length_bytes, pad_mark, pad,
  get_digest,
}
use drew.Hash.Template.Digest.{join}
use drew.Hash.Md5.{f, g, h, i, op, calls, transform, md5}
use drew.Mode.Status.{ok, failure, err_invalid, err_no_memory}
use drew.Mac.Hmac.{Hmac, fresh, init, store_key, key_pad, set_key, reset_mac, update_mac, final}
use drew.Mac.Hmac.Spec.{IsSound, hash_of, hmac}
use drew.Mac.Hmac.Keyed.{IsReady, updates}
use drew.Mac.Hmac.Tag.{hmac_lem}
use drew.Mac.Hmac.Reset.{hmac_reset_lem, hmac_forgets_key}

md5-IsSound : IsSound md5
unfolding transform
md5-IsSound = record {
  block_small = omega arith;
  block_short = omega arith;
  digest_small = omega arith;
  digest_some = omega arith;
  words_enough = λ state block. omega arith;
}

-- The context of `hmac_init`.
abbrev context : Hmac
context = fresh md5 0

context-IsReady : IsReady md5 context
unfolding fresh
context-IsReady = record { block = refl; digest = refl; array = refl }

abbrev key_11 : List ℕ
key_11 = replicate 16 0x0b

abbrev hi_there : List (List ℕ)
hi_there = (0x48 ∷ 0x69 ∷ []) ∷ (0x20 ∷ 0x54 ∷ 0x68 ∷ 0x65 ∷ 0x72 ∷ 0x65 ∷ []) ∷ []

abbrev stack : List ℕ
stack = replicate 256 0xcc

no_digest : init md5 false true 0 ≡ (failure err_invalid, none)
unfolding init
no_digest = refl

no_memory : init md5 true false 0 ≡ (failure err_no_memory, none)
unfolding init
no_memory = refl

begun : init md5 true true 0 ≡ (ok, some context)
unfolding init
begun = refl

tag_of_hi_there :
    (final md5 stack (updates md5 (set_key md5 key_11 context) hi_there)).0
    ≡ 0x92 ∷ 0x94 ∷ 0x72 ∷ 0x7a ∷ 0x36 ∷ 0x38 ∷ 0xbb ∷ 0x1c ∷ 0x13 ∷ 0xf4 ∷ 0x8e ∷ 0xf8 ∷ 0x15
      ∷ 0x8b ∷ 0xfc ∷ 0x9d ∷ []
unfolding f g h i op calls transform rotate_left add_word not_word copy_in copy_out load store
    host_load host_store overwrite reset add_length whole_blocks update_rest fill_buffer update
    length_bytes pad_mark pad get_digest fresh store_key key_pad set_key update_mac final
tag_of_hi_there = refl

hmac_lem_example :
    (final md5 stack (updates md5 (set_key md5 key_11 context) hi_there)).0
    ≡ take 16 (hmac md5 key_11 (join hi_there))
unfolding fresh
hmac_lem_example =
    hmac_lem md5 key_11 context hi_there stack md5-IsSound context-IsReady (omega arith)
      (omega arith) (omega arith)

hmac_reset_lem_example :
    reset_mac md5 (final md5 stack (updates md5 (set_key md5 key_11 context) hi_there)).1
    ≡ set_key md5 key_11 context
hmac_reset_lem_example =
    hmac_reset_lem md5 key_11 context hi_there stack md5-IsSound context-IsReady (omega arith)
      (omega arith)

hmac_forgets_key_example :
    ((final md5 stack (
        updates md5
          (final md5 stack (updates md5 (set_key md5 key_11 context) hi_there)).1
          hi_there)).0
      ≡ take 16 (hash_of md5 (hash_of md5 (join hi_there))))
    × ((final md5 stack (updates md5 (reset_mac md5 (set_key md5 [] context)) hi_there)).0
        ≡ take 16 (hash_of md5 (hash_of md5 (join hi_there))))
unfolding fresh
hmac_forgets_key_example =
    hmac_forgets_key md5 key_11 context hi_there hi_there stack md5-IsSound context-IsReady
      (omega arith) (omega arith) (omega arith)
