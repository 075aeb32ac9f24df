-- ===== src/Mac/Hmac/Reset.antt =====
-- `hmac_reset`: what it restores, and what neither it nor `hmac_final` does.
use mathlib.Core.List.{append-nil}
use drew.Prelude.{
  ℕ, ◌^◌, ◌≤◌, ◌<◌, ◌≡◌, refl, sym, ap, ◌∙◌, inl, inr, true, false, List, [], ◌++◌, map, bit_xor,
  replicate, ◌-◌, length, take, ltb, ◌==◌, Bool-cases, arith,
}
use drew.Util.Memory.{overwrite, overwrite-overwrite}
use drew.Hash.Template.{Algorithm, reset}
use drew.Hash.Template.Digest.{feed, join, AllShort}
use drew.Mac.Hmac.{Hmac, set_key, reset_mac, final}
use drew.Mac.Hmac.Spec.{IsSound, hash_of, short_key, key_block}
use drew.Mac.Hmac.Keyed.{
  IsReady, updates, updates_lem, keyed, keyed-IsReady, holding-IsStored, set_key_lem,
  length-short_key, length-hash_of, with_pads,
}
use drew.Mac.Hmac.Tag.{final_lem}

-- Both hashes as `reset` leaves them.
abbrev pub cleared : Algorithm → Hmac → Hmac
cleared a c = record c { outside = reset a; inside = reset a }

module _ (a : Algorithm) (sound : IsSound a) where
  -- A key that has been hashed is short.
  short_key_twice :
      (key : List ℕ)
      → length key < 256 ^ a.word_size
      → short_key a (short_key a key) ≡ short_key a key
  unfolding short_key
  short_key_twice key h =
      let fits = length-short_key a sound key h in
      let short : ltb a.block_size (length (short_key a key)) ≡ false = ground arith in
      rw short refl

  short_key_some :
      (key : List ℕ)
      → length key < 256 ^ a.word_size
      → 0 < length key
      → 0 < length (short_key a key)
  unfolding short_key
  short_key_some key h some =
      let size = length-hash_of a sound key h in
      let digest = sound.digest_some in
      elim (Bool-cases (ltb a.block_size (length key))) [
        | inl long ↦ rw long (omega arith)
        | inr short ↦ rw short some
      ]

  -- `hmac_final` leaves the key and two empty hashes.
  final_left :
      (key : List ℕ) (c : Hmac) (chunks : List (List ℕ)) (stack : List ℕ)
      → length key < 256 ^ a.word_size
      → IsReady a c
      → (final a stack (updates a (set_key a key c) chunks)).1 ≡ cleared a (keyed a sound key c)
  unfolding final
  final_left key c chunks stack h r =
      ap (λ s. (final a stack (updates a s chunks)).1) (set_key_lem a sound key c h r)
      ∙ ap (cleared a) (updates_lem a (keyed a sound key c) chunks)

  -- The context that a key which is not longer than a block makes.
  abbrev made : Hmac → List ℕ → Hmac
  made c s =
      let block : List ℕ = s ++ replicate (a.block_size - length s) 0 in
      with_pads a sound (record c { keybuf = overwrite c.keybuf 0 s; keybufsz = length s })
        (map (bit_xor 0x5c) block) (map (bit_xor 0x36) block)

  -- The key in `keybuf` makes the same context again.
  keyed_again :
      (key : List ℕ) (c : Hmac)
      → length key < 256 ^ a.word_size
      → keyed a sound (short_key a key) (cleared a (keyed a sound key c)) ≡ keyed a sound key c
  unfolding key_block
  keyed_again key c h =
      ap (made (cleared a (keyed a sound key c))) (short_key_twice key h)
      ∙ ap (λ b. record (keyed a sound key c) { keybuf = b })
          (overwrite-overwrite c.keybuf (short_key a key) (short_key a key) refl)

  pub restored :
      (key : List ℕ) (c : Hmac)
      → IsReady a c
      → length key < 256 ^ a.word_size
      → 0 < length key
      → reset_mac a (cleared a (keyed a sound key c)) ≡ keyed a sound key c
  unfolding reset_mac
  restored key c r h some =
      let held : (length (short_key a key) == 0) ≡ false =
        let n = short_key_some key h some in ground arith in
      let fits = length-short_key a sound key h in
      let room = sound.block_short in
      let k = keyed-IsReady a sound key c h r in
      rw held (
        ap (λ t. set_key a t (cleared a (keyed a sound key c)))
          ((holding-IsStored a sound key c h r).front)
        ∙ set_key_lem a sound (short_key a key) (cleared a (keyed a sound key c)) (omega arith)
            (record { block = k.block; digest = k.digest; array = k.array })
        ∙ keyed_again key c h)

-- For a sound algorithm, whose digest is not longer than a block, and a key that is not empty and is shorter
-- than the range of a word, in a ready context: `hmac_reset` after `hmac_setkey`, any updates and
-- `hmac_final` leaves the context as `hmac_setkey` left it. The stored key, hashed if it was long, is set
-- again, and is not hashed again.
pub hmac_reset_lem :
    (a : Algorithm) (key : List ℕ) (c : Hmac) (chunks : List (List ℕ)) (stack : List ℕ)
    → IsSound a
    → IsReady a c
    → length key < 256 ^ a.word_size
    → 0 < length key
    → reset_mac a (final a stack (updates a (set_key a key c) chunks)).1 ≡ set_key a key c
hmac_reset_lem a key c chunks stack sound r h some =
    ap (reset_mac a) (final_left a sound key c chunks stack h r)
    ∙ restored a sound key c r h some
    ∙ sym (set_key_lem a sound key c h r)

-- The tag of a context whose hashes have not been given a key.
unkeyed :
    (a : Algorithm) (c : Hmac) (chunks : List (List ℕ)) (stack : List ℕ)
    → IsSound a
    → c.digestsz ≡ a.digest_size
    → AllShort a chunks
    → c.taglen ≤ a.digest_size
    → (final a stack (updates a (cleared a c) chunks)).0
      ≡ take c.taglen (hash_of a (hash_of a (join chunks)))
unfolding feed join
unkeyed a c chunks stack sound n p t =
    ap (λ s. (final a stack s).0) (updates_lem a (cleared a c) chunks)
    ∙ final_lem a sound c stack [] chunks n t tt p
    ∙ ap (λ d. take c.taglen (hash_of a d)) (append-nil (hash_of a (join chunks)))

-- For a sound algorithm, in a ready context whose tag is not longer than the digest, a key shorter than the
-- range of a word, any first message, and a message in pieces that are each shorter than that range:
-- `hmac_final` leaves hashes without the key, and `hmac_reset` does not set an empty key again. The tag of
-- the message when it follows `hmac_final` of the first one without a reset, and its tag after `hmac_setkey`
-- with an empty key and `hmac_reset`, are the first `taglen` bytes of the hash of its hash, in which there is
-- no key.
pub hmac_forgets_key :
    (a : Algorithm) (key : List ℕ) (c : Hmac) (first chunks : List (List ℕ)) (stack : List ℕ)
    → IsSound a
    → IsReady a c
    → length key < 256 ^ a.word_size
    → AllShort a chunks
    → c.taglen ≤ a.digest_size
    → ((final a stack (updates a (final a stack (updates a (set_key a key c) first)).1 chunks)).0
        ≡ take c.taglen (hash_of a (hash_of a (join chunks))))
      × ((final a stack (updates a (reset_mac a (set_key a [] c)) chunks)).0
          ≡ take c.taglen (hash_of a (hash_of a (join chunks))))
unfolding reset_mac short_key
hmac_forgets_key a key c first chunks stack sound r h p t =
    let small = sound.block_short in
    let none : ltb a.block_size 0 ≡ false = ground arith in
    let empty : length (short_key a []) ≡ 0 = rw none refl in
    let skipped : (length (short_key a []) == 0) ≡ true = ground arith in
    (
      ap (λ s. (final a stack (updates a s chunks)).0) (final_left a sound key c first stack h r)
          ∙ unkeyed a (keyed a sound key c) chunks stack sound (r.digest) p t,
      ap (λ s. (final a stack (updates a (reset_mac a s) chunks)).0)
            (set_key_lem a sound [] c (omega arith) r)
          ∙ rw skipped (unkeyed a (keyed a sound [] c) chunks stack sound (r.digest) p t),
    )
