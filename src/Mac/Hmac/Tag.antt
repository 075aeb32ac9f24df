-- ===== src/Mac/Hmac/Tag.antt =====
-- The tag: however the message is cut into updates, it is HMAC of the message.
use mathlib.Core.List.{append-nil}
use drew.Prelude.{
  ℕ, ◌^◌, ◌≤◌, ◌<◌, ◌≡◌, refl, sym, ap, ap₂, ◌∙◌, false, List, [], ◌∷◌, ◌++◌, map, bit_xor, length,
  take, arith,
}
use drew.Util.Memory.{overwrite, take-overwrite_front}
use drew.Hash.Template.{Algorithm, Hash, reset, update, get_digest}
use drew.Hash.Template.Digest.{feed, join, AllShort}
use drew.Mac.Hmac.{Hmac, set_key, final}
use drew.Mac.Hmac.Spec.{IsSound, hash_of, key_block, hmac}
use drew.Mac.Hmac.Keyed.{
  IsReady, updates, updates_lem, copied, length-digest, digest-feed, keyed, set_key_lem, pad_short,
}

feed-snoc :
    (a : Algorithm) (s : Hash) (chunks : List (List ℕ)) (d : List ℕ)
    → update a (feed a s chunks) d ≡ feed a s (chunks ++ d ∷ [])
unfolding feed
feed-snoc a s [] d = refl
feed-snoc a s (c ∷ cs) d = feed-snoc a (update a s c) cs d

AllShort-snoc :
    (a : Algorithm) (chunks : List (List ℕ)) (d : List ℕ)
    → AllShort a chunks
    → length d < 256 ^ a.word_size
    → AllShort a (chunks ++ d ∷ [])
AllShort-snoc a [] d p h = (h, tt)
AllShort-snoc a (c ∷ cs) d p h = (p.0, AllShort-snoc a cs d (p.1) h)

module _ (a : Algorithm) (sound : IsSound a) where
  -- `hmac_final` on two hashes that have been given messages: the outer one is given the digest of the
  -- inner one.
  pub final_lem :
      (c : Hmac) (stack : List ℕ) (outer inner : List (List ℕ))
      → c.digestsz ≡ a.digest_size
      → c.taglen ≤ a.digest_size
      → AllShort a outer
      → AllShort a inner
      → (final a stack
          (record c { outside = feed a (reset a) outer; inside = feed a (reset a) inner })).0
        ≡ take c.taglen (hash_of a (join (outer ++ hash_of a (join inner) ∷ [])))
  unfolding final
  final_lem c stack outer inner n t po pi =
      let first : (get_digest a (feed a (reset a) inner) c.digestsz false).0
          ≡ hash_of a (join inner) =
        ap (λ m. (get_digest a (feed a (reset a) inner) m false).0) n
        ∙ digest-feed a sound inner pi in
      let size : length (get_digest a (feed a (reset a) inner) c.digestsz false).0 ≡ c.digestsz =
        ap (λ m. length (get_digest a (feed a (reset a) inner) m false).0) n
        ∙ length-digest a sound (feed a (reset a) inner)
        ∙ sym n in
      let buf : List ℕ =
        overwrite stack 0 (get_digest a (feed a (reset a) inner) c.digestsz false).0 in
      let outside : Hash = update a (feed a (reset a) outer) (hash_of a (join inner)) in
      let long = length-digest a sound outside in
      ap₂
        (λ x m.
          take c.taglen
            (overwrite buf 0 (get_digest a (update a (feed a (reset a) outer) x) m false).0))
        (copied c.digestsz stack _ size ∙ first) n
      ∙ take-overwrite_front c.taglen buf (get_digest a outside a.digest_size false).0 (omega arith)
      ∙ ap (take c.taglen) (
          ap (λ h. (get_digest a h a.digest_size false).0)
            (feed-snoc a (reset a) outer (hash_of a (join inner)))
          ∙ digest-feed a sound (outer ++ hash_of a (join inner) ∷ []) (
              AllShort-snoc a outer (hash_of a (join inner)) po (
                let room = sound.block_short in
                let small = sound.digest_small in
                let digest = ap length (sym first) ∙ size in omega arith)))

  -- `hmac_final` after updates of a keyed context.
  pub keyed-final :
      (key : List ℕ) (c : Hmac) (chunks : List (List ℕ)) (stack : List ℕ)
      → length key < 256 ^ a.word_size
      → AllShort a chunks
      → c.digestsz ≡ a.digest_size
      → c.taglen ≤ a.digest_size
      → (final a stack (updates a (keyed a sound key c) chunks)).0
        ≡ take c.taglen (hmac a key (join chunks))
  unfolding hmac feed join
  keyed-final key c chunks stack h p n t =
      let inner : List ℕ = map (bit_xor 0x36) (key_block a key) in
      let outer : List ℕ = map (bit_xor 0x5c) (key_block a key) in
      ap (λ s. (final a stack s).0) (updates_lem a (keyed a sound key c) chunks)
      ∙ final_lem (keyed a sound key c) stack (outer ∷ []) (inner ∷ chunks) n t
          (pad_short a sound 0x5c key h, tt) (pad_short a sound 0x36 key h, p)
      ∙ ap (λ d. take c.taglen (hash_of a (outer ++ d)))
          (append-nil (hash_of a (inner ++ join chunks)))

-- For an algorithm whose blocks fit the array and a key and updates that are each shorter than the range
-- of a word: `hmac_setkey`, in a context with any key and any unfinished message, then the updates and
-- `hmac_final`, give the first `taglen` bytes of HMAC of the joined message, where a key of more than a
-- block is hashed first, for a tag that is not longer than the digest.
pub hmac_lem :
    (a : Algorithm) (key : List ℕ) (c : Hmac) (chunks : List (List ℕ)) (stack : List ℕ)
    → IsSound a
    → IsReady a c
    → length key < 256 ^ a.word_size
    → AllShort a chunks
    → c.taglen ≤ a.digest_size
    → (final a stack (updates a (set_key a key c) chunks)).0
      ≡ take c.taglen (hmac a key (join chunks))
hmac_lem a key c chunks stack sound r h p t =
    ap (λ s. (final a stack (updates a s chunks)).0) (set_key_lem a sound key c h r)
    ∙ keyed-final a sound key c chunks stack h p (r.digest) t
