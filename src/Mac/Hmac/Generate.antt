-- ===== src/Mac/Hmac/Generate.antt =====
-- HMAC as a pseudorandom function for key derivation: the table `hmack_functbl`.
use drew.Prelude.{
  ℕ, ◌^◌, ◌≤◌, ◌<◌, ◌≡◌, refl, sym, ap, ap₂, ◌∙◌, inl, inr, true, false, List, [], ◌∷◌, ◌++◌,
  length, take, map, bit_xor, ltb, ◌==◌, length-take, Bool-cases, none, zero, suc, arith,
}
use mathlib.Core.List.{append-nil}
use drew.Hash.Template.{Algorithm, reset}
use drew.Hash.Template.Digest.{feed, join, AllShort}
use drew.Mac.Hmac.{Hmac, fresh, set_key, reset_mac, update_mac, final, generate}
use drew.Mac.Hmac.Spec.{IsSound, hash_of, key_block, hmac}
use drew.Mac.Hmac.Keyed.{
  IsReady, keyed, keyed-IsReady, set_key_lem, length-short_key, length-digest, digest-feed,
  pad_short,
}
use drew.Mac.Hmac.Tag.{keyed-final}
use drew.Mac.Hmac.Reset.{cleared, restored}
use drew.Kdf.Prf.{Prf, IsPrf}

-- The table, over a hash whose `info` gives its size, with what the arrays on the stack have in them at first.
abbrev pub hmac_prf : Algorithm → List ℕ → List ℕ → Prf Hmac
hmac_prf a stack buf = record {
  reset = reset_mac a;
  set_key = set_key a;
  generate = generate a stack buf;
  size = a.digest_size;
  info_error = none;
}

-- Keys that a reset can restore.
abbrev pub IsHmacKey : Algorithm → List ℕ → Type 0
IsHmacKey a key = (length key < 256 ^ a.word_size) × (0 < length key)

-- A context whose tag is the whole digest, and whose key is no longer than a block.
pub record IsWhole (a : Algorithm) (c : Hmac) : Type 0 where
  pub ready : IsReady a c
  pub whole : c.taglen ≡ a.digest_size
  pub fits : c.keybufsz ≤ a.block_size

-- A context that holds the key, whatever its two hashes have been given.
pub record Holds (a : Algorithm) (sound : IsSound a) (key : List ℕ) (s : Hmac) : Type 0 where
  pub first : Hmac
  pub first-IsWhole : IsWhole a first
  pub held : cleared a s ≡ cleared a (keyed a sound key first)

take_twice : (n : ℕ) (xs : List ℕ) → take n (take n xs) ≡ take n xs
take_twice zero xs = refl
take_twice (suc n) [] = refl
take_twice (suc n) (x ∷ xs) = ap (λ t. x ∷ t) (take_twice n xs)

module _ (a : Algorithm) (sound : IsSound a) where
  keyed-IsWhole :
      (key : List ℕ) (s : Hmac)
      → length key < 256 ^ a.word_size
      → IsWhole a s
      → IsWhole a (keyed a sound key s)
  keyed-IsWhole key s h w = record {
    ready = keyed-IsReady a sound key s h (w.ready);
    whole = w.whole;
    fits = length-short_key a sound key h;
  }

  reset-IsWhole : (s : Hmac) → IsWhole a s → IsWhole a (reset_mac a s)
  unfolding reset_mac
  reset-IsWhole s w =
      let held : List ℕ = take s.keybufsz s.keybuf in
      let fits = w.fits in
      let room = sound.block_short in
      let short : length held < 256 ^ a.word_size =
        omega (arith, length-take s.keybufsz s.keybuf) in
      let ready : IsReady a (cleared a s) = record {
        block = w.ready.block;
        digest = w.ready.digest;
        array = w.ready.array;
      } in
      let bare : IsWhole a (cleared a s) = record {
        ready = ready;
        whole = w.whole;
        fits = w.fits;
      } in
      elim (Bool-cases (s.keybufsz == 0)) [
        | inl unset ↦ rw unset bare
        | inr some ↦ rw some (
            rw (set_key_lem a sound held (cleared a s) short ready)
              (keyed-IsWhole held (cleared a s) short bare))
      ]

  -- The digest of pieces has its size.
  length-pieces :
      (chunks : List (List ℕ))
      → AllShort a chunks
      → length (hash_of a (join chunks)) ≡ a.digest_size
  length-pieces chunks h =
      sym (ap length (digest-feed a sound chunks h))
      ∙ length-digest a sound (feed a (reset a) chunks)

  length-hmac :
      (key msg : List ℕ)
      → length key < 256 ^ a.word_size
      → length msg < 256 ^ a.word_size
      → length (hmac a key msg) ≡ a.digest_size
  unfolding hmac join
  length-hmac key msg h m =
      let inner : List ℕ = map (bit_xor 0x36) (key_block a key) in
      let outer : List ℕ = map (bit_xor 0x5c) (key_block a key) in
      let small = sound.digest_small in
      let room = sound.block_short in
      let first : length (hash_of a (inner ++ msg)) ≡ a.digest_size =
        ap (λ t. length (hash_of a (inner ++ t))) (sym (append-nil msg))
        ∙ length-pieces (inner ∷ msg ∷ []) (pad_short a sound 0x36 key h, (m, tt)) in
      ap (λ t. length (hash_of a (outer ++ t))) (sym (append-nil (hash_of a (inner ++ msg))))
      ∙ length-pieces (outer ∷ hash_of a (inner ++ msg) ∷ [])
          (pad_short a sound 0x5c key h, (omega arith, tt))

  -- A tag of the whole digest is not cut.
  shortened : (key msg : List ℕ) → take a.digest_size (hmac a key msg) ≡ hmac a key msg
  unfolding hmac hash_of
  shortened key msg = take_twice a.digest_size _

module _ (a : Algorithm) (sound : IsSound a) (stack buf : List ℕ) where
  set_key-Holds :
      (key : List ℕ) (s : Hmac)
      → IsHmacKey a key
      → IsWhole a s
      → Holds a sound key (set_key a key s)
  set_key-Holds key s k h = record {
    first = s;
    first-IsWhole = h;
    held = ap (cleared a) (set_key_lem a sound key s (k.0) (h.ready));
  }

  -- A reset makes the context that the key makes.
  reset-held :
      (key : List ℕ) (s : Hmac)
      → IsHmacKey a key
      → (h : Holds a sound key s) → reset_mac a s ≡ keyed a sound key (h.first)
  unfolding reset_mac
  reset-held key s k h =
      ap (reset_mac a) (h.held) ∙ restored a sound key (h.first) (h.first-IsWhole.ready) (k.0) (k.1)

  generate_whole :
      (key msg : List ℕ) (c : Hmac)
      → IsHmacKey a key
      → IsWhole a c
      → length msg < 256 ^ a.word_size
      → (let r = generate a stack buf a.digest_size msg (keyed a sound key c) in
          (r.1 ≡ hmac a key msg) × (r.2 ≡ cleared a (keyed a sound key c)))
  unfolding generate final update_mac join
  generate_whole key msg c k h m =
      let size = h.ready.digest in
      let s : Hmac = keyed a sound key c in
      let fits : ltb c.digestsz a.digest_size ≡ false = ground arith in
      let all : (a.digest_size == c.digestsz) ≡ true = ground arith in
      let tag : (final a stack (update_mac a msg s)).0 ≡ hmac a key msg =
        keyed-final a sound key c (msg ∷ []) stack (k.0) (m, tt) size
          (let w = h.whole in omega arith)
        ∙ ap₂ (λ n t. take n (hmac a key t)) (h.whole) (append-nil msg)
        ∙ shortened a sound key msg in
      rw (fits, all) (tag, refl)

  generate-Holds :
      (key msg : List ℕ) (s : Hmac)
      → IsHmacKey a key
      → Holds a sound key s
      → length msg < 256 ^ a.word_size
      → (let r = generate a stack buf a.digest_size msg (reset_mac a s) in
          (r.1 ≡ hmac a key msg) × Holds a sound key r.2)
  generate-Holds key msg s k h m = rw (reset-held key s k h) (
      let (tag, left) = generate_whole key msg (h.first) k (h.first-IsWhole) m in
      (
        tag,
        record { first = h.first; first-IsWhole = h.first-IsWhole; held = ap (cleared a) left },
      ))

  -- HMAC over a sound algorithm keeps the contract of a pseudorandom function.
  pub hmac-IsPrf : IsPrf (hmac_prf a stack buf) (256 ^ a.word_size) (IsHmacKey a) (hmac a)
  hmac-IsPrf = record {
    IsReady = IsWhole a;
    IsKeyed = Holds a sound;
    size_some = sound.digest_some;
    size_short = let small = sound.digest_small in let room = sound.block_short in omega arith;
    reset-IsReady = reset-IsWhole a sound;
    set_key-IsKeyed = set_key-Holds;
    generate_lem = λ key msg s k h m. (generate-Holds key msg s k h m).0;
    generate-IsKeyed = λ key msg s k h m. (generate-Holds key msg s k h m).1;
    length-f = λ key msg k m. length-hmac a sound key msg (k.0) m;
  }

-- A context as `hmac_init` leaves it without a `tagLength`, after the reset of `pbkdf_init`.
pub fresh-IsReady :
    (a : Algorithm) (sound : IsSound a) (stack buf : List ℕ)
    → (hmac-IsPrf a sound stack buf).IsReady (reset_mac a (fresh a 0))
unfolding fresh hmac-IsPrf
fresh-IsReady a sound stack buf = reset-IsWhole a sound (fresh a 0) (record {
  ready = record { block = refl; digest = refl; array = refl };
  whole = refl;
  fits = omega arith;
})
