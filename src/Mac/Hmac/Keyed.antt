-- ===== src/Mac/Hmac/Keyed.antt =====
-- What `hmac_setkey` leaves in the context: the key in `keybuf`, and both hashes begun with a block made
-- of it.
use mathlib.Core.List.{map-append, append-nil}
use drew.Prelude.{
  ℕ, zero, suc, ◌-◌, ◌*◌, ◌^◌, ◌≤◌, ◌<◌, min, ◌≡◌, refl, sym, ap, ap₂, ◌∙◌, inl, inr, false, List,
  [], ◌∷◌, ◌++◌, map, bit_xor, length, take, replicate, length-append, length-take,
  length-replicate, length-map, ltb, Bool-cases, arith,
}
use drew.Util.Memory.{overwrite, overwrite-length, take-overwrite_front}
use drew.Util.Endian.{copy_out}
use drew.Util.Endian.Laws.{take-whole}
use drew.Util.Endian.Arrays.{length-copy_out}
use drew.Hash.Template.{Algorithm, Hash, reset, update, pad, get_digest}
use drew.Hash.Template.Digest.{feed, join, AllShort, digest_lem}
use drew.Mac.Hmac.{Hmac, store_key, key_pad, set_key, update_mac}
use drew.Mac.Hmac.Spec.{IsSound, hash_of, short_key, key_block}

-- The context of `a` between calls, whatever key it has.
pub record IsReady (a : Algorithm) (c : Hmac) : Type 0 where
  pub block : c.blksz ≡ a.block_size
  pub digest : c.digestsz ≡ a.digest_size
  pub array : length c.keybuf ≡ 256

-- `keybuf` holds the key.
pub record IsStored (a : Algorithm) (key : List ℕ) (c : Hmac) : Type 0 where
  pub front : take c.keybufsz c.keybuf ≡ short_key a key
  pub size : c.keybufsz ≡ length (short_key a key)
  pub fits : c.keybufsz ≤ a.block_size
  pub ready : IsReady a c

-- Calls of `hmac_update`.
abbrev pub updates : Algorithm → Hmac → List (List ℕ) → Hmac
updates a c [] = c
updates a c (x ∷ xs) = updates a (update_mac a x c) xs

pub updates_lem :
    (a : Algorithm) (c : Hmac) (chunks : List (List ℕ))
    → updates a c chunks ≡ record c { inside = feed a c.inside chunks }
unfolding update_mac feed
updates_lem a c [] = refl
updates_lem a c (x ∷ xs) = updates_lem a (update_mac a x c) xs

map-replicate : (f : ℕ → ℕ) (n x : ℕ) → map f (replicate n x) ≡ replicate n (f x)
map-replicate f zero x = refl
map-replicate f (suc n) x = ap (λ t. f x ∷ t) (map-replicate f n x)

-- The front of an array after a copy of `n` bytes to it.
pub copied : (n : ℕ) (buf xs : List ℕ) → length xs ≡ n → take n (overwrite buf 0 xs) ≡ xs
copied n buf xs h = take-overwrite_front n buf xs (omega arith) ∙ take-whole n xs h

module _ (a : Algorithm) (sound : IsSound a) where
  pub length-digest : (s : Hash) → length (get_digest a s a.digest_size false).0 ≡ a.digest_size
  unfolding get_digest pad
  length-digest s =
      let words = (pad a s).hash in
      let all = length-copy_out a.endian a.word_size words in
      let some = length-take a.digest_size (copy_out a.endian a.word_size words) in
      let enough : a.digest_size ≤ length words * a.word_size = sound.words_enough _ _ in
      omega arith

  -- The digest of a message in pieces.
  pub digest-feed :
      (chunks : List (List ℕ))
      → AllShort a chunks
      → (get_digest a (feed a (reset a) chunks) a.digest_size false).0 ≡ hash_of a (join chunks)
  unfolding hash_of
  digest-feed chunks h = digest_lem a chunks a.digest_size h

  pub short_digest :
      (key : List ℕ)
      → length key < 256 ^ a.word_size
      → (get_digest a (update a (reset a) key) a.digest_size false).0 ≡ hash_of a key
  unfolding feed join
  short_digest key h = digest-feed (key ∷ []) (h, tt) ∙ ap (hash_of a) (append-nil key)

  pub length-hash_of :
      (key : List ℕ) → length key < 256 ^ a.word_size → length (hash_of a key) ≡ a.digest_size
  length-hash_of key h =
      sym (ap length (short_digest key h)) ∙ length-digest (update a (reset a) key)

  pub length-short_key :
      (key : List ℕ) → length key < 256 ^ a.word_size → length (short_key a key) ≤ a.block_size
  unfolding short_key
  length-short_key key h =
      let size = length-hash_of key h in
      let small = sound.digest_small in
      elim (Bool-cases (ltb a.block_size (length key))) [
        | inl long ↦ rw long (omega arith)
        | inr short ↦ rw short (ground arith)
      ]

  -- The context with a key in `keybuf`.
  abbrev pub holding : List ℕ → Hmac → Hmac
  holding key c = record c {
    keybuf = overwrite c.keybuf 0 (short_key a key);
    keybufsz = length (short_key a key);
  }

  pub store_key_lem :
      (key : List ℕ) (c : Hmac)
      → length key < 256 ^ a.word_size
      → IsReady a c
      → store_key a key c ≡ holding key c
  unfolding store_key short_key
  store_key_lem key c h r =
      let same : ltb c.blksz (length key) ≡ ltb a.block_size (length key) =
        ap (λ (n : ℕ). ltb n (length key)) (r.block) in
      elim (Bool-cases (ltb a.block_size (length key))) [
        | inl long ↦
            rw (same ∙ long, long)
              (ap₂ (λ d n. record c { keybuf = overwrite c.keybuf 0 d; keybufsz = n })
                (ap (λ n. (get_digest a (update a (reset a) key) n false).0) (r.digest)
                  ∙ short_digest key h)
                (r.digest ∙ sym (length-hash_of key h)))
        | inr short ↦ rw (same ∙ short, short) refl
      ]

  pub holding-IsStored :
      (key : List ℕ) (c : Hmac)
      → length key < 256 ^ a.word_size
      → IsReady a c
      → IsStored a key (holding key c)
  holding-IsStored key c h r =
      let fits = length-short_key key h in
      let small = sound.block_small in
      let room = r.array in
      record {
        front = copied (length (short_key a key)) c.keybuf (short_key a key) refl;
        size = refl;
        fits = fits;
        ready = record {
          block = r.block;
          digest = r.digest;
          array = overwrite-length c.keybuf 0 (short_key a key) (omega arith) ∙ r.array;
        };
      }

  -- A pad of the code is the key block of the definition with a byte added.
  key_pad_lem :
      (byte : ℕ) (key : List ℕ) (c : Hmac)
      → bit_xor byte 0 ≡ byte
      → IsStored a key c
      → key_pad a byte c ≡ map (bit_xor byte) (key_block a key)
  unfolding key_pad key_block
  key_pad_lem byte key c zero_byte s =
      let fits = s.fits in
      let block = s.ready.block in
      let all : min c.keybufsz c.blksz ≡ c.keybufsz = omega arith in
      let left : c.blksz - min c.keybufsz c.blksz ≡ a.block_size - length (short_key a key) =
        omega (arith, s.size) in
      ap₂ (λ x n. map (bit_xor byte) x ++ replicate n byte)
        (ap (λ n. take n c.keybuf) all ∙ s.front) left
      ∙ ap (λ t. map (bit_xor byte) (short_key a key) ++ t)
          (ap (replicate (a.block_size - length (short_key a key))) (sym zero_byte)
            ∙ sym (map-replicate (bit_xor byte) (a.block_size - length (short_key a key)) 0))
      ∙ sym (
          map-append (bit_xor byte) (short_key a key)
            (replicate (a.block_size - length (short_key a key)) 0))

  -- Both hashes begun with a block.
  abbrev pub with_pads : Hmac → List ℕ → List ℕ → Hmac
  with_pads c outpad inpad = record c {
    outside = update a (reset a) outpad;
    inside = update a (reset a) inpad;
  }

  -- The context after `hmac_setkey`.
  abbrev pub keyed : List ℕ → Hmac → Hmac
  keyed key c =
      with_pads (holding key c) (map (bit_xor 0x5c) (key_block a key))
        (map (bit_xor 0x36) (key_block a key))

  pub set_key_lem :
      (key : List ℕ) (c : Hmac)
      → length key < 256 ^ a.word_size
      → IsReady a c
      → set_key a key c ≡ keyed key c
  unfolding set_key
  set_key_lem key c h r =
      let s = holding-IsStored key c h r in
      ap (λ t. with_pads t (key_pad a 0x5c t) (key_pad a 0x36 t)) (store_key_lem key c h r)
      ∙ ap₂ (with_pads (holding key c)) (key_pad_lem 0x5c key (holding key c) refl s)
          (key_pad_lem 0x36 key (holding key c) refl s)

  pub keyed-IsReady :
      (key : List ℕ) (c : Hmac)
      → length key < 256 ^ a.word_size
      → IsReady a c
      → IsReady a (keyed key c)
  keyed-IsReady key c h r =
      let s = (holding-IsStored key c h r).ready in
      record { block = s.block; digest = s.digest; array = s.array }

  pub pad_short :
      (byte : ℕ) (key : List ℕ)
      → length key < 256 ^ a.word_size
      → length (map (bit_xor byte) (key_block a key)) < 256 ^ a.word_size
  unfolding key_block
  pad_short byte key h =
      let fits = length-short_key key h in
      let room = sound.block_short in
      let rest : ℕ = a.block_size - length (short_key a key) in
      let zeros : List ℕ = replicate rest 0 in
      let size : length zeros ≡ rest = length-replicate rest 0 in
      omega (
        arith,
        length-map (key_block a key) (bit_xor byte),
        length-append (short_key a key) zeros,
        size,
      )
