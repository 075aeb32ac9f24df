-- ===== src/Kdf/Pbkdf2/OverHmac.antt =====
-- PBKDF2 over HMAC over a hash of the template.
use drew.Prelude.{
  ℕ, ◌+◌, ◌-◌, ◌/◌, ◌%◌, ◌^◌, ◌≤◌, ◌<◌, ◌≡◌, refl, sym, ap, ◌∙◌, none, some, true, false, ltb, List,
  length, take, arith,
}
use drew.Hash.Template.{Algorithm}
use drew.Mode.Status.{ok}
use drew.Mac.Hmac.{Hmac, fresh}
use drew.Mac.Hmac.Spec.{IsSound, hmac}
use drew.Mac.Hmac.Generate.{hmac_prf, IsHmacKey, hmac-IsPrf, fresh-IsReady}
use drew.Kdf.Pbkdf2.{Pbkdf, set_salt, set_count, init, generate}
use drew.Kdf.Pbkdf2 as Pbkdf2
use drew.Kdf.Pbkdf2.Spec.{pieces}
use drew.Kdf.Pbkdf2.Generate.{pbkdf_generate_lem}

init_lem :
    (a : Algorithm) (c : Pbkdf Hmac) (stack buf : List ℕ)
    → IsSound a
    → init (hmac_prf a stack buf) (some (fresh a 0)) true ≡ (ok, some c)
    → c ≡ Pbkdf2.fresh (hmac_prf a stack buf) (fresh a 0)
unfolding init
init_lem a c stack buf sound begun =
    let small = sound.digest_small in
    let block = sound.block_small in
    let go : ltb 256 a.digest_size ≡ false = ground arith in
    let made : Pbkdf Hmac = Pbkdf2.fresh (hmac_prf a stack buf) (fresh a 0) in
    let came : init (hmac_prf a stack buf) (some (fresh a 0)) true ≡ (ok, some made) = rw go refl in
    ap (λ r. elim r.1 [ none ↦ made | some x ↦ x ]) (sym begun ∙ came)

-- PBKDF2 in a context that `pbkdf_init` has made with HMAC over a sound algorithm whose words are of two
-- bytes or more, where `hmac_init` was given no `tagLength`; for a password that is not empty and is shorter
-- than the range of a word, a count and an `outlen` that are not 0, of which `outlen` and a digest more stay
-- below 2^64, and any salt: `pbkdf_generate` returns 0 and derives exactly `outlen` bytes, the key of RFC 2898
-- with HMAC of RFC 2104 for the salt cut to its length modulo 256. From 2^32 blocks on, where the RFC has an
-- error, the index of a block is written modulo 2^32.
pub pbkdf2_hmac_lem :
    (a : Algorithm) (c : Pbkdf Hmac) (stack buf password salt : List ℕ) (count outlen : ℕ)
    → IsSound a
    → IsHmacKey a password
    → init (hmac_prf a stack buf) (some (fresh a 0)) true ≡ (ok, some c)
    → 260 ≤ 256 ^ a.word_size
    → 0 < count
    → 0 < outlen
    → outlen + a.digest_size < 2 ^ 64
    → (let r =
          generate (hmac_prf a stack buf) outlen password (set_count count (set_salt salt c)) in
        (r.0 ≡ ok)
        × (r.1
            ≡ take outlen (
                pieces
                  (hmac a password)
                  (take (length salt % 2 ^ 8) salt)
                  count
                  ((outlen - 1) / a.digest_size + 1)
                  0))
        × (length r.1 ≡ outlen))
unfolding Pbkdf2.fresh
pbkdf2_hmac_lem a c stack buf password salt count outlen sound k begun room some_count positive
      fits =
    let made = init_lem a c stack buf sound begun in
    pbkdf_generate_lem (hmac_prf a stack buf) (256 ^ a.word_size) (IsHmacKey a) (hmac a)
      (hmac-IsPrf a sound stack buf) c password salt count outlen k
      (rw made (fresh-IsReady a sound stack buf)) (rw made refl) room some_count positive fits
