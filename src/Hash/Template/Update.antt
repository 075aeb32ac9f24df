-- ===== src/Hash/Template/Update.antt =====
-- `Update` absorbs its message byte by byte, wherever in a block it starts and ends.
use native.Mathlib.Nat.{mod-lt, mod-eq_of_lt, add-mod_right}
use drew.Prelude.{
  ℕ, ◌+◌, ◌-◌, ◌%◌, ◌≤◌, ◌<◌, min, ◌≡◌, ◌⊎◌, inl, inr, refl, sym, ap, ◌∙◌, true, false, List, [],
  length, take, drop, length-take, length-drop, take-append-drop, ◌==◌, Bool-cases, arith,
}
use drew.Util.Endian.Laws.{take-whole}
use drew.Util.Memory.{overwrite, drop-whole, overwrite-length, take-overwrite, overwrite_to_end}
use drew.Hash.Template.{Algorithm, Hash, add_length, whole_blocks, update_rest, fill_buffer, update}
use drew.Hash.Template.Absorb.{
  Absorbed, absorb, absorb-append, absorb_within, absorb_block, whole_blocks_lem, absorb-length,
}
use drew.Hash.Template.Length.{add_length-offset}

-- What the specification sees of a hash: the bytes of the array that count.
unfoldable pub view : Algorithm → Hash → Absorbed
view a s = record { hash = s.hash; pending = take (s.len0 % a.block_size) s.buf }

module _ (a : Algorithm) where
  pub block_some : 0 < a.block_size
  block_some = omega (arith, a.length_fits)

  update_rest_lem :
      (s : Hash) (inp : List ℕ)
      → length s.buf ≡ a.block_size
      → s.len0 % a.block_size ≡ length inp % a.block_size
      → (view a (update_rest a s inp) ≡ absorb a (record { hash = s.hash; pending = [] }) inp)
        × (length (update_rest a s inp).buf ≡ a.block_size)
  unfolding view update_rest
  update_rest_lem s inp whole e =
      let n = a.block_size in
      let start : Absorbed = record { hash = s.hash; pending = [] } in
      let r = whole_blocks a (length inp) s.hash inp in
      let w = whole_blocks_lem a (length inp) s.hash inp block_some (omega arith) in
      let short = w.1 in
      let size : length r.1 ≡ length inp % n =
        sym (ap (λ t. length (t.pending)) (w.0))
        ∙ absorb-length a start inp block_some
        ∙ (let none : 0 + length inp ≡ length inp = omega arith in ap (λ (t : ℕ). t % n) none) in
      let end : s.len0 % n ≡ 0 + length r.1 = e ∙ sym size ∙ (omega arith) in
      (
        ap (λ t. record { hash = r.0; pending = t })
              (ap (λ t. take t (overwrite s.buf 0 r.1)) end
                ∙ take-overwrite s.buf 0 r.1 (omega arith))
            ∙ sym (w.0),
        overwrite-length s.buf 0 r.1 (omega (arith, short)) ∙ whole,
      )

  -- The message reaches the end of the block in the array.
  fill_full :
      (s : Hash) (off : ℕ) (inp : List ℕ)
      → length s.buf ≡ a.block_size
      → off < a.block_size
      → a.block_size - off ≤ length inp
      → (record { hash = (fill_buffer a off s inp).hash; pending = [] }
          ≡ absorb a
              (record { hash = s.hash; pending = take off s.buf })
              (take (a.block_size - off) inp))
        × (length (fill_buffer a off s inp).buf ≡ a.block_size)
  unfolding fill_buffer
  fill_full s off inp whole o l =
      let n = a.block_size in
      let room : min (n - off) (length inp) ≡ n - off = omega arith in
      let reached : (n - off + off == n) ≡ true = ground arith in
      let size : length (take (n - off) inp) ≡ n - off = omega (arith, length-take (n - off) inp) in
      let front : length (take off s.buf) ≡ off = omega (arith, length-take off s.buf) in
      rw (room, reached)
        (
          ap (λ t. record { hash = a.transform s.hash t; pending = [] })
                (overwrite_to_end s.buf off (take (n - off) inp) (omega (arith, size)))
              ∙ sym (
                  absorb_block a s.hash (take off s.buf) (take (n - off) inp) (omega (arith, front))
                    (omega (arith, front, size))),
          overwrite-length s.buf off (take (n - off) inp) (omega (arith, size)) ∙ whole,
        )

  -- The message ends before that.
  fill_part :
      (s : Hash) (off : ℕ) (inp : List ℕ)
      → length s.buf ≡ a.block_size
      → off + length inp < a.block_size
      → (record {
        hash = (fill_buffer a off s inp).hash;
        pending = take (off + length inp) (fill_buffer a off s inp).buf;
      }
          ≡ absorb a (record { hash = s.hash; pending = take off s.buf }) inp)
        × (length (fill_buffer a off s inp).buf ≡ a.block_size)
  unfolding fill_buffer
  fill_part s off inp whole l =
      let n = a.block_size in
      let room : min (n - off) (length inp) ≡ length inp = omega arith in
      let not_reached : (length inp + off == n) ≡ false = ground arith in
      let front : length (take off s.buf) ≡ off = omega (arith, length-take off s.buf) in
      rw (room, take-whole (length inp) inp refl, not_reached)
        (
          ap (λ t. record { hash = s.hash; pending = t })
                (take-overwrite s.buf off inp (omega arith))
              ∙ sym (absorb_within a s.hash (take off s.buf) inp (omega (arith, front))),
          overwrite-length s.buf off inp (omega arith) ∙ whole,
        )

  update_rest_nil : (s : Hash) → update_rest a s [] ≡ s
  unfolding update_rest whole_blocks overwrite
  update_rest_nil s = refl

  -- The message starts at the start of a block.
  update_aligned :
      (s : Hash) (inp : List ℕ)
      → length s.buf ≡ a.block_size
      → s.len0 % a.block_size ≡ 0
      → (view a (update_rest a (add_length a (length inp) s) inp) ≡ absorb a (view a s) inp)
        × (length (update_rest a (add_length a (length inp) s) inp).buf ≡ a.block_size)
  unfolding view add_length
  update_aligned s inp whole z =
      let n = a.block_size in
      let s' = add_length a (length inp) s in
      let none : 0 + length inp ≡ length inp = omega arith in
      let offset : s'.len0 % n ≡ length inp % n =
        add_length-offset a s (length inp)
        ∙ ap (λ (t : ℕ). (t + length inp) % n) z
        ∙ ap (λ (t : ℕ). t % n) none in
      let u = update_rest_lem s' inp whole offset in
      (u.0 ∙ ap (λ t. absorb a (record { hash = s.hash; pending = take t s.buf }) inp) (sym z), u.1)

  -- It starts within a block and reaches the end of it.
  update_full :
      (s : Hash) (inp : List ℕ)
      → length s.buf ≡ a.block_size
      → a.block_size - s.len0 % a.block_size ≤ length inp
      → (let off = s.len0 % a.block_size in
          let s' =
            update_rest a
              (fill_buffer a off (add_length a (length inp) s) inp)
              (drop (a.block_size - off) inp) in
          (view a s' ≡ absorb a (view a s) inp) × (length s'.buf ≡ a.block_size))
  unfolding view add_length fill_buffer
  update_full s inp whole l =
      let n = a.block_size in
      let off = s.len0 % n in
      let o : off < n = mod-lt s.len0 block_some in
      let s' = add_length a (length inp) s in
      let f = fill_full s' off inp whole o l in
      let left : length (drop (n - off) inp) ≡ length inp - (n - off) = length-drop (n - off) inp in
      let total : off + length inp ≡ length inp - (n - off) + n = omega arith in
      let offset : s'.len0 % n ≡ length (drop (n - off) inp) % n =
        add_length-offset a s (length inp)
        ∙ ap (λ (t : ℕ). t % n) total
        ∙ add-mod_right (length inp - (n - off)) n
        ∙ ap (λ (t : ℕ). t % n) (sym left) in
      let u = update_rest_lem (fill_buffer a off s' inp) (drop (n - off) inp) (f.1) offset in
      (
        u.0
            ∙ ap (λ t. absorb a t (drop (n - off) inp)) (f.0)
            ∙ sym (absorb-append a (view a s) (take (n - off) inp) (drop (n - off) inp))
            ∙ ap (absorb a (view a s)) (take-append-drop (n - off) inp),
        u.1,
      )

  -- It ends before the end of the block.
  update_part :
      (s : Hash) (inp : List ℕ)
      → length s.buf ≡ a.block_size
      → s.len0 % a.block_size + length inp < a.block_size
      → (let s' = fill_buffer a (s.len0 % a.block_size) (add_length a (length inp) s) inp in
          (view a s' ≡ absorb a (view a s) inp) × (length s'.buf ≡ a.block_size))
  unfolding view add_length fill_buffer
  update_part s inp whole l =
      let n = a.block_size in
      let off = s.len0 % n in
      let s' = add_length a (length inp) s in
      let f = fill_part s' off inp whole l in
      let offset : s'.len0 % n ≡ off + length inp =
        add_length-offset a s (length inp) ∙ mod-eq_of_lt l in
      (
        ap
              (λ t. record {
                hash = (fill_buffer a off s' inp).hash;
                pending = take t (fill_buffer a off s' inp).buf;
              })
              offset
            ∙ f.0,
        f.1,
      )

-- From any state with an array of the block size, and for a message of any length, `Update` leaves the
-- hash and the bytes of the unfinished block that absorbing the message byte by byte leaves, and an
-- array of that size.
pub update_lem :
    (a : Algorithm) (s : Hash) (inp : List ℕ)
    → length s.buf ≡ a.block_size
    → (view a (update a s inp) ≡ absorb a (view a s) inp)
      × (length (update a s inp).buf ≡ a.block_size)
unfolding update
update_lem a s inp whole = elim (Bool-cases (s.len0 % a.block_size == 0)) [
  | inl aligned ↦ rw aligned (update_aligned a s inp whole (ground arith))
  | inr within ↦ rw within (elim (full_or_part (s.len0 % a.block_size) a.block_size (length inp)) [
    | inl full ↦
        let room : min (a.block_size - s.len0 % a.block_size) (length inp)
            ≡ a.block_size - s.len0 % a.block_size =
          omega arith in
        rw room (update_full a s inp whole full)
    | inr part ↦
        let room : min (a.block_size - s.len0 % a.block_size) (length inp) ≡ length inp =
          omega arith in
        rw (room, drop-whole (length inp) inp (omega arith), update_rest_nil a)
          (update_part a s inp whole part)
  ])
]
  where
    full_or_part : (off n len : ℕ) → (n - off ≤ len) ⊎ (off + len < n)
    full_or_part off n len = omega arith
