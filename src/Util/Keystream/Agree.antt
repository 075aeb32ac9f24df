-- ===== src/Util/Keystream/Agree.antt =====
-- Two ways to fill the buffer that agree on the objects a property holds of give the same keystream.
use drew.Prelude.{
  ℕ, ◌≡◌, refl, ap, ap₂, inl, inr, List, [], ◌∷◌, bit_xor, get_or, ◌-◌, ◌==◌, if◌then◌else◌,
  Bool-cases, ◌∙◌,
}
use drew.Util.Keystream.{Cursor}
use drew.Util.Keystream.Spec.{refill, next_byte, advance, outputs, after}

module _ {O : Type 0} (n : ℕ) (f g : O → List ℕ × O) (P : O → Type 0)
    (agree : (o : O) → P o → f o ≡ g o) (kept : (o : O) → P o → P (f o).1) where
  refill_agree : (s : Cursor O) → P s.obj → refill n f s ≡ refill n g s
  unfolding refill
  refill_agree s p =
      let filled : List ℕ × O → Cursor O = λ r. record { mbuf = r.0; bufrem = n; obj = r.1 } in
      ap (λ r. if s.bufrem == 0 then filled r else s) (agree s.obj p)

  refill_kept : (s : Cursor O) → P s.obj → P (refill n f s).obj
  unfolding refill
  refill_kept s p = elim (Bool-cases (s.bufrem == 0)) [
    | inl none_left ↦ rw none_left (kept s.obj p)
    | inr within ↦ rw within p
  ]

  pub outputs_agree :
      (s : Cursor O) (xs : List ℕ)
      → P s.obj
      → (outputs n f s xs ≡ outputs n g s xs) × (after n f s xs ≡ after n g s xs)
  unfolding outputs after next_byte advance
  outputs_agree s [] p = (refl, refl)
  outputs_agree s (x ∷ xs) p =
      let same = refill_agree s p in
      let next : Cursor O → Cursor O = λ t. record t { bufrem = t.bufrem - 1 } in
      let (bytes, left) = outputs_agree (next (refill n f s)) xs (refill_kept s p) in
      (
        ap₂ (λ b t. b ∷ t) (ap (λ (t : Cursor O). bit_xor (get_or t.mbuf (n - t.bufrem) 0) x) same)
            (bytes ∙ ap (λ t. outputs n g (next t) xs) same),
        left ∙ ap (λ t. after n g (next t) xs) same,
      )
