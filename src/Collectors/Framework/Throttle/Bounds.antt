-- ===== src/Collectors/Framework/Throttle/Bounds.antt =====
-- Where the limit cuts the records of one period off.
use dcos_metrics.Prelude.Int.{pos, ltb_ℤ, ◌≤ℤ◌}
use dcos_metrics.Prelude.{
  ℕ, ◌+◌, ◌≡◌, refl, sym, ap, ◌∙◌, ◌⊎◌, inl, inr, none, some, List, [], ◌∷◌, ◌++◌, arith,
  Option-cases, Bool-cases,
}
use dcos_metrics.Collectors.Framework.Throttle.{
  Limits, IsWithin, IsAbove, round, handle, Round, Loop, admit, limit_bytes, bytes_of, reset,
  Before, read_of, handle_none,
}
use mathlib.Core.Path.{subst}

module _ {A : Type 0} (l : Limits) where
  -- One round before the next reset: what it counts, and what it lets through.
  round-counts :
      (r : Round A) (s : Loop)
      → pos r.now ≤ℤ s.next_input_reset_time
      → (Loop.input_bytes (round l r s).0 ≡ s.input_bytes + r.bytes)
        × (Loop.next_input_reset_time (round l r s).0 ≡ s.next_input_reset_time)
  unfolding round admit reset
  round-counts r s b = (ground arith, ground arith)

  round-below :
      (r : Round A) (s : Loop)
      → pos r.now ≤ℤ s.next_input_reset_time
      → IsWithin l (s.input_bytes + r.bytes)
      → (round l r s).1 ≡ r.datum
  unfolding round admit reset
  round-below r s b h = ground arith

  round-above :
      (r : Round A) (s : Loop)
      → pos r.now ≤ℤ s.next_input_reset_time
      → IsAbove l (s.input_bytes + r.bytes)
      → (round l r s).1 ≡ none
  unfolding round admit reset
  round-above r s b h = ground arith

  handle-none :
      (r : Round A) (rs : List (Round A)) (s : Loop)
      → (round l r s).1 ≡ none
      → handle l (r ∷ rs) s ≡ handle l rs (round l r s).0
  unfolding handle
  handle-none r rs s e = rw (e, handle) refl

  handle-some :
      (r : Round A) (rs : List (Round A)) (s : Loop) (d : A)
      → (round l r s).1 ≡ some d
      → handle l (r ∷ rs) s ≡ d ∷ handle l rs (round l r s).0
  unfolding handle
  handle-some r rs s d e = rw (e, handle) refl

  -- Rounds that go on, and those that do not, from a number of bytes.
  abbrev pub IsCut : List (Round A) → List (Round A) → ℕ → Type 0
  IsCut a b n =
      ((a ≡ []) ⊎ IsWithin l (n + bytes_of a))
      × ((b ≡ [])
          ⊎ ((r : Round A) × (b' : List (Round A)) × (b ≡ r ∷ b')
              × IsAbove l (n + bytes_of a + r.bytes)))

  IsCut-cons :
      (r : Round A) (a b : List (Round A)) (n : ℕ)
      → IsWithin l (n + r.bytes)
      → IsCut a b (n + r.bytes)
      → IsCut (r ∷ a) b n
  IsCut-cons r a b n h (below, above) = (
    inr (elim below [
      | inl e ↦ let z : bytes_of a ≡ 0 = ap bytes_of e in omega (arith, z, h)
      | inr k ↦ omega (arith, k)
    ]),
    elim above [ inl e ↦ inl e | inr (q, b', e, k) ↦ inr (q, b', e, omega (arith, k)) ],
  )

  -- A round below the limit, in front of rounds of which those that were read in `a` go on.
  handle-below :
      (r : Round A) (rs a : List (Round A)) (s : Loop)
      → (round l r s).1 ≡ r.datum
      → handle l rs (round l r s).0 ≡ read_of a
      → handle l (r ∷ rs) s ≡ read_of (r ∷ a)
  handle-below r rs a s e f = elim (Option-cases r.datum) [
    | inl n ↦ rw (handle-none r rs s (e ∙ n), f, n) refl
    | inr (d, g) ↦ rw (handle-some r rs s d (e ∙ g), f, g) refl
  ]

  -- In a run of rounds before the next reset there is one cut: of the rounds before it every record that was read goes on, in order, and their bytes with those counted at first do not exceed the limit; of those after it none goes on, and the first of them would have exceeded the limit.
  pub handle-IsCut :
      (rs : List (Round A)) (s : Loop)
      → Before s.next_input_reset_time rs
      → (a : List (Round A)) × (b : List (Round A)) × (rs ≡ a ++ b)
        × (handle l rs s ≡ read_of a)
        × IsCut a b s.input_bytes
  unfolding handle
  handle-IsCut [] s h = ([], [], refl, refl, (inl refl, inl refl))
  handle-IsCut (r ∷ rs) s (h, hs) =
      let s' = (round l r s).0 in
      let (counted, same) = round-counts r s h in
      let hs' : Before s'.next_input_reset_time rs = subst (λ t. Before t rs) (sym same) hs in
      elim (Bool-cases (ltb_ℤ (limit_bytes l) (pos (s.input_bytes + r.bytes)))) [
        | inl over ↦
            let above : IsAbove l (s.input_bytes + r.bytes) = ground (arith, over) in
            (
              [],
              r ∷ rs,
              refl,
              handle-none r rs s (round-above r s h above)
                  ∙ handle_none l rs s' hs' (rw counted above),
              (inl refl, inr (r, rs, refl, omega (arith, above))),
            )
        | inr fits ↦
            let below : IsWithin l (s.input_bytes + r.bytes) = ground (arith, fits) in
            let (a, b, split, goes, cut) = handle-IsCut rs s' hs' in
            (
              r ∷ a,
              b,
              ap (λ x. r ∷ x) split,
              handle-below r rs a s (round-below r s h below) goes,
              IsCut-cons r a b s.input_bytes below (subst (IsCut a b) counted cut),
            )
      ]
