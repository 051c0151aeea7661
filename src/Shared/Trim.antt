-- ===== src/Shared/Trim.antt =====
-- strings.TrimSpace leaves no white space at either end, so a second call changes nothing.
use Prim.Native.Nat.{ℕ, zero, suc, ◌+◌, ◌≤◌, ◌<◌}
use mathlib.Core.Path.{◌≡◌, refl, sym, ap, ◌∙◌}
use mathlib.Core.Logic.{◌≢◌, inl, inr}
use mathlib.Core.List.{
  [], ◌∷◌, ◌++◌, reverse, reverse_aux, reverse-append, reverse-reverse, append_assoc,
}
use native.Mathlib.Omega.{arith}
use synthetics_operator.Shared.Tests.{Bool-cases}
use synthetics_operator.Shared.Keys.{◌==◌, nat_eq, Bytes}
use synthetics_operator.Shared.Lists.{length}
use synthetics_operator.Shared.Strings.{
  space_width, space_width_end, drop, take, drop_space, trim_space,
}

length-drop-le : (n : ℕ) (s : Bytes) → length (drop n s) ≤ length s
length-drop-le zero s = omega arith
length-drop-le (suc n) [] = omega arith
length-drop-le (suc n) (c ∷ s) = omega (arith, length-drop-le n s)

length-drop-lt : (n : ℕ) (c : ℕ) (s : Bytes) → n ≢ 0 → length (drop n (c ∷ s)) < length (c ∷ s)
length-drop-lt zero c s h = absurd (h refl)
length-drop-lt (suc n) c s h = omega (arith, length-drop-le n s)

take-append-drop : (n : ℕ) (s : Bytes) → take n s ++ drop n s ≡ s
take-append-drop zero s = refl
take-append-drop (suc n) [] = refl
take-append-drop (suc n) (c ∷ s) = ap (λ (r : Bytes). c ∷ r) (take-append-drop n s)

module _ (width : Bytes → ℕ) where
  -- With enough fuel, no white space is left where the loop ends.
  width-drop_space :
      (fuel : ℕ) (s : Bytes) → width [] ≡ 0 → length s ≤ fuel → width (drop_space fuel width s) ≡ 0
  unfolding drop_space
  width-drop_space zero [] empty h = empty
  width-drop_space zero (c ∷ s) empty h = absurd (omega arith)
  width-drop_space (suc fuel) [] empty h = rw empty empty
  width-drop_space (suc fuel) (c ∷ s) empty h = elim (Bool-cases (width (c ∷ s) == 0)) [
    | inl done ↦ rw done (ground (arith, done))
    | inr more ↦ rw more (
        width-drop_space fuel (drop (width (c ∷ s)) (c ∷ s)) empty
          (omega (arith, length-drop-lt (width (c ∷ s)) c s (ground (arith, more)))))
  ]

  drop_space-idle : (fuel : ℕ) (s : Bytes) → width s ≡ 0 → drop_space fuel width s ≡ s
  unfolding drop_space
  drop_space-idle zero s h = refl
  drop_space-idle (suc fuel) s h = rw h refl

  -- What the loop leaves is the end of the text.
  drop_space-suffix :
      (fuel : ℕ) (s : Bytes) → (front : Bytes) × (front ++ drop_space fuel width s ≡ s)
  unfolding drop_space
  drop_space-suffix zero s = ([], refl)
  drop_space-suffix (suc fuel) s = elim (Bool-cases (width s == 0)) [
    | inl done ↦ ([], rw done refl)
    | inr more ↦
        let (front, e) = drop_space-suffix fuel (drop (width s) s) in
        (
          take (width s) s ++ front,
          rw more (
              append_assoc (take (width s) s) front _
              ∙ ap (λ (r : Bytes). take (width s) s ++ r) e
              ∙ take-append-drop (width s) s),
        )
  ]

-- White space at the front of a text is white space at the front of what it begins.
space_width-append : (s r : Bytes) → space_width (s ++ r) ≡ 0 → space_width s ≡ 0
unfolding space_width
space_width-append [] r h = refl
space_width-append (a ∷ []) [] h = h
space_width-append (a ∷ []) (b ∷ []) h = ground (arith, h)
space_width-append (a ∷ []) (b ∷ c ∷ r) h = ground (arith, h)
space_width-append (a ∷ b ∷ []) [] h = h
space_width-append (a ∷ b ∷ []) (c ∷ r) h = ground (arith, h)
space_width-append (a ∷ b ∷ c ∷ s) r h = h

length-reverse_aux : (s r : Bytes) → length (reverse_aux s r) ≡ length s + length r
length-reverse_aux [] r = omega arith
length-reverse_aux (c ∷ s) r = omega (arith, length-reverse_aux s (c ∷ r))

length-reverse : (s : Bytes) → length (reverse s) ≡ length s
length-reverse s = omega (arith, length-reverse_aux s [])

-- A text with no white space at either end is left as it is.
trim_space-idle :
    (t : Bytes) → space_width t ≡ 0 → space_width_end (reverse t) ≡ 0 → trim_space t ≡ t
unfolding trim_space
trim_space-idle t front back =
    rw
      (
        drop_space-idle space_width (length t) t front,
        drop_space-idle space_width_end (length t) (reverse t) back,
      )
      (reverse-reverse t)

-- What is left of a text that has no white space at its front.
module _ (f : Bytes) (front : space_width f ≡ 0) where
  abbrev kept : Bytes
  kept = drop_space (length f) space_width_end (reverse f)

  kept_end : space_width_end kept ≡ 0
  unfolding space_width_end
  kept_end =
      width-drop_space space_width_end (length f) (reverse f) refl (omega (arith, length-reverse f))

  kept_front : space_width (reverse kept) ≡ 0
  kept_front =
      let (cut, e) = drop_space-suffix space_width_end (length f) (reverse f) in
      space_width-append (reverse kept) (reverse cut)
        (ap space_width (sym (reverse-append cut kept) ∙ ap reverse e ∙ reverse-reverse f) ∙ front)

  reverse-kept : trim_space (reverse kept) ≡ reverse kept
  reverse-kept =
      trim_space-idle (reverse kept) kept_front
        (ap space_width_end (reverse-reverse kept) ∙ kept_end)

pub trim_space_idem : (s : Bytes) → trim_space (trim_space s) ≡ trim_space s
unfolding trim_space space_width
trim_space_idem s =
    reverse-kept (drop_space (length s) space_width s)
      (width-drop_space space_width (length s) s refl (omega arith))
