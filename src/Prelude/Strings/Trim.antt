-- ===== src/Prelude/Strings/Trim.antt =====
-- Trimming and lower-casing twice is the same as once.
use mathlib.Core.Path.{◌≡◌, refl, ap, ◌∙◌}
use mathlib.Core.Bool.{false}
use mathlib.Core.List.{
  [], ◌∷◌, ◌++◌, reverse, map, reverse-cons, reverse-append, reverse_aux, reverse-reverse,
}
use native.Mathlib.Omega.{arith}
use Prim.Native.Nat.{ℕ, ◌+◌, ◌≤◌}
use risoluto.Prelude.Strings.{Text, is_space, lower_unit, trim_start, trim, to_lower_case}

lower_unit_idem : (c : ℕ) → lower_unit (lower_unit c) ≡ lower_unit c
unfolding lower_unit
lower_unit_idem c = ground arith

letter-not_space : (c : ℕ) → 65 ≤ c → c ≤ 122 → is_space c ≡ false
unfolding is_space
letter-not_space c h k = ground arith

is_space-lower_unit : (c : ℕ) → is_space (lower_unit c) ≡ is_space c
unfolding lower_unit
is_space-lower_unit c = ground (arith, letter-not_space c, letter-not_space (c + 32))

pub to_lower_case_idem : (s : Text) → to_lower_case (to_lower_case s) ≡ to_lower_case s
unfolding to_lower_case
to_lower_case_idem [] = refl
to_lower_case_idem (c ∷ s) = cc (lower_unit_idem c, to_lower_case_idem s)

trim_start-to_lower_case : (s : Text) → trim_start (to_lower_case s) ≡ to_lower_case (trim_start s)
unfolding trim_start to_lower_case
trim_start-to_lower_case [] = refl
trim_start-to_lower_case (c ∷ s) = ground (arith, is_space-lower_unit c, trim_start-to_lower_case s)

reverse_aux-map :
    (f : ℕ → ℕ) (s t : Text) → reverse_aux (map f s) (map f t) ≡ map f (reverse_aux s t)
reverse_aux-map f [] t = refl
reverse_aux-map f (c ∷ s) t = reverse_aux-map f s (c ∷ t)

reverse-to_lower_case : (s : Text) → reverse (to_lower_case s) ≡ to_lower_case (reverse s)
unfolding to_lower_case
reverse-to_lower_case s = reverse_aux-map lower_unit s []

pub trim-to_lower_case : (s : Text) → trim (to_lower_case s) ≡ to_lower_case (trim s)
unfolding trim
trim-to_lower_case s = simp (trim_start-to_lower_case, reverse-to_lower_case)

trim_start_idem : (s : Text) → trim_start (trim_start s) ≡ trim_start s
unfolding trim_start
trim_start_idem [] = refl
trim_start_idem (c ∷ s) = ground (arith, trim_start_idem s)

-- A text that starts with no space keeps its first unit when its end is trimmed.
trim_start-concat :
    (s : Text) (c : ℕ) → is_space c ≡ false → trim_start (s ++ c ∷ []) ≡ trim_start s ++ c ∷ []
unfolding trim_start
trim_start-concat [] c h = ground arith
trim_start-concat (d ∷ s) c h = ground (arith, trim_start-concat s c h)

trim_end : Text → Text
trim_end s = reverse (trim_start (reverse s))

trim_end-cons : (c : ℕ) (s : Text) → is_space c ≡ false → trim_end (c ∷ s) ≡ c ∷ trim_end s
unfolding trim_end
trim_end-cons c s h =
    rw
      (
        reverse-cons c s,
        trim_start-concat (reverse s) c h,
        reverse-append (trim_start (reverse s)) (c ∷ []),
      )
      refl

trim_start-trim_end : (s : Text) → trim_start (trim_end (trim_start s)) ≡ trim_end (trim_start s)
unfolding trim_start
trim_start-trim_end [] = unfold trim_end in refl
trim_start-trim_end (c ∷ s) = ground (arith, trim_start-trim_end s, trim_end-cons c s)

trim_end_idem : (s : Text) → trim_end (trim_end s) ≡ trim_end s
unfolding trim_end
trim_end_idem s = rw (reverse-reverse, trim_start_idem)

pub trim_idem : (s : Text) → trim (trim s) ≡ trim s
unfolding trim trim_end
trim_idem s = ap trim_end (trim_start-trim_end s) ∙ trim_end_idem (trim_start s)
