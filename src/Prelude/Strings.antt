-- ===== src/Prelude/Strings.antt =====
-- Text as its UTF-16 code units. `trim` drops the white space of ECMAScript; `to_lower_case` is that
-- of the ASCII letters.
pub mod Trim
use Prim.Native.Nat.{ℕ, ◌+◌}
use Prim.Native.Char.{code}
use Prim.Native.String.{String}
use mathlib.Core.Path.{◌≡◌, refl, sym, ap₂}
use mathlib.Core.Bool.{Bool, true, false, ◌&&◌, ◌||◌}
use mathlib.Core.List.{List, [], ◌∷◌, reverse, map}
use native.Mathlib.Decide.{ℕ_discrete}
use risoluto.Prelude.Tests.{leb, if◌then◌else◌}
use risoluto.Prelude.Equality.{Eq, ◌==◌, nat_eq}

abbrev pub Text : Type 0
Text = List ℕ

pub head-eq : {c d : ℕ} {s t : Text} → c ∷ s ≡ d ∷ t → c ≡ d
head-eq e = cc

pub tail-eq : {c d : ℕ} {s t : Text} → c ∷ s ≡ d ∷ t → s ≡ t
tail-eq e = cc

pub nil≢cons : {c : ℕ} {s : Text} → ◌≡◌ {A = Text} [] (c ∷ s) → ⊥
nil≢cons e = cc

both : {c d : ℕ} {s t : Text} → Dec (c ≡ d) → Dec (s ≡ t) → Dec (c ∷ s ≡ d ∷ t)
both (yes p) (yes q) = yes (ap₂ ◌∷◌ p q)
both (no p) q = no (λ e. p (head-eq e))
both (yes p) (no q) = no (λ e. q (tail-eq e))

unfoldable pub Text-discrete : Discrete Text
unfolding ℕ_discrete both
Text-discrete [] [] = yes refl
Text-discrete [] (d ∷ t) = no (λ e. nil≢cons e)
Text-discrete (c ∷ s) [] = no (λ e. nil≢cons (sym e))
Text-discrete (c ∷ s) (d ∷ t) = both (ℕ_discrete c d) (Text-discrete s t)

instance abbrev pub text_eq : Eq Text
text_eq = record { dec_eq = Text-discrete }

-- The code units of an ASCII literal.
abbrev pub codes : String → Text
codes String.[] = []
codes (String.◌∷◌ c s) = code c ∷ codes s

unfoldable pub is_space : ℕ → Bool
is_space c =
    (leb 9 c && leb c 13)
    || c == 32
    || c == 160
    || c == 5760
    || (leb 8192 c && leb c 8202)
    || c == 8232
    || c == 8233
    || c == 8239
    || c == 8287
    || c == 12288
    || c == 65279

unfoldable pub lower_unit : ℕ → ℕ
lower_unit c = if leb b'A' c && leb c b'Z' then c + 32 else c

unfoldable pub trim_start : Text → Text
trim_start [] = []
trim_start (c ∷ s) = if is_space c then trim_start s else c ∷ s

unfoldable pub trim : Text → Text
unfolding trim_start is_space
trim s = reverse (trim_start (reverse (trim_start s)))

unfoldable pub to_lower_case : Text → Text
unfolding lower_unit
to_lower_case s = map lower_unit s

test_trim : trim (codes "  In Progress ") ≡ codes "In Progress"
unfolding trim Text-discrete
test_trim = refl

test_eq : (codes "ab" == codes "ab") ≡ true
unfolding Text-discrete
test_eq = refl

-- `!text` in a test: the empty text.
abbrev pub is_empty : Text → Bool
is_empty [] = true
is_empty (c ∷ s) = false
