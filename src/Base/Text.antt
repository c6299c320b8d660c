-- ===== src/Base/Text.antt =====
-- Text as the program uses it: identifiers, tokens and names, compared whole.
use Prim.Native.String.{String}
use mathlib.Core.Path.{◌≡◌, refl}
use mathlib.Core.Logic.{◌↔◌}
use mathlib.Core.Bool.{Bool, true, not}
use mathlib.Core.Logic.{inl, inr}
use anzdrop.Base.Tests.{Bool-cases}
use text.Mathlib.Text
use text.Mathlib.TextEquality

-- `===` on strings.
abbrev pub same : String → String → Bool
same s t = Text.◌==◌ s t

-- JavaScript's truth value of a string: false on the empty one.
abbrev pub truthy : String → Bool
truthy s = not (same s "")

pub same_iff : (s t : String) → (same s t ≡ true) ↔ (s ≡ t)
same_iff s t = TextEquality.eq_iff s t

pub same_self : (s : String) → same s s ≡ true
same_self s = (same_iff s s).1 refl

pub same_comm : (s t : String) → same s t ≡ same t s
same_comm s t = elim (Bool-cases (same s t)) [
  | inl h ↦ let e : s ≡ t = (same_iff s t).0 h in rw e refl
  | inr h ↦ elim (Bool-cases (same t s)) [
    | inl g ↦ let e : t ≡ s = (same_iff t s).0 g in rw e refl
    | inr g ↦ rw (h, g) refl
  ]
]

-- Beside a text that equals `t`, comparing with `t` is comparing with that text.
pub same_beside : (s t r : String) → same s t ≡ true → same r t ≡ same s r
same_beside s t r h = let e : s ≡ t = (same_iff s t).0 h in rw e (same_comm r t)
