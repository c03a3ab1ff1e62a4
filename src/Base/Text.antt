-- ===== src/Base/Text.antt =====
-- Go strings and byte slices: lists of bytes, and the tests of package strings on them.
use Prim.Native.Nat.{ℕ, suc}
use Prim.Native.Char.{code}
use Prim.Native.String.{String}
use mathlib.Core.Path.{◌≡◌, refl, subst}
use mathlib.Core.Logic.{◌↔◌, inl, inr}
use mathlib.Core.Bool.{Bool, true, false, ◌&&◌, ◌||◌}
use mathlib.Core.List.{List, [], ◌∷◌, ◌++◌}
use mathlib.Core.Option.{Option, none, some}
use native.Mathlib.Omega.{arith}
use claude_cowork_service.Base.Tests.{Bool-cases, if◌then◌else◌, ◌==◌}
use claude_cowork_service.Base.Lists.{All, drop, length}

abbrev pub Bytes : Type 0
Bytes = List ℕ

-- The code points of a literal: its bytes, where the text is ASCII.
abbrev pub codes : String → Bytes
codes String.[] = []
codes (String.◌∷◌ c s) = code c ∷ codes s

-- a == b on strings.
unfoldable pub eqb : Bytes → Bytes → Bool
eqb [] [] = true
eqb [] (b ∷ bs) = false
eqb (a ∷ as') [] = false
eqb (a ∷ as') (b ∷ bs) = a == b && eqb as' bs

pub eqb→eq : (s t : Bytes) → eqb s t ≡ true → s ≡ t
unfolding eqb
eqb→eq [] [] h = refl
eqb→eq [] (b ∷ bs) h = cc
eqb→eq (a ∷ as') [] h = cc
eqb→eq (a ∷ as') (b ∷ bs) h = ground (arith, eqb→eq as' bs)

pub eqb_refl : (s : Bytes) → eqb s s ≡ true
unfolding eqb
eqb_refl [] = refl
eqb_refl (a ∷ s) = ground (arith, eqb_refl s)

pub eqb_iff : (s t : Bytes) → (eqb s t ≡ true) ↔ (s ≡ t)
eqb_iff s t = (eqb→eq s t, λ e. rw e (eqb_refl t))

-- s == "".
unfoldable pub is_empty : Bytes → Bool
is_empty [] = true
is_empty (a ∷ s) = false

-- strings.HasPrefix(s, p).
unfoldable pub has_prefix : Bytes → Bytes → Bool
has_prefix s [] = true
has_prefix [] (p ∷ ps) = false
has_prefix (c ∷ s) (p ∷ ps) = c == p && has_prefix s ps

pub has_prefix→append : (s p : Bytes) → has_prefix s p ≡ true → s ≡ p ++ drop (length p) s
unfolding has_prefix
has_prefix→append s [] h = refl
has_prefix→append [] (p ∷ ps) h = cc
has_prefix→append (c ∷ s) (p ∷ ps) h = ground (arith, has_prefix→append s ps)

pub has_prefix-append : (p r : Bytes) → has_prefix (p ++ r) p ≡ true
unfolding has_prefix
has_prefix-append [] r = refl
has_prefix-append (c ∷ p) r = ground (arith, has_prefix-append p r)

-- strings.Index(s, sub), none for -1.
unfoldable pub index : Bytes → Bytes → Option ℕ
index [] sub = if is_empty sub then some 0 else none
index (c ∷ s) sub = elim (has_prefix (c ∷ s) sub) [
  | true ↦ some 0
  | false ↦ elim (index s sub) [ none ↦ none | some i ↦ some (suc i) ]
]

-- strings.ContainsRune of one byte.
unfoldable pub has_byte : Bytes → ℕ → Bool
has_byte [] b = false
has_byte (c ∷ s) b = c == b || has_byte s b

-- Membership in a list of strings.
unfoldable pub elem : Bytes → List Bytes → Bool
elem s [] = false
elem s (t ∷ ts) = eqb t s || elem s ts

pub elem-All {κ} :
    (P : Bytes → Type κ) (s : Bytes) (ts : List Bytes) → All P ts → elem s ts ≡ true → P s
unfolding elem
elem-All P s [] each h = absurd (ground arith)
elem-All P s (t ∷ ts) each h = elim (Bool-cases (eqb t s)) [
  | inl hit ↦ subst P (eqb→eq t s hit) each.0
  | inr miss ↦ elem-All P s ts each.1 (ground (arith, miss))
]
