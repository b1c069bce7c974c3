-- ===== src/Prelude/Text.antt =====
-- Texts: the substring test, joining with a separator, and the order of `sort.Strings`.
use Prim.Native.Nat.{ℕ, ◌+◌, compare, Ordering}
use dcos_metrics.Prelude.Tests.{ltb, if◌then◌else◌}
use Prim.Native.Char.{Char, code}
use Prim.Native.String
use Prim.Native.String.{String, [], ◌∷◌}
use mathlib.Core.Path.{◌≡◌, refl}
use mathlib.Core.Bool.{Bool, true, false, ◌||◌}
use mathlib.Core.List.{List, [], ◌∷◌}
use native.Mathlib.Omega.{arith}
use text.Mathlib.Text.{starts_with}
use text.Mathlib.TextPositions.{starts_with-append}
use text.Mathlib.TextPositions.{compare_self}
use text.Mathlib.TextEquality.{codes_equal}
use text.Mathlib.TextLemmas.{nil-append, cons-append}

-- Concatenation of texts (the name `◌++◌` is that of lists).
infixr 66 ◌<>◌
abbrev pub ◌<>◌ : String → String → String
s <> t = String.◌++◌ s t

-- `strings.Join`.
unfoldable pub join : String → List String → String
join sep [] = ""
join sep (s ∷ []) = s
join sep (s ∷ t ∷ r) = s <> sep <> join sep (t ∷ r)

-- `strings.Contains(hay, needle)`, and what an unanchored match of `regexp.QuoteMeta(needle) + ".*"`
-- decides.
unfoldable pub contains : String → String → Bool
contains needle [] = starts_with "" needle
contains needle (c ∷ s) = starts_with (c ∷ s) needle || contains needle s

pub contains_of_starts_with :
    (needle hay : String) → starts_with hay needle ≡ true → contains needle hay ≡ true
unfolding contains
contains_of_starts_with needle [] h = h
contains_of_starts_with needle (c ∷ s) h = ground arith

pub contains-append_left :
    (needle s t : String) → contains needle t ≡ true → contains needle (s <> t) ≡ true
unfolding contains
contains-append_left needle [] t h = rw nil-append h
contains-append_left needle (c ∷ s) t h =
    rw cons-append (ground (arith, contains-append_left needle s t h))

-- A text is found wherever it stands.
pub contains-infix : (needle s t : String) → contains needle (s <> needle <> t) ≡ true
contains-infix needle s t =
    contains-append_left needle s (needle <> t)
      (contains_of_starts_with needle (needle <> t) (starts_with-append needle t))

-- `len` of a string: the bytes of its UTF-8 form.
abbrev utf8_width : Char → ℕ
utf8_width c =
    if ltb (code c) 0x80
    then 1
    else if ltb (code c) 0x800
    then 2
    else if ltb (code c) 0x10000
    then 3
    else 4

unfoldable pub byte_length : String → ℕ
byte_length [] = 0
byte_length (c ∷ s) = utf8_width c + byte_length s

-- The order of `sort.Strings`: by code point, which is the order of the bytes of UTF-8.
unfoldable pub str_le : String → String → Bool
str_le [] t = true
str_le (c ∷ s) [] = false
str_le (c ∷ s) (d ∷ t) =
    let rest = str_le s t in
    elim (compare (code c) (code d)) [
      | Ordering.lt ↦ true
      | Ordering.eq ↦ rest
      | Ordering.gt ↦ false
    ]

pub str_le_total : (s t : String) → str_le s t ≡ false → str_le t s ≡ true
unfolding str_le
str_le_total [] t h = cc
str_le_total (c ∷ s) [] h = refl
str_le_total (c ∷ s) (d ∷ t) h = ground (arith, str_le_total s t)

pub str_le_trans : (s t u : String) → str_le s t ≡ true → str_le t u ≡ true → str_le s u ≡ true
unfolding str_le
str_le_trans [] t u h k = refl
str_le_trans (c ∷ s) [] u h k = cc
str_le_trans (c ∷ s) (d ∷ t) [] h k = cc
str_le_trans (c ∷ s) (d ∷ t) (e ∷ u) h k = ground (arith, str_le_trans s t u)

code_inj : (c d : Char) → code c ≡ code d → c ≡ d
code_inj c d h = codes_equal c d (rw h (compare_self (code d)))

pub str_le_antisymm : (s t : String) → str_le s t ≡ true → str_le t s ≡ true → s ≡ t
unfolding str_le
str_le_antisymm [] [] h k = refl
str_le_antisymm [] (d ∷ t) h k = cc
str_le_antisymm (c ∷ s) [] h k = cc
str_le_antisymm (c ∷ s) (d ∷ t) h k = ground (arith, str_le_antisymm s t, code_inj c d)
