-- ===== src/Prelude/Lists.antt =====
-- Lists measured by native numbers, Boolean filters, and predicates by recursion.
use Prim.Native.Nat.{ℕ, zero, suc, ◌+◌}
use mathlib.Core.Path.{◌≡◌, refl, sym, ap, subst}
use mathlib.Core.Logic.{◌⊎◌, inl, inr}
use mathlib.Core.Bool.{Bool, true, ◌&&◌, ◌||◌, false}
use mathlib.Core.List.{List, [], ◌∷◌, ◌++◌}
use mathlib.Core.Option.{Option, none, some}
use native.Mathlib.Omega.{arith}
use dcos_metrics.Prelude.Tests.{if◌then◌else◌}

module _ {ℓ} {A : Type ℓ} where
  abbrev pub length : List A → ℕ
  length [] = 0
  length (x ∷ xs) = suc (length xs)

  pub length-append : (xs ys : List A) → length (xs ++ ys) ≡ length xs + length ys
  length-append [] ys = omega arith
  length-append (x ∷ xs) ys = omega (arith, length-append xs ys)

  abbrev pub all : (A → Bool) → List A → Bool
  all p [] = true
  all p (x ∷ xs) = p x && all p xs

  abbrev pub any : (A → Bool) → List A → Bool
  any p [] = false
  any p (x ∷ xs) = p x || any p xs

  -- The elements that pass a Boolean test, in order.
  unfoldable pub filter : (A → Bool) → List A → List A
  filter p [] = []
  filter p (x ∷ xs) = let rest = filter p xs in if p x then x ∷ rest else rest

  -- The first element that passes a test: a `for` loop that returns from its body.
  unfoldable pub find? : (A → Bool) → List A → Option A
  find? p [] = none
  find? p (x ∷ xs) = let rest = find? p xs in if p x then some x else rest

module _ {ℓ κ} {A : Type ℓ} (P : A → Type κ) where
  abbrev pub All : List A → Type κ
  All [] = Unit
  All (x ∷ xs) = P x × All xs

module _ {ℓ κ} {A : Type ℓ} (P : A → Type κ) where
  pub All-append : (xs ys : List A) → All P xs → All P ys → All P (xs ++ ys)
  All-append [] ys h k = k
  All-append (x ∷ xs) ys (p, h) k = (p, All-append xs ys h k)

  pub All-insert :
      (xs : List A) (y : A) (ys : List A) → P y → All P (xs ++ ys) → All P (xs ++ y ∷ ys)
  All-insert [] y ys q h = (q, h)
  All-insert (x ∷ xs) y ys q (p, h) = (p, All-insert xs y ys q h)

  -- One element taken out of the middle.
  pub All-remove :
      (xs : List A) (y : A) (ys : List A) → All P (xs ++ y ∷ ys) → P y × All P (xs ++ ys)
  All-remove [] y ys h = h
  All-remove (x ∷ xs) y ys (p, h) = let (q, r) = All-remove xs y ys h in (q, (p, r))

module _ {ℓ κ} {A : Type ℓ} {B : Type κ} where
  -- A loop that appends what each element gives.
  unfoldable pub concat_map : (A → List B) → List A → List B
  concat_map f [] = []
  concat_map f (x ∷ xs) = f x ++ concat_map f xs

  pub length-map : (f : A → B) (xs : List A) → length (mathlib.Core.List.map f xs) ≡ length xs
  length-map f [] = refl
  length-map f (x ∷ xs) = ap suc (length-map f xs)

-- An element stands in a list, at the place that the proof shows.
abbrev pub Elem : {A : Type 0} → A → List A → Type 0
Elem a [] = ⊥
Elem a (x ∷ l) = (a ≡ x) ⊎ Elem a l

module _ {A : Type 0} where
  pub Elem-append_left : (a : A) (l r : List A) → Elem a l → Elem a (l ++ r)
  Elem-append_left a [] r h = absurd h
  Elem-append_left a (x ∷ l) r (inl e) = inl e
  Elem-append_left a (x ∷ l) r (inr h) = inr (Elem-append_left a l r h)

  pub Elem-append_right : (a : A) (l r : List A) → Elem a r → Elem a (l ++ r)
  Elem-append_right a [] r h = h
  Elem-append_right a (x ∷ l) r h = inr (Elem-append_right a l r h)

  pub Elem-append_cases : (a : A) (l r : List A) → Elem a (l ++ r) → Elem a l ⊎ Elem a r
  Elem-append_cases a [] r h = inr h
  Elem-append_cases a (x ∷ l) r (inl e) = inl (inl e)
  Elem-append_cases a (x ∷ l) r (inr h) = elim (Elem-append_cases a l r h) [
    | inl i ↦ inl (inr i)
    | inr i ↦ inr i
  ]

module _ {A B : Type 0} where
  pub Elem-concat_map :
      (f : A → List B) (a : A) (b : B) (l : List A)
      → Elem a l
      → Elem b (f a)
      → Elem b (concat_map f l)
  unfolding concat_map
  Elem-concat_map f a b [] h k = absurd h
  Elem-concat_map f a b (x ∷ l) (inl e) k =
      Elem-append_left b (f x) (concat_map f l) (subst (λ y. Elem b (f y)) e k)
  Elem-concat_map f a b (x ∷ l) (inr h) k =
      Elem-append_right b (f x) (concat_map f l) (Elem-concat_map f a b l h k)

pub All-of_Elem : {A : Type 0} {P : A → Type 0} (l : List A) → ((a : A) → Elem a l → P a) → All P l
All-of_Elem [] h = tt
All-of_Elem (x ∷ l) h = (h x (inl refl), All-of_Elem l (λ a i. h a (inr i)))

pub Elem-All : {A : Type 0} (P : A → Type 0) (l : List A) (a : A) → Elem a l → All P l → P a
Elem-All P [] a i h = absurd i
Elem-All P (x ∷ l) a (inl e) (p, h) = subst P (sym e) p
Elem-All P (x ∷ l) a (inr i) (p, h) = Elem-All P l a i h

module _ {ℓ} {A : Type ℓ} where
  abbrev pub take : ℕ → List A → List A
  take zero xs = []
  take (suc n) [] = []
  take (suc n) (x ∷ xs) = x ∷ take n xs
