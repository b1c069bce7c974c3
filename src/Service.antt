-- ===== src/Service.antt =====
-- The service as a whole: dcos-metrics.go and config.go, and the client of util/http that they share.
pub mod Client
pub mod Config
pub mod Broadcast
pub mod Freshness
pub mod NodeServed
use dcos_metrics.Prelude.{
  ℕ, zero, suc, ◌+◌, ◌-◌, ◌≤◌, ◌<◌, String, ◌≡◌, refl, sym, ap, ◌∙◌, ◌≢◌, ◌⊎◌, inl, inr, Bool, true,
  false, ◌&&◌, ◌||◌, not, Option, none, some, List, [], ◌∷◌, ◌++◌, arith, ◌==◌, eq_iff,
  if◌then◌else◌,
}
use mathlib.Core.Path.{subst}

-- What a call of a service that may end itself comes to: a value, an error that is returned, or the end of the process with a status.
pub data Result {ℓ} (A : Type ℓ) : Type ℓ where
  ok : A → Result A
  failed : String → Result A
  exited : ℕ → Result A

infixl 5 ◌>>>◌
abbrev pub ◌>>>◌ {ℓ κ} : {A : Type ℓ} {B : Type κ} → Result A → (A → Result B) → Result B
ok a >>> f = f a
failed e >>> f = failed e
exited n >>> f = exited n

abbrev pub or_failed {ℓ} : {A : Type ℓ} → Option A → String → Result A
or_failed none e = failed e
or_failed (some a) e = ok a

-- Inversion of a chain that gave a value.
pub >>>-eq-ok {ℓ κ} :
    {A : Type ℓ} {B : Type κ} (m : Result A) (f : A → Result B) {b : B}
    → (m >>> f) ≡ ok b
    → (a : A) × (m ≡ ok a) × (f a ≡ ok b)
>>>-eq-ok (ok a) f h = (a, refl, h)
>>>-eq-ok (failed e) f h = cc
>>>-eq-ok (exited n) f h = cc

-- What holds of the value that a chain gave holds of it under its other name.
pub ok-transport {ℓ} :
    {A : Type ℓ} (P : A → Type 0) {a b : A} → Result.ok a ≡ Result.ok b → P a → P b
ok-transport P {a} {b} e p = let same : a ≡ b = cc in subst P same p

-- To split on the result of a call and keep the equation.
pub Result-cases {ℓ} :
    {A : Type ℓ} (r : Result A)
    → ((a : A) × (r ≡ ok a)) ⊎ (((e : String) × (r ≡ failed e)) ⊎ ((n : ℕ) × (r ≡ exited n)))
Result-cases (ok a) = inl (a, refl)
Result-cases (failed e) = inr (inl (e, refl))
Result-cases (exited n) = inr (inr (n, refl))

pub Result-ok? {ℓ} : {A : Type ℓ} (r : Result A) → ((a : A) × (r ≡ ok a)) ⊎ ((a : A) → r ≢ ok a)
Result-ok? (ok a) = inl (a, refl)
Result-ok? (failed e) = inr (λ a h. cc)
Result-ok? (exited n) = inr (λ a h. cc)
