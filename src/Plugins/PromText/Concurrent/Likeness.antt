-- ===== src/Plugins/PromText/Concurrent/Likeness.antt =====
-- Lists of messages that print as others do, and the page of the first messages of a list.
use text.Mathlib.TextLemmas.{append_assoc as text_assoc, nil-append, append-nil as append_nil_text}
use dcos_metrics.Plugins.PromText.Concurrent.{nth, put_at}
use dcos_metrics.Plugins.PromText.{Formats, Range, message_to_prom_text}
use dcos_metrics.Prelude.{
  ℕ, zero, suc, String, ◌≡◌, refl, sym, ap, ◌∙◌, ◌≢◌, none, some, List, [], ◌∷◌, ◌<>◌, length,
}
use dcos_metrics.Plugins.Convert.{Conversions}
use dcos_metrics.Producers.{MetricsMessage, Datapoint}
use mathlib.Core.Path.{subst}
use dcos_metrics.Plugins.PromText.Laws.{lines, IsText, IsPage, lines_after, message_to_prom_text-eq}

module _ (p : Formats) (c : Conversions) where
  -- A message that prints as another does.
  pub record IsLike (m m₀ : MetricsMessage) : Type 0 where
    pub same_points : m.datapoints ≡ m₀.datapoints
    pub same_lines :
        (ranges : ℕ → Range) (dps : List Datapoint)
        → lines p c ranges m.dimensions dps ≡ lines p c ranges m₀.dimensions dps

  abbrev pub AllLike : List MetricsMessage → List MetricsMessage → Type 0
  AllLike [] [] = Unit
  AllLike (m ∷ ms) (n ∷ ns) = IsLike m n × AllLike ms ns
  AllLike _ _ = ⊥

  pub AllLike-refl : (l : List MetricsMessage) → AllLike l l
  AllLike-refl [] = tt
  AllLike-refl (m ∷ l) =
      (record { same_points = refl; same_lines = λ ranges dps. refl }, AllLike-refl l)

  pub AllLike-nth :
      (l l₀ : List MetricsMessage) (n : ℕ) (m : MetricsMessage)
      → AllLike l l₀
      → nth l n ≡ some m
      → (m₀ : MetricsMessage) × (nth l₀ n ≡ some m₀) × IsLike m m₀
  AllLike-nth [] l₀ n m h e = absurd (cc)
  AllLike-nth (x ∷ l) [] n m h e = absurd h
  AllLike-nth (x ∷ l) (y ∷ l₀) zero m h e =
      let same : x ≡ m = cc in (y, refl, subst (λ z. IsLike z y) same h.0)
  AllLike-nth (x ∷ l) (y ∷ l₀) (suc n) m h e = AllLike-nth l l₀ n m h.1 e

  pub AllLike-none :
      (l l₀ : List MetricsMessage) (n : ℕ) → AllLike l l₀ → nth l n ≡ none → nth l₀ n ≡ none
  AllLike-none [] [] n h e = refl
  AllLike-none [] (y ∷ l₀) n h e = absurd h
  AllLike-none (x ∷ l) [] n h e = absurd h
  AllLike-none (x ∷ l) (y ∷ l₀) zero h e = absurd (cc)
  AllLike-none (x ∷ l) (y ∷ l₀) (suc n) h e = AllLike-none l l₀ n h.1 e

  pub AllLike-put_at :
      (l l₀ : List MetricsMessage) (n : ℕ) (m m₀ : MetricsMessage)
      → AllLike l l₀
      → nth l₀ n ≡ some m₀
      → IsLike m m₀
      → AllLike (put_at n m l) l₀
  AllLike-put_at [] [] n m m₀ h e k = tt
  AllLike-put_at [] (y ∷ l₀) n m m₀ h e k = absurd h
  AllLike-put_at (x ∷ l) [] n m m₀ h e k = absurd h
  AllLike-put_at (x ∷ l) (y ∷ l₀) zero m m₀ h e k =
      ((let same : y ≡ m₀ = cc in subst (IsLike m) (sym same) k), h.1)
  AllLike-put_at (x ∷ l) (y ∷ l₀) (suc n) m m₀ h e k = (h.0, AllLike-put_at l l₀ n m m₀ h.1 e k)

  -- One message more.
  pub IsText-suc :
      (n : ℕ) (l : List MetricsMessage) (m : MetricsMessage) (t : String) (ranges : ℕ → Range)
      → nth l n ≡ some m
      → IsText p c n l t
      → IsText p c (suc n) l (t <> p.format (lines p c ranges m.dimensions m.datapoints))
  IsText-suc n [] m t ranges e h = absurd (cc)
  IsText-suc zero (x ∷ l) m t ranges e h =
      let same : x ≡ m = cc in
      let text = λ (y : MetricsMessage). p.format (lines p c ranges y.dimensions y.datapoints) in
      (
        ranges,
        "",
        ap (λ u. u <> text m) h
            ∙ nil-append (text m)
            ∙ ap text (sym same)
            ∙ sym (append_nil_text (text x)),
        refl,
      )
  IsText-suc (suc n) (x ∷ l) m t ranges e (first, rest, split, h) =
      let last = p.format (lines p c ranges m.dimensions m.datapoints) in
      let here = p.format (lines p c first x.dimensions x.datapoints) in
      (
        first,
        rest <> last,
        ap (λ u. u <> last) split ∙ text_assoc here rest last,
        IsText-suc n l m rest ranges e h,
      )

  pub IsText-all :
      (n : ℕ) (l : List MetricsMessage) (t : String)
      → nth l n ≡ none
      → IsText p c n l t
      → IsText p c (length l) l t
  IsText-all zero [] t e h = h
  IsText-all zero (x ∷ l) t e h = absurd (cc)
  IsText-all (suc n) [] t e h = absurd h
  IsText-all (suc n) (x ∷ l) t e (ranges, rest, split, h) =
      (ranges, rest, split, IsText-all n l rest e h)

  pub AllLike-nil : (l : List MetricsMessage) → AllLike [] l → l ≡ []
  AllLike-nil [] h = refl
  AllLike-nil (x ∷ l) h = absurd h

  pub IsPage-some :
      (l : List MetricsMessage) (t : String)
      → l ≢ []
      → IsText p c (length l) l t
      → IsPage p c l (some t)
  IsPage-some [] t h k = absurd (h refl)
  IsPage-some (m ∷ l) t h k = (t, refl, k)

  -- What printing a message leaves prints as before, and the text is that of the message that the poll left.
  pub after_printing :
      (ranges : ℕ → Range) (m m₀ : MetricsMessage)
      → IsLike m m₀
      → IsLike
          (record m { dimensions = (message_to_prom_text p c ranges m.dimensions m.datapoints).1 })
          m₀
  after_printing ranges m m₀ k = record {
    same_points = k.same_points;
    same_lines = λ asked dps.
        lines_after p c ranges asked m.dimensions m.datapoints dps ∙ k.same_lines asked dps;
  }

  pub text_of :
      (ranges : ℕ → Range) (m m₀ : MetricsMessage)
      → IsLike m m₀
      → (message_to_prom_text p c ranges m.dimensions m.datapoints).0
        ≡ lines p c ranges m₀.dimensions m₀.datapoints
  text_of ranges m m₀ k =
      message_to_prom_text-eq p c ranges m.dimensions m.datapoints
      ∙ k.same_lines ranges m.datapoints
      ∙ ap (lines p c ranges m₀.dimensions) k.same_points
