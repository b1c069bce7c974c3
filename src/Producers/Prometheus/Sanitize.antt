-- ===== src/Producers/Prometheus/Sanitize.antt =====
-- `sanitize` of producers/prometheus/prometheus.go, which is `sanitizeName` of
-- plugins/prometheus/prometheus.go too.
use Prim.Native.Char.{code}
use dcos_metrics.Prelude.{
  ℕ, ◌+◌, String, ◌≡◌, refl, sym, ap, ◌∙◌, inl, inr, Bool, true, false, ◌&&◌, ◌||◌, List, [], ◌∷◌,
  ◌++◌, arith, if◌then◌else◌, Bool-cases, eqb, map, all, leb, ap₂,
}
use mathlib.Core.List.{map-append}

unfoldable pub codes : String → List ℕ
codes String.[] = []
codes (String.◌∷◌ c s) = code c ∷ codes s

abbrev is_digit : ℕ → Bool
is_digit c = leb b'0' c && leb c b'9'

abbrev is_upper : ℕ → Bool
is_upper c = leb b'A' c && leb c b'Z'

abbrev is_lower : ℕ → Bool
is_lower c = leb b'a' c && leb c b'z'

-- `[a-zA-Z_]` and `[a-zA-Z0-9_]`, the class `\w` of Go's `regexp`.
unfoldable pub is_head : ℕ → Bool
is_head c = is_lower c || is_upper c || eqb c b'_'

unfoldable pub is_word : ℕ → Bool
is_word c = is_lower c || is_upper c || is_digit c || eqb c b'_'

-- One character through `illegalChars.ReplaceAllString(name, "_")` and `strings.ToLower`.
unfoldable pub clean_char : ℕ → ℕ
clean_char c = if is_word c then (if is_upper c then c + 32 else c) else b'_'

-- `legalLabel.MatchString`.
unfoldable pub is_legal : List ℕ → Bool
unfolding is_head is_word
is_legal [] = false
is_legal (c ∷ s) = is_head c && all is_word s

unfoldable pub sanitize : List ℕ → List ℕ
sanitize name =
    let output = map clean_char name in if is_legal output then output else b'_' ∷ output

clean_char-is_word : (c : ℕ) → is_word (clean_char c) ≡ true
unfolding clean_char is_word
clean_char-is_word c = ground arith

clean_char_idem : (c : ℕ) → clean_char (clean_char c) ≡ clean_char c
unfolding clean_char is_word
clean_char_idem c = ground arith

all-map-clean_char : (s : List ℕ) → all is_word (map clean_char s) ≡ true
all-map-clean_char [] = refl
all-map-clean_char (c ∷ s) = ground (arith, clean_char-is_word c, all-map-clean_char s)

map-clean_char_idem : (s : List ℕ) → map clean_char (map clean_char s) ≡ map clean_char s
map-clean_char_idem [] = refl
map-clean_char_idem (c ∷ s) = cc (clean_char_idem c, map-clean_char_idem s)

same_char : (c d : ℕ) → is_word c ≡ false → is_word d ≡ false → clean_char c ≡ clean_char d
unfolding clean_char
same_char c d h k = ground arith

underscore : is_head b'_' ≡ true
unfolding is_head
underscore = refl

clean_underscore : clean_char b'_' ≡ b'_'
unfolding clean_char is_word
clean_underscore = refl

prefixed-is_legal : (s : List ℕ) → all is_word s ≡ true → is_legal (b'_' ∷ s) ≡ true
unfolding is_legal
prefixed-is_legal s h = ground (arith, h)

-- Whatever the name, the result is one that Prometheus accepts.
pub sanitize-is_legal : (name : List ℕ) → is_legal (sanitize name) ≡ true
unfolding sanitize
sanitize-is_legal name = elim (Bool-cases (is_legal (map clean_char name))) [
  | inl e ↦ rw e e
  | inr e ↦ rw e (prefixed-is_legal _ (all-map-clean_char name))
]

-- A clean and legal name is left alone.
sanitize_of_clean : (s : List ℕ) → map clean_char s ≡ s → is_legal s ≡ true → sanitize s ≡ s
unfolding sanitize
sanitize_of_clean s h e = rw h (rw e refl)

map-clean_char-sanitize : (name : List ℕ) → map clean_char (sanitize name) ≡ sanitize name
unfolding sanitize
map-clean_char-sanitize name = elim (Bool-cases (is_legal (map clean_char name))) [
  | inl e ↦ rw e (map-clean_char_idem name)
  | inr e ↦ rw e (ap₂ (λ c s. c ∷ s) clean_underscore (map-clean_char_idem name))
]

-- Sanitising a second time changes nothing.
pub sanitize_idem : (name : List ℕ) → sanitize (sanitize name) ≡ sanitize name
sanitize_idem name =
    sanitize_of_clean (sanitize name) (map-clean_char-sanitize name) (sanitize-is_legal name)

-- Two names that differ in one character, which is illegal in both, get the same result.
pub sanitize_collision :
    (a b : List ℕ) (c d : ℕ)
    → is_word c ≡ false
    → is_word d ≡ false
    → sanitize (a ++ c ∷ b) ≡ sanitize (a ++ d ∷ b)
unfolding sanitize
sanitize_collision a b c d h k =
    ap (λ output. if is_legal output then output else b'_' ∷ output)
      (map-append clean_char a (c ∷ b)
        ∙ ap (λ x. map clean_char a ++ x ∷ map clean_char b) (same_char c d h k)
        ∙ sym (map-append clean_char a (d ∷ b)))
