-- ===== src/Collectors/Framework/Throttle.antt =====
-- The limit on input in `handleConnection` of collectors/framework/framework.go: the loop over the
-- records of one connection. Times are nanoseconds since the epoch.
pub mod Bounds
use dcos_metrics.Prelude.Int.{ℤ, pos, wrap, ltb_ℤ, ◌*ℤ◌, ◌+ℤ◌, ◌≤ℤ◌, pos_part, neg_part}
use dcos_metrics.Prelude.{
  ℕ, ◌+◌, ◌≤◌, ◌<◌, ◌≡◌, refl, ◌⊎◌, inl, inr, Option, none, some, List, [], ◌∷◌, arith,
  if◌then◌else◌, ◌*◌, ltb, ◌↔◌, Option-cases, zero, suc, ◌-◌, String, sym, ap, ◌∙◌, ◌≢◌, Bool, true,
  false, ◌&&◌, ◌||◌, not, ◌++◌, ◌==◌, eq_iff,
}

-- `InputLimitAmountKBytesFlag` and `InputLimitPeriodFlag` (seconds): flags of type int that nothing checks, so that they can be negative.
pub record Limits : Type 0 where
  pub amount_kbytes : ℤ
  pub period : ℤ

-- The loop's variables, with the reader's counter.
pub record Loop : Type 0 where
  pub input_bytes : ℕ
  pub next_input_reset_time : ℤ
  pub record_count : ℕ

-- What one round meets: the bytes that came in while it waited for a record, the time at which it
-- looks at the clock, and the record, or an error in reading it. The counter is an int64 that no connection fills.
pub record Round (A : Type 0) : Type 0 where
  pub bytes : ℕ
  pub now : ℕ
  pub datum : Option A

-- `int64(amount) * 1024` and `time.Second * time.Duration(period)`, which wrap around.
unfoldable pub limit_bytes : Limits → ℤ
limit_bytes l = wrap 64 (l.amount_kbytes *ℤ pos 1024)

unfoldable pub nanoseconds_of : ℤ → ℤ
nanoseconds_of period = wrap 64 (pos 1000000000 *ℤ period)

-- The time of the next reset, as it is set at `now`.
abbrev pub reset_time : Limits → ℕ → ℤ
reset_time l now = pos now +ℤ nanoseconds_of l.period

-- A clock that shows a later time.
abbrev pub IsLater : ℕ → ℤ → Type 0
IsLater now t = pos_part t < now + neg_part t

-- A number of bytes within the limit, and one above it.
abbrev pub IsWithin : Limits → ℕ → Type 0
IsWithin l n = n + neg_part (limit_bytes l) ≤ pos_part (limit_bytes l)

abbrev pub IsAbove : Limits → ℕ → Type 0
IsAbove l n = pos_part (limit_bytes l) < n + neg_part (limit_bytes l)

-- The counters are set back when the period is over.
unfoldable pub reset : Limits → ℕ → Loop → Loop
reset l now s =
    if ltb_ℤ s.next_input_reset_time (pos now)
    then record { input_bytes = 0; next_input_reset_time = reset_time l now; record_count = 0 }
    else s

-- The first state: the bytes that the reader of Avro has read for the header, and the time after that.
unfoldable pub start : Limits → ℕ → ℕ → Loop
start l header now = record {
  input_bytes = header;
  next_input_reset_time = reset_time l now;
  record_count = 0;
}

-- One round: the new state, and the record if it goes on to `transform`.
module _ {A : Type 0} where
  unfoldable pub admit : Limits → A → Loop → Loop × Option A
  admit l datum s = (s, if ltb_ℤ (limit_bytes l) (pos s.input_bytes) then none else some datum)

  unfoldable pub round : Limits → Round A → Loop → Loop × Option A
  round l r s =
      let read = record s { input_bytes = s.input_bytes + r.bytes } in
      elim r.datum [
        | none ↦ (read, none)
        | some datum ↦
            admit l datum (reset l r.now (record read { record_count = read.record_count + 1 }))
      ]

  -- The records of a connection that go on to `transform`, in order.
  unfoldable pub handle : Limits → List (Round A) → Loop → List A
  handle l [] s = []
  handle l (r ∷ rs) s =
      let (s', out) = round l r s in
      elim out [ none ↦ handle l rs s' | some datum ↦ datum ∷ handle l rs s' ]

  -- The bytes of a run of rounds, and the records that were read in it.
  abbrev pub bytes_of : List (Round A) → ℕ
  bytes_of [] = 0
  bytes_of (r ∷ rs) = r.bytes + bytes_of rs

  abbrev pub read_of : List (Round A) → List A
  read_of [] = []
  read_of (r ∷ rs) = elim r.datum [ none ↦ read_of rs | some d ↦ d ∷ read_of rs ]

  abbrev pub Before : ℤ → List (Round A) → Type 0
  Before t [] = Unit
  Before t (r ∷ rs) = (pos r.now ≤ℤ t) × Before t rs

  -- Of a run of rounds before the next reset whose bytes, with those counted so far, do not exceed the limit, every record that was read goes on, in order.
  pub handle_all :
      (l : Limits) (rs : List (Round A)) (s : Loop)
      → Before s.next_input_reset_time rs
      → IsWithin l (s.input_bytes + bytes_of rs)
      → handle l rs s ≡ read_of rs
  unfolding handle round admit reset
  handle_all l [] s b h = refl
  handle_all l (r ∷ rs) s b h =
      let read = record s { input_bytes = s.input_bytes + r.bytes } in
      let counted = record read { record_count = s.record_count + 1 } in
      elim (Option-cases r.datum) [
        | inl n ↦ ground (arith, n, handle_all l rs read b.1)
        | inr (d, e) ↦ ground (arith, e, handle_all l rs counted b.1)
      ]

  -- When the bytes counted so far exceed the limit, no record of a run of rounds before the next reset goes on.
  pub handle_none :
      (l : Limits) (rs : List (Round A)) (s : Loop)
      → Before s.next_input_reset_time rs
      → IsAbove l s.input_bytes
      → handle l rs s ≡ []
  unfolding handle round admit reset
  handle_none l [] s b h = refl
  handle_none l (r ∷ rs) s b h =
      let read = record s { input_bytes = s.input_bytes + r.bytes } in
      let counted = record read { record_count = s.record_count + 1 } in
      elim (Option-cases r.datum) [
        | inl n ↦ ground (arith, n, handle_none l rs read b.1)
        | inr (d, e) ↦ ground (arith, e, handle_none l rs counted b.1)
      ]
