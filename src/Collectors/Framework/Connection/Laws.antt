-- ===== src/Collectors/Framework/Connection/Laws.antt =====
-- What a connection does to a producer's store.
use dcos_metrics.Collectors.Framework.Throttle.{start, Round, Limits, Before, read_of, reset_time}
use dcos_metrics.Prelude.{
  ℕ, String, ◌≡◌, refl, sym, ap, ◌∙◌, inl, inr, Bool, true, false, none, some, List, [], ◌∷◌, ◌++◌,
  if◌then◌else◌, All, Option-cases, filter, map,
}
use dcos_metrics.Collectors.Framework.Transform.{AvroApi}
use dcos_metrics.Producers.{Value}
use dcos_metrics.Collectors.{NodeInfo}
use dcos_metrics.Producers.Store.{StoreApi}
use dcos_metrics.Collectors.Framework.Connection.{
  AvroDatum, handle_connection, outcome_of, Arrival, messages_of_records, round_of, bytes_read,
}
use dcos_metrics.Collectors.Framework.Extract.{AvroRecord, Error}
use dcos_metrics.Producers.Cache.{receive_all, receive}
use dcos_metrics.Collectors.Framework.Extract.Laws.{BeginsWithoutDatapoint}
use dcos_metrics.Collectors.Framework.Transform.Laws.{receive-transform_error}
use dcos_metrics.Collectors.Framework.Throttle.Bounds.{IsCut, handle-IsCut}
use mathlib.Core.Path.{subst}

module _ {A : Type 0} where
  read_of-none : (r : Round A) (l : List (Round A)) → r.datum ≡ none → read_of (r ∷ l) ≡ read_of l
  read_of-none r l n = ap (λ o. elim o [ none ↦ read_of l | some d ↦ d ∷ read_of l ]) n

  read_of-some :
      (r : Round A) (l : List (Round A)) (d : A)
      → r.datum ≡ some d
      → read_of (r ∷ l) ≡ d ∷ read_of l
  read_of-some r l d e = ap (λ o. elim o [ none ↦ read_of l | some d ↦ d ∷ read_of l ]) e

module _ {A : Type 0} (P : A → Type 0) where
  read_of-left : (a b : List (Round A)) → All P (read_of (a ++ b)) → All P (read_of a)
  read_of-left [] b h = tt
  read_of-left (r ∷ a) b h = elim (Option-cases r.datum) [
    | inl n ↦
        subst (All P) (sym (read_of-none r a n))
          (read_of-left a b (subst (All P) (read_of-none r (a ++ b) n) h))
    | inr (d, e) ↦
        let both : P d × All P (read_of (a ++ b)) = subst (All P) (read_of-some r (a ++ b) d e) h in
        subst (All P) (sym (read_of-some r a d e)) (both.0, read_of-left a b both.1)
  ]

module _ (api : AvroApi) (show : Value → String) (node_info : NodeInfo) where
  open api use {get, create_object}

  -- The schema of a record: its tags do not begin with a datapoint.
  abbrev pub IsBySchema : AvroDatum api → Type 0
  IsBySchema d =
      (tags : AvroApi.Datum api) (ar : AvroRecord)
      → get d.datum "tags" ≡ some tags
      → create_object tags ≡ some ar
      → BeginsWithoutDatapoint ar

  -- `transform` gives no error.
  abbrev pub is_accepted : AvroDatum api → Bool
  is_accepted d = elim ((outcome_of api show node_info d).1) [ none ↦ true | some e ↦ false ]

  module _ (store : StoreApi) where
    refused :
        (d : AvroDatum api) (e : Error) (s : StoreApi.Store store)
        → IsBySchema d
        → (outcome_of api show node_info d).1 ≡ some e
        → receive store (outcome_of api show node_info d).0 s ≡ s
    unfolding outcome_of
    refused d e s h k =
        receive-transform_error api show d.now d.time store s d.datum node_info d.rels e h k

    filter-accepted :
        (d : AvroDatum api) (ds : List (AvroDatum api))
        → (outcome_of api show node_info d).1 ≡ none
        → filter is_accepted (d ∷ ds) ≡ d ∷ filter is_accepted ds
    unfolding filter
    filter-accepted d ds n =
        ap
          (λ o.
            if elim o [ none ↦ true | some e ↦ false ]
            then d ∷ filter is_accepted ds
            else filter is_accepted ds)
          n

    filter-refused :
        (d : AvroDatum api) (ds : List (AvroDatum api)) (e : Error)
        → (outcome_of api show node_info d).1 ≡ some e
        → filter is_accepted (d ∷ ds) ≡ filter is_accepted ds
    unfolding filter
    filter-refused d ds e k =
        ap
          (λ o.
            if elim o [ none ↦ true | some e ↦ false ]
            then d ∷ filter is_accepted ds
            else filter is_accepted ds)
          k

    filter-nothing : filter is_accepted [] ≡ []
    unfolding filter
    filter-nothing = refl

    receive_all-accepted :
        (ds : List (AvroDatum api)) (s : StoreApi.Store store)
        → All IsBySchema ds
        → receive_all store (messages_of_records api show node_info ds) s
          ≡ receive_all store (messages_of_records api show node_info (filter is_accepted ds)) s
    unfolding receive_all messages_of_records
    receive_all-accepted [] s h =
        ap (λ l. receive_all store (messages_of_records api show node_info l) s)
          (sym filter-nothing)
    receive_all-accepted (d ∷ ds) s (h, hs) =
        let s' = receive store (outcome_of api show node_info d).0 s in
        elim (Option-cases (outcome_of api show node_info d).1) [
          | inl n ↦
              receive_all-accepted ds s' hs
              ∙ ap (λ l. receive_all store (messages_of_records api show node_info l) s)
                  (sym (filter-accepted d ds n))
          | inr (e, k) ↦
              ap (receive_all store (messages_of_records api show node_info ds)) (refused d e s h k)
              ∙ receive_all-accepted ds s hs
              ∙ ap (λ l. receive_all store (messages_of_records api show node_info l) s)
                  (sym (filter-refused d ds e k))
        ]

    -- In the first period of a connection whose records keep to the schema there is one cut, as the limit puts it on the bytes of the header and the records: what the store holds after the connection is what the records before the cut make of it that `transform` accepts.
    pub handle_connection-stored :
        (limits : Limits) (opening : List ℕ) (now : ℕ) (arrivals : List (Arrival api))
        (s : StoreApi.Store store)
        → Before (reset_time limits now) (map (round_of api) arrivals)
        → All IsBySchema (read_of (map (round_of api) arrivals))
        → (a : List (Round (AvroDatum api))) × (b : List (Round (AvroDatum api))) × (map
              (round_of api)
              arrivals
            ≡ a ++ b)
          × IsCut limits a b (bytes_read opening)
          × (receive_all store
                (handle_connection api show node_info limits opening now (some arrivals))
                s
              ≡ receive_all store
                  (messages_of_records api show node_info (filter is_accepted (read_of a)))
                  s)
    unfolding handle_connection start
    handle_connection-stored limits opening now arrivals s h k =
        let (a, b, split, goes, cut) =
          handle-IsCut limits (map (round_of api) arrivals) (start limits (bytes_read opening) now)
            h in
        let k' = read_of-left IsBySchema a b (subst (λ l. All IsBySchema (read_of l)) split k) in
        (
          a,
          b,
          split,
          cut,
          ap (λ l. receive_all store (messages_of_records api show node_info l) s) goes
              ∙ receive_all-accepted (read_of a) s k',
        )
