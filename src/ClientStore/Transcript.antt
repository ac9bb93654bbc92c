-- ===== src/ClientStore/Transcript.antt =====
-- What `mergeMessages` leaves in the transcript, for each id.
use syncstudies.Base.{◌≤◌, Bool, List, [], ◌∷◌, ◌++◌, none, some, All, ◌≡◌, refl, ap, ◌∙◌, arith}
use syncstudies.Base.Searching.{find, count, count-append, find-append, find-none}
use syncstudies.Base.Sorting.{
  sort_by, count-sort_by, find-sort_by, IsOrder, IsSorted, sort_by-IsSorted,
}
use syncstudies.Base.Text.{String}
use syncstudies.ClientStore.Data.{MessageView, ChatMessage}
use syncstudies.ClientStore.Merge.{
  JsText, Filed, has_id, has_client_id, as_sent, filed, before, merge_messages,
}
use syncstudies.ClientStore.Filing.{IsSent, IsUnsent, IsFiled, sent_as, pending_as, latest}
use syncstudies.ClientStore.Folding.{
  view_has, view_client, filed-IsFiled, by_id-filed, pending-filed,
}

-- At most one confirmed message for an id and one unconfirmed message for a client's id, in the
-- order of the keys.
pub record IsTranscript (js : JsText) (msgs : List ChatMessage) : Type 0 where
  pub one_sent : (j : String) → count (sent_as j) msgs ≤ 1
  pub one_pending : (c : String) → count (pending_as c) msgs ≤ 1
  pub sorted : IsSorted (before js) msgs

sent-count :
    (j : String) (xs : List ChatMessage)
    → All IsSent xs
    → count (sent_as j) xs ≡ count (has_id j) xs
sent-count j [] h = refl
sent-count j (x ∷ xs) (p, h) = ground (arith, sent-count j xs h)

sent-none : (j : String) (xs : List ChatMessage) → All IsUnsent xs → count (sent_as j) xs ≡ 0
sent-none j [] h = refl
sent-none j (x ∷ xs) (p, h) = ground (arith, sent-none j xs h)

sent-find :
    (j : String) (xs : List ChatMessage) → All IsSent xs → find (sent_as j) xs ≡ find (has_id j) xs
sent-find j [] h = refl
sent-find j (x ∷ xs) (p, h) = ground (arith, sent-find j xs h)

pending-count :
    (c : String) (xs : List ChatMessage)
    → All IsUnsent xs
    → count (pending_as c) xs ≡ count (has_client_id (some c)) xs
pending-count c [] h = refl
pending-count c (x ∷ xs) (p, h) = ground (arith, pending-count c xs h)

pending-none : (c : String) (xs : List ChatMessage) → All IsSent xs → count (pending_as c) xs ≡ 0
pending-none c [] h = refl
pending-none c (x ∷ xs) (p, h) = ground (arith, pending-none c xs h)

pending-find :
    (c : String) (xs : List ChatMessage)
    → All IsUnsent xs
    → find (pending_as c) xs ≡ find (has_client_id (some c)) xs
pending-find c [] h = refl
pending-find c (x ∷ xs) (p, h) = ground (arith, pending-find c xs h)

module _ (js : JsText) (f : Filed) (ok : IsFiled f) where
  values_sent :
      (j : String)
      → (count (sent_as j) (f.by_id ++ f.pending) ≤ 1)
        × (find (sent_as j) (f.by_id ++ f.pending) ≡ find (has_id j) f.by_id)
  values_sent j = (
    omega (
      arith,
      count-append (sent_as j) f.by_id f.pending,
      sent-count j f.by_id ok.all_sent,
      sent-none j f.pending ok.all_unsent,
      ok.one_id j,
    ),
    ground (
      arith,
      find-append (sent_as j) f.by_id f.pending,
      sent-find j f.by_id ok.all_sent,
      find-none (sent_as j) f.pending (sent-none j f.pending ok.all_unsent),
    ),
  )

  values_pending :
      (c : String)
      → (count (pending_as c) (f.by_id ++ f.pending) ≤ 1)
        × (find (pending_as c) (f.by_id ++ f.pending) ≡ find (has_client_id (some c)) f.pending)
  values_pending c = (
    omega (
      arith,
      count-append (pending_as c) f.by_id f.pending,
      pending-none c f.by_id ok.all_sent,
      pending-count c f.pending ok.all_unsent,
      ok.one_client c,
    ),
    ground (
      arith,
      find-append (pending_as c) f.by_id f.pending,
      find-none (pending_as c) f.by_id (pending-none c f.by_id ok.all_sent),
      pending-find c f.pending ok.all_unsent,
    ),
  )

  sort_values-IsTranscript :
      IsOrder (before js) → IsTranscript js (sort_by (before js) (f.by_id ++ f.pending))
  sort_values-IsTranscript order = record {
    one_sent = λ j.
        omega
          (arith, count-sort_by (before js) (sent_as j) (f.by_id ++ f.pending), (values_sent j).0);
    one_pending = λ c. omega (
      arith,
      count-sort_by (before js) (pending_as c) (f.by_id ++ f.pending),
      (values_pending c).0,
    );
    sorted = sort_by-IsSorted (before js) (f.by_id ++ f.pending) order;
  }

latest-find :
    (p : ChatMessage → Bool) (xs : List ChatMessage) → count p xs ≤ 1 → latest p xs ≡ find p xs
latest-find p [] h = refl
latest-find p (x ∷ xs) h = ground (arith, latest-find p xs, latest-absent p xs)
  where
    latest-absent :
        (p : ChatMessage → Bool) (xs : List ChatMessage) → count p xs ≡ 0 → latest p xs ≡ none
    latest-absent p [] h = refl
    latest-absent p (x ∷ xs) h = ground (arith, latest-absent p xs)

-- The order of the transcript's keys, which the engine's order of texts gives.
pub before-IsOrder : (js : JsText) → IsOrder js.less → IsOrder (before js)
before-IsOrder js ok = record { asym = λ a b. ok.asym _ _; past = λ a b c. ok.past _ _ _ }

-- A merge leaves a transcript: no id stands twice, neither a confirmed message's nor an unconfirmed
-- one's, and the messages are in the order of their keys. The transcript before it is one, and the
-- engine's `<` on texts is an order.
pub merge_messages-IsTranscript :
    (js : JsText) (existing : List ChatMessage) (incoming : List MessageView)
    → IsOrder js.less
    → IsTranscript js existing
    → IsTranscript js (merge_messages js existing incoming)
unfolding merge_messages
merge_messages-IsTranscript js existing [] order ok = ok
merge_messages-IsTranscript js existing (v ∷ vs) order ok =
    sort_values-IsTranscript js (filed existing (v ∷ vs)) (filed-IsFiled existing (v ∷ vs))
      (before-IsOrder js order)

-- What a merge makes of a transcript, seen as two maps: under an id stands the last message that
-- came in with it, confirmed, or else what stood there before; under a client's id stands what
-- stood there before, unless a message that came in bears it.
pub merge_messages-refines :
    (js : JsText) (existing : List ChatMessage) (incoming : List MessageView) (j c : String)
    → IsTranscript js existing
    → (find (sent_as j) (merge_messages js existing incoming)
        ≡ elim (latest (view_has j) incoming) [
          | none ↦ find (sent_as j) existing
          | some v ↦ some (as_sent v)
        ])
      × (find (pending_as c) (merge_messages js existing incoming)
          ≡ elim (latest (view_client c) incoming) [
            | none ↦ find (pending_as c) existing
            | some v ↦ none
          ])
unfolding merge_messages
merge_messages-refines js existing [] j c ok = (refl, refl)
merge_messages-refines js existing (v ∷ vs) j c ok =
    let f : Filed = filed existing (v ∷ vs) in
    let done : IsFiled f = filed-IsFiled existing (v ∷ vs) in
    let sent_before : latest (sent_as j) existing ≡ find (sent_as j) existing =
      latest-find (sent_as j) existing (ok.one_sent j) in
    let pending_before : latest (pending_as c) existing ≡ find (pending_as c) existing =
      latest-find (pending_as c) existing (ok.one_pending c) in
    (
      find-sort_by (before js) (sent_as j) (f.by_id ++ f.pending) (values_sent js f done j).0
          ∙ (values_sent js f done j).1
          ∙ by_id-filed j existing (v ∷ vs)
          ∙ ap (λ o. elim (latest (view_has j) (v ∷ vs)) [ none ↦ o | some w ↦ some (as_sent w) ])
              sent_before,
      find-sort_by (before js) (pending_as c) (f.by_id ++ f.pending) (values_pending js f done c).0
          ∙ (values_pending js f done c).1
          ∙ pending-filed c existing (v ∷ vs)
          ∙ ap (λ o. elim (latest (view_client c) (v ∷ vs)) [ none ↦ o | some w ↦ none ])
              pending_before,
    )
