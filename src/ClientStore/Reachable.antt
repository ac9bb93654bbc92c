-- ===== src/ClientStore/Reachable.antt =====
-- What can happen to a transcript, and that it stays one.
use mathlib.Core.Path.{subst}
use syncstudies.Base.{
  ◌≤◌, Bool, true, false, not, ◌&&◌, ◌||◌, List, [], ◌∷◌, ◌++◌, Option, none, some, keep, ◌≡◌, refl,
  sym, ap, arith, Bool-cases, inl, inr,
}
use syncstudies.Base.Searching.{
  count, count-append, count-keep_le, count-keep_out, count_le, count-replace_first, replace_first,
}
use syncstudies.Base.Sorting.{
  sort_by, count-sort_by, IsOrder, sort_by-IsSorted, keep-IsSorted, replace_first-IsSorted,
}
use syncstudies.Base.Text.{String, str_eq, str_eq_iff}
use syncstudies.Base.Int.{ℤ}
use syncstudies.ClientStore.Data.{MessageView, ChatMessage, Delivery, sent, sending, failed}
use syncstudies.ClientStore.Merge.{
  JsText, is_sent, has_id, has_client_id, same_text, order_key, before, merge_messages,
}
use syncstudies.ClientStore.Filing.{sent_as, pending_as, IsUnsent}
use syncstudies.ClientStore.Messages.{
  is_sending, fail, tombstone, tombstone_view, mark_message_failed, remove_message,
  mark_message_deleted, add_optimistic_message,
}
use syncstudies.ClientStore.Transcript.{IsTranscript, merge_messages-IsTranscript, before-IsOrder}

-- A reducer's effect on the transcript. What is added before its ack bears a client's id.
pub data Change (js : JsText) (msgs : List ChatMessage) : List ChatMessage → Type 0 where
  merged : (incoming : List MessageView) → Change js msgs (merge_messages js msgs incoming)
  optimistic :
      (m : ChatMessage) (c : String)
      → m.view.client_msg_id ≡ some c
      → IsUnsent m
      → Change js msgs (add_optimistic_message js msgs m)
  marked_failed : (c : String) → Change js msgs (mark_message_failed msgs c)
  removed : (c : String) → Change js msgs (remove_message msgs c)
  marked_deleted : (id : String) (now : ℤ) → Change js msgs (mark_message_deleted msgs id now)

-- The transcripts that a store comes to, from the empty one.
pub data Reachable (js : JsText) : List ChatMessage → Type 0 where
  start : Reachable js []
  next :
      {msgs after : List ChatMessage}
      → Reachable js msgs
      → Change js msgs after
      → Reachable js after

-- What a change of one message keeps, when it keeps what the message is filed under.
module _ (js : JsText) (p : ChatMessage → Bool) (f : ChatMessage → ChatMessage)
    (same_delivery : (m : ChatMessage) → p m ≡ true → is_sent (f m).delivery ≡ is_sent m.delivery)
    (same_id : (m : ChatMessage) → p m ≡ true → (f m).view.id ≡ m.view.id)
    (same_client : (m : ChatMessage) → p m ≡ true → (f m).view.client_msg_id ≡ m.view.client_msg_id)
    (same_time : (m : ChatMessage) → p m ≡ true → (f m).view.created_at ≡ m.view.created_at) where
  same_key : (m : ChatMessage) → p m ≡ true → order_key js (f m) ≡ order_key js m
  unfolding order_key
  same_key m h = rw (same_delivery m h, same_id m h, same_client m h, same_time m h)

  replace_first-IsTranscript :
      (msgs : List ChatMessage) → IsTranscript js msgs → IsTranscript js (replace_first p f msgs)
  replace_first-IsTranscript msgs ok = record {
    one_sent = λ j.
        subst (λ n. n ≤ 1)
          (sym
            (count-replace_first p (sent_as j) f msgs (λ m h. rw (same_delivery m h, same_id m h))))
          (ok.one_sent j);
    one_pending = λ c.
        subst (λ n. n ≤ 1)
          (sym (
            count-replace_first p (pending_as c) f msgs
              (λ m h. rw (same_delivery m h, same_client m h))))
          (ok.one_pending c);
    sorted =
        replace_first-IsSorted (before js) p f msgs
          (λ m y h. ap (λ k. js.less k (order_key js y)) (same_key m h))
          (λ m y h. ap (js.less (order_key js y)) (same_key m h)) ok.sorted;
  }

sending-unsent : (d : Delivery) (b : Bool) → b && is_sending d ≡ true → is_sent failed ≡ is_sent d
sending-unsent sent b h = ground arith
sending-unsent sending b h = refl
sending-unsent failed b h = refl

module _ (js : JsText) (msgs : List ChatMessage) (ok : IsTranscript js msgs) where
  mark_message_failed-IsTranscript : (c : String) → IsTranscript js (mark_message_failed msgs c)
  unfolding mark_message_failed
  mark_message_failed-IsTranscript c =
      replace_first-IsTranscript js (λ m. has_client_id (some c) m && is_sending m.delivery) fail
        (λ m h. sending-unsent m.delivery (has_client_id (some c) m) h) (λ m h. refl) (λ m h. refl)
        (λ m h. refl) msgs ok

  tombstone_keeps :
      (now : ℤ) (v : MessageView) (at : Option ℤ)
      → ((tombstone_view now v at).id ≡ v.id)
        × ((tombstone_view now v at).client_msg_id ≡ v.client_msg_id)
        × ((tombstone_view now v at).created_at ≡ v.created_at)
  tombstone_keeps now v none = (refl, refl, refl)
  tombstone_keeps now v (some t) = (refl, refl, refl)

  mark_message_deleted-IsTranscript :
      (id : String) (now : ℤ) → IsTranscript js (mark_message_deleted msgs id now)
  unfolding mark_message_deleted
  mark_message_deleted-IsTranscript id now =
      let keeps = λ (m : ChatMessage). tombstone_keeps now m.view m.view.deleted_at in
      replace_first-IsTranscript js (has_id id) (tombstone now) (λ m h. refl) (λ m h. (keeps m).0)
        (λ m h. (keeps m).1) (λ m h. (keeps m).2) msgs ok

  remove_message-IsTranscript : (c : String) → IsTranscript js (remove_message msgs c)
  unfolding remove_message
  remove_message-IsTranscript c =
      let stays = λ (m : ChatMessage). not (has_client_id (some c) m) || is_sent m.delivery in
      record {
        one_sent = λ j. omega (arith, count-keep_le (sent_as j) stays msgs, ok.one_sent j);
        one_pending = λ d. omega (arith, count-keep_le (pending_as d) stays msgs, ok.one_pending d);
        sorted = keep-IsSorted (before js) stays msgs ok.sorted;
      }

  module _ (m : ChatMessage) (c : String) (own : m.view.client_msg_id ≡ some c)
      (unsent : IsUnsent m) where
    abbrev others : List ChatMessage
    others = keep (λ x. not (has_client_id (some c) x)) msgs

    one_sent_more : (j : String) → count (sent_as j) (others ++ m ∷ []) ≤ 1
    one_sent_more j = ground (
      arith,
      count-append (sent_as j) others (m ∷ []),
      count-keep_le (sent_as j) (λ x. not (has_client_id (some c) x)) msgs,
      ok.one_sent j,
    )

    none_left : count (pending_as c) others ≡ 0
    none_left = omega (
      arith,
      count_le (pending_as c) (has_client_id (some c)) others (λ x h. ground arith),
      count-keep_out (has_client_id (some c)) msgs,
    )

    own_other : (d : String) → str_eq c d ≡ false → has_client_id (some d) m ≡ false
    own_other d differ = subst (λ k. same_text k (some d) ≡ false) (sym own) differ

    one_more : (d : String) → count (pending_as d) (others ++ m ∷ []) ≤ 1
    one_more d = elim (Bool-cases (str_eq c d)) [
      | inl same ↦
          subst (λ t. count (pending_as t) (others ++ m ∷ []) ≤ 1) ((str_eq_iff c d).0 same)
            (ground (arith, count-append (pending_as c) others (m ∷ []), none_left))
      | inr differ ↦ ground (
        arith,
        count-append (pending_as d) others (m ∷ []),
        own_other d differ,
        count-keep_le (pending_as d) (λ x. not (has_client_id (some c) x)) msgs,
        ok.one_pending d,
      )
    ]

    sort_others-IsTranscript :
        IsOrder js.less → IsTranscript js (sort_by (before js) (others ++ m ∷ []))
    sort_others-IsTranscript order = record {
      one_sent = λ j.
          omega (arith, count-sort_by (before js) (sent_as j) (others ++ m ∷ []), one_sent_more j);
      one_pending = λ d.
          omega (arith, count-sort_by (before js) (pending_as d) (others ++ m ∷ []), one_more d);
      sorted = sort_by-IsSorted (before js) (others ++ m ∷ []) (before-IsOrder js order);
    }

    add_optimistic_message-IsTranscript :
        IsOrder js.less → IsTranscript js (add_optimistic_message js msgs m)
    unfolding add_optimistic_message
    add_optimistic_message-IsTranscript order =
        subst
          (λ k.
            IsTranscript js
              (sort_by (before js) (keep (λ x. not (has_client_id k x)) msgs ++ m ∷ [])))
          (sym own) (sort_others-IsTranscript order)

pub Change-IsTranscript :
    (js : JsText) {msgs after : List ChatMessage}
    → IsOrder js.less
    → IsTranscript js msgs
    → Change js msgs after
    → IsTranscript js after
Change-IsTranscript js {msgs} order ok (merged incoming) =
    merge_messages-IsTranscript js msgs incoming order ok
Change-IsTranscript js {msgs} order ok (optimistic m c own unsent) =
    add_optimistic_message-IsTranscript js msgs ok m c own unsent order
Change-IsTranscript js {msgs} order ok (marked_failed c) =
    mark_message_failed-IsTranscript js msgs ok c
Change-IsTranscript js {msgs} order ok (removed c) = remove_message-IsTranscript js msgs ok c
Change-IsTranscript js {msgs} order ok (marked_deleted id now) =
    mark_message_deleted-IsTranscript js msgs ok id now

-- Whatever messages come in, are typed, fail, are given up or are deleted, in any order, no message
-- stands twice: neither two confirmed ones of an id nor two unconfirmed ones of a client's id; and
-- the messages are in the order of their keys. The engine's `<` on texts is an order.
pub Reachable-IsTranscript :
    (js : JsText) {msgs : List ChatMessage}
    → IsOrder js.less
    → Reachable js msgs
    → IsTranscript js msgs
Reachable-IsTranscript js order start = record {
  one_sent = λ j. omega arith;
  one_pending = λ c. omega arith;
  sorted = tt;
}
Reachable-IsTranscript js order (next before_it change) =
    Change-IsTranscript js order (Reachable-IsTranscript js order before_it) change
