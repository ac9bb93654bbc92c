-- ===== src/ClientStore/Examples.antt =====
-- A short chat, a paragraph and two anchors, and the theorems applied there.
use syncstudies.Base.{List, [], ◌∷◌, none, some, ltb, if◌then◌else◌, ◌≡◌, refl, arith, inl, inr}
use syncstudies.Base.Searching.{find}
use syncstudies.Base.Sorting.{IsOrder}
use syncstudies.Base.Text.{str_eq}
use syncstudies.Base.Int.{pos}
use syncstudies.Timeline.{idle_anchor, VideoAnchor}
use syncstudies.ClientStore.Data.{
  MessageView, MessageKind, ChatMessage, sending, NoteBlockView, initial_data,
}
use syncstudies.ClientStore.Merge.{JsText, as_sent, filed, order_key, merge_messages}
use syncstudies.ClientStore.Messages.{add_optimistic_message, mark_message_failed}
use syncstudies.ClientStore.Filing.{sent_as, pending_as, latest}
use syncstudies.ClientStore.Folding.{view_has, view_client}
use syncstudies.ClientStore.Transcript.{IsTranscript, merge_messages-refines}
use syncstudies.ClientStore.Reachable.{
  Reachable, start, next, optimistic, marked_failed, merged, Reachable-IsTranscript,
}
use syncstudies.ClientStore.Notes.{is_block, apply_block_update}
use syncstudies.ClientStore.Blocks.{newer, apply_block_update-refines, deleted-returns}
use syncstudies.ClientStore.Converge.{NotAfter, set_videos, set_videos-latest}
use Prim.Native.String

-- Texts by their length.
abbrev by_length : JsText
by_length = record {
  less = λ a b. ltb (String.len a) (String.len b);
  locale_less = λ a b. ltb (String.len a) (String.len b);
  padded = λ t. "000000000000007";
}

by_length-IsOrder : IsOrder by_length.less
by_length-IsOrder = record { asym = λ a b. ground arith; past = λ a b c. ground arith }

abbrev hello : MessageView
hello = record {
  id = "local:k1";
  room_id = "r";
  author = none;
  client_msg_id = some "k1";
  body = "hello";
  kind = MessageKind.user;
  reply_to_id = none;
  video_ts = none;
  created_at = pos 7;
  deleted_at = none;
}

abbrev typed : ChatMessage
typed = record { view = hello; delivery = sending }

abbrev confirmed : MessageView
confirmed = record hello { id = "0192" }

abbrev one_typed : List ChatMessage
one_typed = add_optimistic_message by_length [] typed

one_typed-Reachable : Reachable by_length one_typed
one_typed-Reachable = next start (optimistic typed "k1" refl refl)

Reachable-IsTranscript_example :
    IsTranscript by_length
      (merge_messages by_length (mark_message_failed one_typed "k1") (confirmed ∷ []))
Reachable-IsTranscript_example =
    Reachable-IsTranscript by_length by_length-IsOrder
      (next (next one_typed-Reachable (marked_failed "k1")) (merged (confirmed ∷ [])))

merge_messages-refines_example :
    (find (sent_as "0192") (merge_messages by_length one_typed (confirmed ∷ []))
      ≡ elim (latest (view_has "0192") (confirmed ∷ [])) [
        | none ↦ find (sent_as "0192") one_typed
        | some v ↦ some (as_sent v)
      ])
    × (find (pending_as "k1") (merge_messages by_length one_typed (confirmed ∷ []))
        ≡ elim (latest (view_client "k1") (confirmed ∷ [])) [
          | none ↦ find (pending_as "k1") one_typed
          | some v ↦ none
        ])
merge_messages-refines_example =
    merge_messages-refines by_length one_typed (confirmed ∷ []) "0192" "k1"
      (Reachable-IsTranscript by_length by_length-IsOrder one_typed-Reachable)

-- The confirmed message stands alone.
merge_test : merge_messages by_length one_typed (confirmed ∷ []) ≡ as_sent confirmed ∷ []
unfolding merge_messages filed order_key add_optimistic_message
merge_test = refl

abbrev paragraph : NoteBlockView
paragraph = record { id = "b"; text = "Limits"; version = 3; position = pos 1 }

abbrev edited : NoteBlockView
edited = record paragraph { text = "Limits and sums"; version = 4 }

apply_block_update-refines_example :
    find (is_block "b") (apply_block_update by_length (paragraph ∷ []) edited) ≡ (
      if str_eq edited.id "b"
      then if str_eq edited.text ""
        then none
        else newer edited (find (is_block edited.id) (paragraph ∷ []))
      else find (is_block "b") (paragraph ∷ []))
apply_block_update-refines_example =
    apply_block_update-refines by_length (paragraph ∷ []) edited (λ i. ground arith) "b"

deleted-returns_example :
    find (is_block "b") (
      apply_block_update by_length
        (apply_block_update by_length (edited ∷ []) (record edited { text = ""; version = 5 }))
        paragraph)
    ≡ some paragraph
deleted-returns_example =
    deleted-returns by_length (edited ∷ []) (record edited { text = ""; version = 5 }) paragraph
      (λ i. ground arith) refl refl refl

abbrev second_anchor : VideoAnchor
second_anchor = record idle_anchor { revision = pos 2 }

abbrev first_anchor : VideoAnchor
first_anchor = record idle_anchor { revision = pos 1 }

initial-NotAfter : NotAfter second_anchor initial_data.video
unfolding initial_data
initial-NotAfter = (omega arith, λ e. ground arith)

set_videos-latest_example :
    (set_videos initial_data (second_anchor ∷ first_anchor ∷ second_anchor ∷ [])).video
    ≡ second_anchor
set_videos-latest_example =
    set_videos-latest initial_data second_anchor (second_anchor ∷ first_anchor ∷ second_anchor ∷ [])
      initial-NotAfter
      ((omega arith, λ e. refl), ((omega arith, λ e. ground arith), ((omega arith, λ e. refl), tt)))
      (inr (inl refl))
