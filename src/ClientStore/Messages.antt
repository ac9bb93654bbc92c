-- ===== src/ClientStore/Messages.antt =====
-- apps/web/lib/stores/room-store.ts: the reducers on the transcript. The list is read and written
-- as such; `prependHistory` sets the cursor besides.
use syncstudies.Base.{
  Bool, true, false, not, ◌&&◌, ◌||◌, List, [], ◌∷◌, ◌++◌, Option, none, some, if◌then◌else◌, keep,
}
use syncstudies.Base.Searching.{replace_first}
use syncstudies.Base.Sorting.{sort_by}
use syncstudies.Base.Text.{String, str_eq}
use syncstudies.Base.Int.{ℤ}
use syncstudies.ClientStore.Data.{
  RoomData, MessageView, ChatMessage, Delivery, sent, sending, failed,
}
use syncstudies.ClientStore.Merge.{JsText, is_sent, has_id, has_client_id, before, merge_messages}

abbrev pub is_sending : Delivery → Bool
is_sending sent = false
is_sending sending = true
is_sending failed = false

-- `list[0]?.id ?? null`
abbrev pub first_id : List ChatMessage → Option String
first_id [] = none
first_id (m ∷ ms) = some m.view.id

abbrev pub fail : ChatMessage → ChatMessage
fail m = record m { delivery = failed }

-- A message that is deleted already stays as it is.
abbrev pub tombstone_view : ℤ → MessageView → Option ℤ → MessageView
tombstone_view now v (some at) = v
tombstone_view now v none = record v { body = ""; deleted_at = some now }

abbrev pub tombstone : ℤ → ChatMessage → ChatMessage
tombstone now m = record m { view = tombstone_view now m.view m.view.deleted_at }

unfoldable pub mark_message_failed : List ChatMessage → String → List ChatMessage
mark_message_failed msgs c =
    replace_first (λ m. has_client_id (some c) m && is_sending m.delivery) fail msgs

unfoldable pub remove_message : List ChatMessage → String → List ChatMessage
remove_message msgs c = keep (λ m. not (has_client_id (some c) m) || is_sent m.delivery) msgs

unfoldable pub mark_message_deleted : List ChatMessage → String → ℤ → List ChatMessage
mark_message_deleted msgs id now = replace_first (has_id id) (tombstone now) msgs

module _ (js : JsText) where
  unfoldable pub add_optimistic_message : List ChatMessage → ChatMessage → List ChatMessage
  add_optimistic_message msgs m =
      sort_by (before js) (keep (λ x. not (has_client_id m.view.client_msg_id x)) msgs ++ m ∷ [])

  unfoldable pub receive_messages : RoomData → List MessageView → RoomData
  receive_messages st incoming = record st { messages = merge_messages js st.messages incoming }

  unfoldable pub prepend_history : RoomData → List MessageView → Bool → RoomData
  prepend_history st incoming more =
      let next : List ChatMessage = merge_messages js st.messages incoming in
      record st {
        messages = next;
        history = record { cursor = first_id next; has_more = more; loading = false; error = none };
      }

unfoldable pub set_history_loading : RoomData → Bool → RoomData
set_history_loading st loading = record st { history = record st.history { loading = loading } }

abbrev pub same_error : Option String → Option String → Bool
same_error none none = true
same_error none (some b) = false
same_error (some a) none = false
same_error (some a) (some b) = str_eq a b

unfoldable pub set_history_error : RoomData → Option String → RoomData
set_history_error st error =
    if same_error st.history.error error
    then st
    else record st { history = record st.history { loading = false; error = error } }
