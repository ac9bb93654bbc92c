-- ===== src/ClientStore/Merge.antt =====
-- apps/web/lib/stores/room-store.ts: `mergeMessages`, which folds messages of the server into the
-- transcript. A Map is the list of its values in the order of their keys' first insertion.
use syncstudies.Base.{
  Bool, true, false, not, List, [], ◌∷◌, ◌++◌, Option, none, some, if◌then◌else◌, keep,
}
use syncstudies.Base.Searching.{set_by}
use syncstudies.Base.Sorting.{sort_by}
use syncstudies.Base.Text.{String, str_eq}
use syncstudies.Base.Int.{ℤ}
use syncstudies.ClientStore.Data.{MessageView, ChatMessage, Delivery, sent, sending, failed}
use Prim.Native.String

-- What the source uses of the engine's texts: `<`, a negative `localeCompare`, and
-- `String(n).padStart(15, '0')`.
pub record JsText : Type 0 where
  pub less : String → String → Bool
  pub locale_less : String → String → Bool
  pub padded : ℤ → String

abbrev pub is_sent : Delivery → Bool
is_sent sent = true
is_sent sending = false
is_sent failed = false

abbrev pub same_text : Option String → Option String → Bool
same_text none none = true
same_text none (some d) = false
same_text (some c) none = false
same_text (some c) (some d) = str_eq c d

abbrev pub or_empty : Option String → String
or_empty none = ""
or_empty (some c) = c

abbrev pub has_id : String → ChatMessage → Bool
has_id id m = str_eq m.view.id id

abbrev pub has_client_id : Option String → ChatMessage → Bool
has_client_id c m = same_text m.view.client_msg_id c

-- `byId` and `pendingByClientId`
pub record Filed : Type 0 where
  pub by_id : List ChatMessage
  pub pending : List ChatMessage

abbrev pub set_pending : Filed → Option String → ChatMessage → Filed
set_pending f none m = f
set_pending f (some c) m = record f { pending = set_by (has_client_id (some c)) m f.pending }

abbrev pub delete_pending : Filed → Option String → Filed
delete_pending f none = f
delete_pending f (some c) = record f {
  pending = keep (λ m. not (has_client_id (some c) m)) f.pending;
}

abbrev pub as_sent : MessageView → ChatMessage
as_sent v = record { view = v; delivery = sent }

abbrev pub file_existing : Filed → ChatMessage → Filed
file_existing f m =
    if is_sent m.delivery
    then record f { by_id = set_by (has_id m.view.id) m f.by_id }
    else set_pending f m.view.client_msg_id m

abbrev pub file_incoming : Filed → MessageView → Filed
file_incoming f v =
    let g : Filed = delete_pending f v.client_msg_id in
    record g { by_id = set_by (has_id v.id) (as_sent v) g.by_id }

abbrev pub file_all {ℓ} : {A : Type ℓ} → (Filed → A → Filed) → Filed → List A → Filed
file_all step f [] = f
file_all step f (x ∷ xs) = file_all step (step f x) xs

unfoldable pub filed : List ChatMessage → List MessageView → Filed
filed existing incoming =
    file_all file_incoming (file_all file_existing (record { by_id = []; pending = [] }) existing)
      incoming

module _ (js : JsText) where
  unfoldable pub order_key : ChatMessage → String
  order_key m =
      if is_sent m.delivery
      then m.view.id
      else String.◌++◌ "~"
          (String.◌++◌ (js.padded m.view.created_at) (or_empty m.view.client_msg_id))

  abbrev pub before : ChatMessage → ChatMessage → Bool
  before a b = js.less (order_key a) (order_key b)

  unfoldable pub merge_messages : List ChatMessage → List MessageView → List ChatMessage
  merge_messages existing [] = existing
  merge_messages existing (v ∷ vs) =
      let f : Filed = filed existing (v ∷ vs) in sort_by before (f.by_id ++ f.pending)
