-- ===== src/ClientStore/Lists.antt =====
-- apps/web/lib/stores/room-store.ts: the orders of the lists that the store keeps sorted.
use syncstudies.Base.{Bool, true, false, List, Option, none, some, if◌then◌else◌}
use syncstudies.Base.Sorting.{sort_by}
use syncstudies.Base.Int.{ℤ, ltb_ℤ}
use syncstudies.ClientStore.Data.{Participant, NoteBlockView, NoteItemView, ChecklistItemView}
use syncstudies.ClientStore.Merge.{JsText}

-- `a - b || next`, as a test that the comparison is negative.
abbrev pub first_by : ℤ → ℤ → Bool → Bool
first_by a b next = if ltb_ℤ a b then true else if ltb_ℤ b a then false else next

abbrev pub note_item_before : Option ℤ → Option ℤ → ℤ → ℤ → Bool
note_item_before none none made_a made_b = ltb_ℤ made_a made_b
note_item_before none (some b) made_a made_b = false
note_item_before (some a) none made_a made_b = true
note_item_before (some a) (some b) made_a made_b = first_by a b (ltb_ℤ made_a made_b)

unfoldable pub sort_note_items : List NoteItemView → List NoteItemView
sort_note_items items =
    sort_by (λ a b. note_item_before a.video_ts b.video_ts a.created_at b.created_at) items

module _ (js : JsText) where
  abbrev pub block_before : NoteBlockView → NoteBlockView → Bool
  block_before a b = first_by a.position b.position (js.locale_less a.id b.id)

  unfoldable pub sort_participants : List Participant → List Participant
  sort_participants list =
      sort_by (λ a b. first_by a.joined_at b.joined_at (js.locale_less a.user.id b.user.id)) list

  unfoldable pub sort_blocks : List NoteBlockView → List NoteBlockView
  sort_blocks blocks = sort_by block_before blocks

  unfoldable pub sort_checklist : List ChecklistItemView → List ChecklistItemView
  sort_checklist items =
      sort_by (λ a b. first_by a.position b.position (js.locale_less a.id b.id)) items
