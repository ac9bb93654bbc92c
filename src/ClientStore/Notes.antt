-- ===== src/ClientStore/Notes.antt =====
-- apps/web/lib/stores/room-store.ts: the reducers on the blocks of the shared document, the note
-- items and the checklist.
use syncstudies.Base.{
  Bool, false, not, ◌&&◌, List, [], ◌∷◌, ◌++◌, Option, none, some, if◌then◌else◌, keep, ltb, ◌==◌,
}
use syncstudies.Base.Searching.{replace_first, find}
use syncstudies.Base.Text.{String, str_eq}
use syncstudies.Base.Int.{ℤ}
use syncstudies.ClientStore.Data.{RoomData, NoteBlockView, NoteItemView, ChecklistItemView}
use syncstudies.ClientStore.Merge.{JsText}
use syncstudies.ClientStore.Lists.{sort_blocks, sort_note_items, sort_checklist}

abbrev pub is_block : String → NoteBlockView → Bool
is_block id b = str_eq b.id id

-- An update of a block that is there: neither an older version nor the same text and version.
abbrev pub supersedes : NoteBlockView → NoteBlockView → Bool
supersedes block existing =
    if ltb block.version existing.version
    then false
    else not (str_eq existing.text block.text && (existing.version == block.version))

abbrev pub update_found :
    JsText → List NoteBlockView → NoteBlockView → Option NoteBlockView → List NoteBlockView
update_found js blocks block none = sort_blocks js (blocks ++ block ∷ [])
update_found js blocks block (some existing) =
    if supersedes block existing
    then replace_first (is_block block.id) (λ old. block) blocks
    else blocks

unfoldable pub apply_block_update : JsText → List NoteBlockView → NoteBlockView → List NoteBlockView
apply_block_update js blocks block =
    if str_eq block.text ""
    then keep (λ b. not (is_block block.id b)) blocks
    else update_found js blocks block (find (is_block block.id) blocks)

abbrev pub add_if_none :
    JsText → List NoteBlockView → NoteBlockView → Option NoteBlockView → List NoteBlockView
add_if_none js blocks block none = sort_blocks js (blocks ++ block ∷ [])
add_if_none js blocks block (some existing) = blocks

unfoldable pub add_local_block : JsText → List NoteBlockView → NoteBlockView → List NoteBlockView
add_local_block js blocks block = add_if_none js blocks block (find (is_block block.id) blocks)

unfoldable pub set_block_lock : RoomData → String → String → ℤ → RoomData
set_block_lock st block user until = record st {
  block_locks = λ id.
      if str_eq id block
      then some (record { user_id = user; until_server_ms = until })
      else st.block_locks id;
}

abbrev pub put_item : List NoteItemView → NoteItemView → Option NoteItemView → List NoteItemView
put_item items item none = items ++ item ∷ []
put_item items item (some old) = replace_first (λ i. str_eq i.id item.id) (λ i. item) items

unfoldable pub upsert_note_item : List NoteItemView → NoteItemView → List NoteItemView
upsert_note_item items item =
    sort_note_items (put_item items item (find (λ i. str_eq i.id item.id) items))

unfoldable pub remove_note_item : List NoteItemView → String → List NoteItemView
remove_note_item items id = keep (λ i. not (str_eq i.id id)) items

abbrev pub put_check :
    List ChecklistItemView → ChecklistItemView → Option ChecklistItemView → List ChecklistItemView
put_check items item none = items ++ item ∷ []
put_check items item (some old) = replace_first (λ i. str_eq i.id item.id) (λ i. item) items

unfoldable pub upsert_checklist_item :
    JsText → List ChecklistItemView → ChecklistItemView → List ChecklistItemView
upsert_checklist_item js items item =
    sort_checklist js (put_check items item (find (λ i. str_eq i.id item.id) items))

unfoldable pub remove_checklist_item : List ChecklistItemView → String → List ChecklistItemView
remove_checklist_item items id = keep (λ i. not (str_eq i.id id)) items
