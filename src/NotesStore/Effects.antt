-- ===== src/NotesStore/Effects.antt =====
-- What a write leaves under each id of the shared document.
use mathlib.Core.Path.{subst}
use syncstudies.Base.{
  ◌≤◌, ◌≡◌, refl, sym, arith, true, false, not, Option, none, some, if◌then◌else◌, keep, Bool-cases,
  inl, inr,
}
use syncstudies.Base.Searching.{
  find, count, set_by, count-keep_le, count-set_by, count-set_by_other, find-keep, find-keep_other,
  find-set_by, find-set_by_other,
}
use syncstudies.Base.Sorting.{find-sort_by}
use syncstudies.Base.Text.{String, str_eq, str_eq_iff}
use syncstudies.NotesStore.{
  JsEngine, NoteBlock, NotesHash, Writing, nothing, write, remove, is_block, sort_blocks, from_hash,
  perform,
}

-- What stands under an id.
abbrev pub block_of : NotesHash → String → Option NoteBlock
block_of hash id = find (is_block id) hash.blocks

-- No id stands twice, as in any hash.
abbrev pub IsHash : NotesHash → Type 0
IsHash hash = (id : String) → count (is_block id) hash.blocks ≤ 1

other_id :
    (i k : String)
    → str_eq k i ≡ false
    → (b : NoteBlock) → is_block k b ≡ true
    → is_block i b ≡ false
other_id i k differ b same =
    subst (λ t. str_eq t i ≡ false) (sym ((str_eq_iff b.id k).0 same)) differ

-- The map that a write makes of a map.
abbrev pub written : (String → Option NoteBlock) → Writing → String → Option NoteBlock
written m nothing i = m i
written m (write b v now) i = if str_eq b.id i then some b else m i
written m (remove id v now) i = if str_eq id i then none else m i

same_id : (k i : String) → str_eq k i ≡ true → k ≡ i
same_id k i = (str_eq_iff k i).0

pub perform-written :
    (hash : NotesHash) (w : Writing) (i : String)
    → block_of (perform hash w) i ≡ written (block_of hash) w i
unfolding perform
perform-written hash nothing i = refl
perform-written hash (write b v now) i = elim (Bool-cases (str_eq b.id i)) [
  | inl same ↦ rw same (
      subst (λ k. find (is_block i) (set_by (is_block k) b hash.blocks) ≡ some b)
        (sym (same_id b.id i same)) (find-set_by (is_block i) b hash.blocks same))
  | inr differ ↦
      rw differ (
        find-set_by_other (is_block b.id) (is_block i) b hash.blocks differ
          (other_id i b.id differ))
]
perform-written hash (remove id v now) i = elim (Bool-cases (str_eq id i)) [
  | inl same ↦ rw same (
      subst (λ k. find (is_block i) (keep (λ b. not (is_block k b)) hash.blocks) ≡ none)
        (sym (same_id id i same)) (find-keep (is_block i) hash.blocks))
  | inr differ ↦
      rw differ (find-keep_other (is_block id) (is_block i) hash.blocks (other_id i id differ))
]

pub perform-IsHash : (hash : NotesHash) (w : Writing) → IsHash hash → IsHash (perform hash w)
unfolding perform
perform-IsHash hash nothing h = h
perform-IsHash hash (write b v now) h = λ i. elim (Bool-cases (str_eq b.id i)) [
  | inl same ↦
      subst (λ k. count (is_block i) (set_by (is_block k) b hash.blocks) ≤ 1)
        (sym (same_id b.id i same)) (count-set_by (is_block i) b hash.blocks same (h i))
  | inr differ ↦
      subst (λ n. n ≤ 1)
        (sym (
          count-set_by_other (is_block b.id) (is_block i) b hash.blocks differ
            (other_id i b.id differ)))
        (h i)
]
perform-IsHash hash (remove id v now) h =
    λ i. omega (arith, count-keep_le (is_block i) (λ b. not (is_block id b)) hash.blocks, h i)

-- The document read is the hash, in another order.
pub from_hash-find :
    (js : JsEngine) (hash : NotesHash) (i : String)
    → IsHash hash
    → find (is_block i) (from_hash js hash).blocks ≡ block_of hash i
unfolding from_hash sort_blocks
from_hash-find js hash i h = find-sort_by _ (is_block i) hash.blocks (h i)
