-- ===== src/NotesStore.antt =====
-- apps/realtime/src/notes/store.ts: the shared document of a room, block by block. A room's hash in
-- Redis is the list of its blocks in the order of the hash, each under its own id, and beside them
-- what stands under `__meta`; the JSON around a block and the key's expiry are left out. A text is
-- the list of its code units; a position is a double, which is a whole number of the smallest
-- positive doubles. What the engine does to doubles and texts is the parameter `JsEngine`. An update
-- reads, decides and writes, so the two halves stand apart: `answer_update` and `perform`.
use syncstudies.Base.{
  ℕ, suc, Bool, true, false, not, ◌&&◌, ◌||◌, List, [], ◌∷◌, Option, none, some, if◌then◌else◌,
  take, leb, ◌==◌, length, keep,
}
use syncstudies.Base.Int.{ℤ, pos, ltb_ℤ, eq_ℤ}
use syncstudies.Base.Searching.{find, set_by}
use syncstudies.Base.Sorting.{sort_by}
use syncstudies.Base.Text.{String, str_eq}
pub mod Effects
pub mod Sequential
pub mod Histories
pub mod Race
pub mod Place
pub mod Examples

abbrev pub max_block_len : ℕ
max_block_len = 20_000

abbrev pub max_blocks : ℕ
max_blocks = 500

pub record JsEngine : Type 0 where
  -- `text.trim().length === 0`
  pub is_blank : List ℕ → Bool
  -- `a.localeCompare(b) < 0`
  pub locale_less : String → String → Bool
  -- `a + 1` and `(a + b) / 2`, rounded
  pub add_one : ℤ → ℤ
  pub middle : ℤ → ℤ → ℤ

pub record NoteBlock : Type 0 where
  pub id : String
  pub text : List ℕ
  pub version : ℕ
  pub position : ℤ

-- What is under a room's key: the fields of the blocks and `__meta`.
pub record NotesHash : Type 0 where
  pub blocks : List NoteBlock
  pub version : ℕ
  pub updated_at : ℤ

pub data BlockUpdateOutcome : Type 0 where
  updated : NoteBlock → ℕ → BlockUpdateOutcome
  conflict : NoteBlock → NoteBlock → ℕ → BlockUpdateOutcome
  too_many_blocks : BlockUpdateOutcome

-- What `write` and `remove` are called with, if they are.
pub data Writing : Type 0 where
  nothing : Writing
  write : NoteBlock → ℕ → ℤ → Writing
  remove : String → ℕ → ℤ → Writing

abbrev pub is_block : String → NoteBlock → Bool
is_block id b = str_eq b.id id

abbrev pub is_before : JsEngine → NoteBlock → NoteBlock → Bool
is_before js a b =
    ltb_ℤ a.position b.position || eq_ℤ a.position b.position && js.locale_less a.id b.id

unfoldable pub sort_blocks : JsEngine → List NoteBlock → List NoteBlock
sort_blocks js blocks = sort_by (is_before js) blocks

-- `get` of a room whose hash is there.
unfoldable pub from_hash : JsEngine → NotesHash → NotesHash
from_hash js hash = record hash { blocks = sort_blocks js hash.blocks }

-- `blocks[blocks.length - 1]`, and the block after the one of an id.
abbrev pub last_block : List NoteBlock → Option NoteBlock
last_block [] = none
last_block (b ∷ []) = some b
last_block (a ∷ b ∷ bs) = last_block (b ∷ bs)

abbrev pub first_block : List NoteBlock → Option NoteBlock
first_block [] = none
first_block (b ∷ bs) = some b

abbrev pub block_after : String → List NoteBlock → Option NoteBlock
block_after id [] = none
block_after id (b ∷ bs) = elim (is_block id b) [ true ↦ first_block bs | false ↦ block_after id bs ]

abbrev pub position_of : Option NoteBlock → ℤ
position_of none = pos 0
position_of (some b) = b.position

abbrev pub position_below : JsEngine → NoteBlock → Option NoteBlock → ℤ
position_below js existing none = js.add_one existing.position
position_below js existing (some next) = js.middle existing.position next.position

-- One call of `applyBlockUpdate`, with the id that it would mint and the time that it reads.
pub record BlockUpdate : Type 0 where
  pub block_id : String
  pub text : List ℕ
  pub base_version : ℕ
  pub fresh_id : String
  pub now : ℤ

unfoldable pub trimmed : BlockUpdate → List ℕ
trimmed u = take max_block_len u.text

abbrev pub is_full : NotesHash → Bool
is_full doc = leb max_blocks (length doc.blocks)

abbrev pub new_block : JsEngine → NotesHash → BlockUpdate → NoteBlock
new_block js doc u = record {
  id = u.block_id;
  text = trimmed u;
  version = 1;
  position = js.add_one (position_of (last_block doc.blocks));
}

abbrev pub preserved_block : JsEngine → NotesHash → BlockUpdate → NoteBlock → NoteBlock
preserved_block js doc u existing = record {
  id = u.fresh_id;
  text = trimmed u;
  version = 1;
  position = position_below js existing (block_after existing.id doc.blocks);
}

abbrev pub changed_block : BlockUpdate → NoteBlock → NoteBlock
changed_block u existing = record existing { text = trimmed u; version = suc existing.version }

unfoldable pub add_block : JsEngine → NotesHash → BlockUpdate → BlockUpdateOutcome × Writing
add_block js doc u = if is_full doc then (too_many_blocks, nothing) else (
  updated (new_block js doc u) (suc doc.version),
  write (new_block js doc u) (suc doc.version) u.now,
)

unfoldable pub preserve :
    JsEngine → NotesHash → BlockUpdate → NoteBlock → BlockUpdateOutcome × Writing
preserve js doc u existing = if is_full doc then (too_many_blocks, nothing) else (
  conflict existing (preserved_block js doc u existing) (suc doc.version),
  write (preserved_block js doc u existing) (suc doc.version) u.now,
)

unfoldable pub change_block :
    JsEngine → NotesHash → BlockUpdate → NoteBlock → BlockUpdateOutcome × Writing
change_block js doc u existing =
    if js.is_blank (trimmed u)
    then (
      updated (record existing { text = []; version = suc existing.version }) (suc doc.version),
      remove u.block_id (suc doc.version) u.now,
    )
    else (
      updated (changed_block u existing) (suc doc.version),
      write (changed_block u existing) (suc doc.version) u.now,
    )

abbrev pub decide_update :
    JsEngine → NotesHash → BlockUpdate → Option NoteBlock → BlockUpdateOutcome × Writing
decide_update js doc u none = add_block js doc u
decide_update js doc u (some existing) =
    if not (existing.version == u.base_version)
    then preserve js doc u existing
    else change_block js doc u existing

-- What a call decides on the document that it has read.
unfoldable pub answer_update : JsEngine → NotesHash → BlockUpdate → BlockUpdateOutcome × Writing
answer_update js doc u = decide_update js doc u (find (is_block u.block_id) doc.blocks)

unfoldable pub perform : NotesHash → Writing → NotesHash
perform hash nothing = hash
perform hash (write block version now) = record {
  blocks = set_by (is_block block.id) block hash.blocks;
  version = version;
  updated_at = now;
}
perform hash (remove id version now) = record {
  blocks = keep (λ b. not (is_block id b)) hash.blocks;
  version = version;
  updated_at = now;
}

-- A call with nobody else's write between its read and its own.
unfoldable pub update_block : JsEngine → NotesHash → BlockUpdate → BlockUpdateOutcome × NotesHash
update_block js hash u =
    let answer = answer_update js (from_hash js hash) u in (answer.0, perform hash answer.1)
