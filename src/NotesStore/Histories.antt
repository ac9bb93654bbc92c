-- ===== src/NotesStore/Histories.antt =====
-- What an accepted update leaves, and what a row of updates makes of the document's bounds.
use mathlib.Core.Path.{subst}
use syncstudies.Base.{
  Bool-cases, inl, inr, take, ℕ, suc, ◌+◌, ◌≤◌, ◌≡◌, refl, sym, ap, ◌∙◌, arith, Bool, true, false,
  not, List, [], ◌∷◌, Option, none, some, if◌then◌else◌, keep, length, ◌==◌, if_either,
}
use syncstudies.Base.Searching.{find, set_by}
use syncstudies.Base.Sorting.{insert_by, sort_by}
use syncstudies.Base.Int.{ℤ}
use syncstudies.Base.Text.{String, str_eq, str_eq_iff}
use syncstudies.NotesStore.{
  max_block_len, JsEngine, NoteBlock, NotesHash, BlockUpdate, BlockUpdateOutcome, Writing, write,
  is_block, sort_blocks, from_hash, decide_update, add_block, preserve, change_block, answer_update,
  perform, update_block, trimmed, max_blocks, is_full, is_before, new_block, preserved_block,
  changed_block,
}
use syncstudies.NotesStore.Effects.{block_of, IsHash, written, perform-written, perform-IsHash}
use syncstudies.NotesStore.Sequential.{is_accepted, answer-decided, find-holds}

length-insert_by :
    (less : NoteBlock → NoteBlock → Bool) (x : NoteBlock) (ys : List NoteBlock)
    → length (insert_by less x ys) ≡ suc (length ys)
length-insert_by less x [] = refl
length-insert_by less x (y ∷ ys) = ground (arith, length-insert_by less x ys)

length-sort_by :
    (less : NoteBlock → NoteBlock → Bool) (xs : List NoteBlock)
    → length (sort_by less xs) ≡ length xs
length-sort_by less [] = refl
length-sort_by less (x ∷ xs) =
    length-insert_by less x (sort_by less xs) ∙ ap suc (length-sort_by less xs)

length-set_by :
    (p : NoteBlock → Bool) (x : NoteBlock) (xs : List NoteBlock)
    → length (set_by p x xs) ≤ suc (length xs)
length-set_by p x [] = omega arith
length-set_by p x (y ∷ ys) = ground (arith, length-set_by p x ys)

length-set_by_found :
    (p : NoteBlock → Bool) (x old : NoteBlock) (xs : List NoteBlock)
    → find p xs ≡ some old
    → length (set_by p x xs) ≡ length xs
length-set_by_found p x old [] h = cc
length-set_by_found p x old (y ∷ ys) h = ground (arith, length-set_by_found p x old ys)

length-keep : (p : NoteBlock → Bool) (xs : List NoteBlock) → length (keep p xs) ≤ length xs
length-keep p [] = omega arith
length-keep p (x ∷ xs) = ground (arith, length-keep p xs)

-- The id under which the text of an update belongs: the update's own, unless a block of that id is
-- at another version than the update names.
abbrev pub home_of : BlockUpdate → Option NoteBlock → String
home_of u none = u.block_id
home_of u (some b) = if b.version == u.base_version then u.block_id else u.fresh_id

abbrev pub home : NotesHash → BlockUpdate → String
home hash u = home_of u (block_of hash u.block_id)

module _ (js : JsEngine) (hash : NotesHash) (u : BlockUpdate) (ok : IsHash hash) where
  abbrev doc : NotesHash
  doc = from_hash js hash

  -- An accepted text stands under an id in the map that its write makes.
  abbrev Stands : String → BlockUpdateOutcome × Writing → Type 0
  Stands i a =
      is_accepted a.0 ≡ true
      → (b : NoteBlock) × ((written (block_of hash) a.1 i ≡ some b) × (b.text ≡ trimmed u))

  wrote :
      (i : String) (b : NoteBlock) (v : ℕ) (t : ℤ)
      → b.id ≡ i
      → b.text ≡ trimmed u
      → (c : NoteBlock) × ((written (block_of hash) (write b v t) i ≡ some c)
          × (c.text ≡ trimmed u))
  wrote i b v t named e =
      let same : str_eq b.id i ≡ true = (str_eq_iff b.id i).1 named in (b, (rw same refl, e))

  preserve-Stands : (existing : NoteBlock) → Stands u.fresh_id (preserve js doc u existing)
  unfolding preserve
  preserve-Stands existing =
      if_either (Stands u.fresh_id) (is_full doc) _ _ (λ full accepted. absurd (cc))
        (λ room accepted.
          wrote u.fresh_id (preserved_block js doc u existing) (suc doc.version) u.now refl refl)

  change_block-Stands :
      (existing : NoteBlock)
      → existing.id ≡ u.block_id
      → js.is_blank (trimmed u) ≡ false
      → Stands u.block_id (change_block js doc u existing)
  unfolding change_block
  change_block-Stands existing named full =
      if_either (Stands u.block_id) (js.is_blank (trimmed u)) _ _ (λ blank accepted. absurd (cc))
        (λ room accepted.
          wrote u.block_id (changed_block u existing) (suc doc.version) u.now named refl)

  decide_update-Stands :
      (o : Option NoteBlock)
      → block_of hash u.block_id ≡ o
      → js.is_blank (trimmed u) ≡ false
      → Stands (home_of u o) (decide_update js doc u o)
  unfolding add_block
  decide_update-Stands none e full =
      if_either (Stands u.block_id) (is_full doc) _ _ (λ full accepted. absurd (cc))
        (λ room accepted. wrote u.block_id (new_block js doc u) (suc doc.version) u.now refl refl)
  decide_update-Stands (some existing) e full =
      elim (Bool-cases (existing.version == u.base_version)) [
        | inl current ↦ rw current (change_block-Stands existing named full)
        | inr stale ↦ rw stale (preserve-Stands existing)
      ]
    where
      named : existing.id ≡ u.block_id
      named =
          (str_eq_iff existing.id u.block_id).0
            (find-holds (is_block u.block_id) hash.blocks existing e)

  -- An accepted text stands in the document, cut off after 20000 code units: under the id that its
  -- update names if that id is new or its block is at the version that the update names, and
  -- otherwise under the id that the update mints. Only a text that is blank, cut off so, may go.
  -- Nobody else writes between the update's read and its write.
  pub update_block-stands :
      js.is_blank (take max_block_len u.text) ≡ false
      → is_accepted (update_block js hash u).0 ≡ true
      → (b : NoteBlock) × ((block_of (update_block js hash u).1 (home hash u) ≡ some b)
          × (b.text ≡ take max_block_len u.text))
  unfolding update_block trimmed
  update_block-stands full accepted =
      let (b, (here, same)) =
        decide_update-Stands (block_of hash u.block_id) refl full
          (subst (λ a. is_accepted a.0 ≡ true) (answer-decided js hash u ok) accepted) in
      (
        b,
        (
          perform-written hash (answer_update js doc u).1 (home hash u)
              ∙ ap (λ a. written (block_of hash) a.1 (home hash u)) (answer-decided js hash u ok)
              ∙ here,
          same,
        ),
      )

  length-doc : length doc.blocks ≡ length hash.blocks
  unfolding from_hash sort_blocks
  length-doc = length-sort_by (is_before js) hash.blocks

  -- The bound and the count after a write.
  abbrev Counts : BlockUpdateOutcome × Writing → Type 0
  Counts a =
      (length (perform hash a.1).blocks ≤ max_blocks)
      × ((perform hash a.1).version ≡ (if is_accepted a.0 then 1 else 0) + hash.version)

  -- One more block, where there is room.
  room_left :
      is_full doc ≡ false
      → (b : NoteBlock) → length (set_by (is_block b.id) b hash.blocks) ≤ max_blocks
  room_left room b = ground (arith, length-doc, length-set_by (is_block b.id) b hash.blocks)

  preserve-Counts :
      (existing : NoteBlock) → length hash.blocks ≤ max_blocks → Counts (preserve js doc u existing)
  unfolding preserve perform from_hash
  preserve-Counts existing small =
      if_either Counts (is_full doc) _ _ (λ full. (small, omega arith))
        (λ room. (room_left room (preserved_block js doc u existing), omega arith))

  change_block-Counts :
      (existing : NoteBlock)
      → block_of hash u.block_id ≡ some existing
      → length hash.blocks ≤ max_blocks
      → Counts (change_block js doc u existing)
  unfolding change_block perform from_hash
  change_block-Counts existing e small =
      if_either Counts (js.is_blank (trimmed u)) _ _
        (λ blank.
          (omega (arith, length-keep (λ b. not (is_block u.block_id b)) hash.blocks), omega arith))
        (λ full. (
          omega (
            arith,
            length-set_by_found (is_block existing.id) (changed_block u existing) existing
                hash.blocks found_again,
          ),
          omega arith,
        ))
    where
      named : existing.id ≡ u.block_id
      named =
          (str_eq_iff existing.id u.block_id).0
            (find-holds (is_block u.block_id) hash.blocks existing e)

      found_again : block_of hash existing.id ≡ some existing
      found_again = ap (block_of hash) named ∙ e

  decide_update-Counts :
      (o : Option NoteBlock)
      → block_of hash u.block_id ≡ o
      → length hash.blocks ≤ max_blocks
      → Counts (decide_update js doc u o)
  unfolding add_block perform from_hash
  decide_update-Counts none e small =
      if_either Counts (is_full doc) _ _ (λ full. (small, omega arith))
        (λ room. (room_left room (new_block js doc u), omega arith))
  decide_update-Counts (some existing) e small =
      if_either Counts (not (existing.version == u.base_version)) (preserve js doc u existing)
        (change_block js doc u existing) (λ stale. preserve-Counts existing small)
        (λ current. change_block-Counts existing e small)

  update_block-Counts : length hash.blocks ≤ max_blocks → Counts (answer_update js doc u)
  update_block-Counts small =
      subst Counts (sym (answer-decided js hash u ok))
        (decide_update-Counts (block_of hash u.block_id) refl small)

-- A row of updates, and how many of them are accepted.
unfoldable pub run_updates : JsEngine → NotesHash → List BlockUpdate → NotesHash
run_updates js hash [] = hash
run_updates js hash (u ∷ us) = run_updates js (update_block js hash u).1 us

unfoldable pub accepted_count : JsEngine → NotesHash → List BlockUpdate → ℕ
accepted_count js hash [] = 0
accepted_count js hash (u ∷ us) =
    (if is_accepted (update_block js hash u).0 then 1 else 0)
    + accepted_count js (update_block js hash u).1 us

-- A row of updates, each whole before the next, leaves no id twice and at most 500 blocks, and the
-- version of the document has gone up by one for every update that was accepted.
pub run_updates-counts :
    (js : JsEngine) (hash : NotesHash) (us : List BlockUpdate)
    → IsHash hash
    → length hash.blocks ≤ max_blocks
    → IsHash (run_updates js hash us)
      × ((length (run_updates js hash us).blocks ≤ max_blocks)
          × ((run_updates js hash us).version ≡ accepted_count js hash us + hash.version))
unfolding run_updates accepted_count update_block
run_updates-counts js hash [] ok small = (ok, (small, omega arith))
run_updates-counts js hash (u ∷ us) ok small =
    let w : Writing = (answer_update js (from_hash js hash) u).1 in
    let (fits, one) = update_block-Counts js hash u ok small in
    let (ok', (small', counted)) =
      run_updates-counts js (perform hash w) us (perform-IsHash hash w ok) fits in
    (ok', (small', omega (arith, counted, one)))
