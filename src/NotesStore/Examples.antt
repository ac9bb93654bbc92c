-- ===== src/NotesStore/Examples.antt =====
-- Tests of the shared document of apps/realtime/src/notes/store.ts, at concrete documents.
use mathlib.Core.Path.{subst}
use syncstudies.Base.{
  Bool-cases, inl, inr, ◌+◌, ◌/◌, ◌≤◌, All, ◌⊎◌, ◌≡◌, refl, arith, true, false, [], ◌∷◌, some,
  length,
}
use syncstudies.Base.Int.{pos, pos_part, ◌+ℤ◌}
use syncstudies.Base.Searching.{count}
use syncstudies.Base.Text.{str_eq, str_eq_iff}
use syncstudies.NotesStore.{
  JsEngine, NoteBlock, NotesHash, BlockUpdate, updated, conflict, answer_update, from_hash,
  update_block, trimmed, changed_block, preserved_block, is_before, max_blocks, preserve,
  sort_blocks, is_block,
}
use syncstudies.NotesStore.Effects.{block_of, IsHash}
use syncstudies.NotesStore.Sequential.{update_block-keeps}
use syncstudies.NotesStore.Histories.{
  accepted_count, run_updates, run_updates-counts, update_block-stands,
}
use syncstudies.Base.Sorting.{IsOrder}
use syncstudies.NotesStore.Place.{answer_update-below}
use syncstudies.NotesStore.Race.{both_read, both_read-loses}

-- Positions in halves, rounded down, and ties left to the sort; a text is blank if it is empty.
abbrev engine : JsEngine
engine = record {
  is_blank = λ t. elim t [ [] ↦ true | x ∷ xs ↦ false ];
  locale_less = λ a b. false;
  add_one = λ a. a +ℤ pos 2;
  middle = λ a b. pos (pos_part (a +ℤ b) / 2);
}

abbrev intro : NoteBlock
intro = record { id = "intro"; text = 73 ∷ []; version = 4; position = pos 2 }

abbrev outro : NoteBlock
outro = record { id = "outro"; text = 79 ∷ []; version = 1; position = pos 6 }

abbrev lecture : NotesHash
lecture = record { blocks = outro ∷ intro ∷ []; version = 9; updated_at = pos 0 }

-- A late edit, which names version 3 of the block, and two that name its version 4.
abbrev late : BlockUpdate
late = record {
  block_id = "intro";
  text = 76 ∷ [];
  base_version = 3;
  fresh_id = "n1";
  now = pos 50;
}

abbrev ada : BlockUpdate
ada = record { block_id = "intro"; text = 65 ∷ []; base_version = 4; fresh_id = "n2"; now = pos 60 }

abbrev ben : BlockUpdate
ben = record { block_id = "intro"; text = 66 ∷ []; base_version = 4; fresh_id = "n3"; now = pos 61 }

lecture-IsHash : IsHash lecture
lecture-IsHash id = elim (Bool-cases (str_eq "outro" id)) [
  | inl same ↦
      subst (λ k. count (is_block k) lecture.blocks ≤ 1) ((str_eq_iff "outro" id).0 same)
        (omega arith)
  | inr differ ↦ ground (arith, differ)
]

late_is_preserved :
    (update_block engine lecture late).0
    ≡ conflict intro (record { id = "n1"; text = 76 ∷ []; version = 1; position = pos 4 }) 10
unfolding update_block answer_update preserve sort_blocks from_hash trimmed ◌+ℤ◌
late_is_preserved = refl

update_block-keeps_example : block_of (update_block engine lecture late).1 "intro" ≡ some intro
update_block-keeps_example =
    update_block-keeps engine lecture late lecture-IsHash "intro" intro refl refl refl

update_block-stands_example :
    (b : NoteBlock) × ((block_of (update_block engine lecture late).1 "n1" ≡ some b)
      × (b.text ≡ 76 ∷ []))
unfolding update_block answer_update preserve sort_blocks from_hash trimmed
update_block-stands_example = update_block-stands engine lecture late lecture-IsHash refl refl

run_updates-counts_example :
    IsHash (run_updates engine lecture (late ∷ ada ∷ []))
    × ((length (run_updates engine lecture (late ∷ ada ∷ [])).blocks ≤ max_blocks)
        × ((run_updates engine lecture (late ∷ ada ∷ [])).version
            ≡ accepted_count engine lecture (late ∷ ada ∷ []) + 9))
run_updates-counts_example =
    run_updates-counts engine lecture (late ∷ ada ∷ []) lecture-IsHash (omega arith)

both_read-loses_example :
    ((answer_update engine (from_hash engine lecture) ada).0 ≡ updated (changed_block ada intro) 10)
    × ((answer_update engine (from_hash engine lecture) ben).0
        ≡ updated (changed_block ben intro) 10)
    × (block_of (both_read engine lecture ada ben) "intro" ≡ some (changed_block ben intro))
    × ((both_read engine lecture ada ben).version ≡ 10)
unfolding trimmed
both_read-loses_example =
    both_read-loses engine lecture lecture-IsHash intro ada ben
      (record { there = refl; current = refl; full = refl })
      (record { there = refl; current = refl; full = refl })

engine-IsOrder : IsOrder (is_before engine)
engine-IsOrder = record { asym = λ a b h. ground (arith); past = λ a b c h k. ground (arith) }

answer_update-below_example :
    ((answer_update engine (from_hash engine lecture) late).0
      ≡ conflict intro (preserved_block engine (from_hash engine lecture) late intro) 10)
    × ((is_before engine intro (preserved_block engine (from_hash engine lecture) late intro)
          ≡ true)
        × ((is_before engine (preserved_block engine (from_hash engine lecture) late intro) outro
              ≡ true)
            × All
                (λ c.
                  (is_before engine intro c ≡ false)
                  ⊎ (is_before engine c
                        (preserved_block engine (from_hash engine lecture) late intro)
                      ≡ false))
                (from_hash engine lecture).blocks))
unfolding from_hash sort_blocks ◌+ℤ◌
answer_update-below_example =
    answer_update-below engine lecture late intro outro lecture-IsHash engine-IsOrder refl refl refl
      refl refl refl
