-- ===== src/NotesStore/Race.antt =====
-- Two updates of one block at once: both read before either writes.
use syncstudies.Base.{suc, ◌≡◌, refl, ap, ◌∙◌, true, false, some, ◌==◌}
use syncstudies.Base.Text.{str_eq_refl}
use syncstudies.NotesStore.{
  JsEngine, NoteBlock, NotesHash, BlockUpdate, updated, Writing, write, from_hash, decide_update,
  change_block, answer_update, perform, trimmed, changed_block,
}
use syncstudies.NotesStore.Effects.{block_of, IsHash, perform-written}
use syncstudies.NotesStore.Sequential.{answer-decided}

-- Both calls read the hash, then the first writes and then the second.
unfoldable pub both_read : JsEngine → NotesHash → BlockUpdate → BlockUpdate → NotesHash
both_read js hash u v =
    perform (perform hash (answer_update js (from_hash js hash) u).1)
      (answer_update js (from_hash js hash) v).1

-- An update of a block at the version that it has, with a text that is not blank.
pub record IsEdit (js : JsEngine) (hash : NotesHash) (b : NoteBlock) (u : BlockUpdate)
    : Type 0 where
  pub there : block_of hash u.block_id ≡ some b
  pub current : (b.version == u.base_version) ≡ true
  pub full : js.is_blank (trimmed u) ≡ false

module _ (js : JsEngine) (hash : NotesHash) (ok : IsHash hash) (b : NoteBlock) where
  answer-IsEdit :
      (u : BlockUpdate)
      → IsEdit js hash b u
      → answer_update js (from_hash js hash) u ≡ (
        updated (changed_block u b) (suc hash.version),
        write (changed_block u b) (suc hash.version) u.now,
      )
  unfolding change_block from_hash
  answer-IsEdit u e =
      answer-decided js hash u ok
      ∙ ap (decide_update js (from_hash js hash) u) e.there
      ∙ rw (e.current, e.full) refl

  -- Two edits of one version of a block that read before either writes are both told that they were
  -- made, at the same version of the block and of the document; and then the block has the second's
  -- text, and the document has gone up by one version only.
  pub both_read-loses :
      (u v : BlockUpdate)
      → IsEdit js hash b u
      → IsEdit js hash b v
      → ((answer_update js (from_hash js hash) u).0
          ≡ updated (changed_block u b) (suc hash.version))
        × ((answer_update js (from_hash js hash) v).0
            ≡ updated (changed_block v b) (suc hash.version))
        × (block_of (both_read js hash u v) b.id ≡ some (changed_block v b))
        × ((both_read js hash u v).version ≡ suc hash.version)
  unfolding both_read perform
  both_read-loses u v eu ev =
      let au = answer-IsEdit u eu in
      let av = answer-IsEdit v ev in
      (
        ap (λ a. a.0) au,
        ap (λ a. a.0) av,
        ap (λ h. block_of h b.id) done
            ∙ perform-written (perform hash (edit u)) (edit v) b.id
            ∙ rw (str_eq_refl b.id) refl,
        ap (λ h. h.version) done,
      )
    where
      edit : BlockUpdate → Writing
      edit w = write (changed_block w b) (suc hash.version) w.now

      done : both_read js hash u v ≡ perform (perform hash (edit u)) (edit v)
      done = λ i. perform (perform hash (answer-IsEdit u eu i).1) (answer-IsEdit v ev i).1
