-- ===== src/ClientStore/Blocks.antt =====
-- What an update does to the blocks of the shared document, seen as a map from ids to blocks.
use mathlib.Core.Path.{subst}
use syncstudies.Base.{
  ◌≤◌, true, false, not, List, [], ◌∷◌, ◌++◌, Option, none, some, if◌then◌else◌, keep, ◌≡◌, refl,
  sym, ap, ◌∙◌, arith, Bool-cases, inl, inr, if_either,
}
use syncstudies.Base.Searching.{
  find, count, replace_first, count-append, count-keep_le, count-replace_first, find-append,
  find-keep, find-keep_other,
}
use syncstudies.Base.Sorting.{count-sort_by, find-sort_by}
use syncstudies.Base.Text.{String, str_eq, str_eq_iff, str_eq_refl}
use syncstudies.ClientStore.Data.{NoteBlockView}
use syncstudies.ClientStore.Merge.{JsText}
use syncstudies.ClientStore.Lists.{block_before, sort_blocks}
use syncstudies.ClientStore.Notes.{is_block, supersedes, update_found, apply_block_update}

-- No id stands twice.
abbrev pub IsDocument : List NoteBlockView → Type 0
IsDocument blocks = (i : String) → count (is_block i) blocks ≤ 1

-- What an update leaves of the block that it names.
abbrev pub newer : NoteBlockView → Option NoteBlockView → Option NoteBlockView
newer block none = some block
newer block (some existing) = if supersedes block existing then some block else some existing

find-replaced :
    (i : String) (block : NoteBlockView) (blocks : List NoteBlockView)
    → str_eq block.id i ≡ true
    → find (is_block i) (replace_first (is_block i) (λ old. block) blocks)
      ≡ elim (find (is_block i) blocks) [ none ↦ none | some old ↦ some block ]
find-replaced i block [] h = refl
find-replaced i block (b ∷ bs) h = ground (arith, find-replaced i block bs h)

find-replaced_other :
    (k i : String) (block : NoteBlockView) (blocks : List NoteBlockView)
    → ((t : String) → str_eq t k ≡ true → str_eq t i ≡ false)
    → str_eq block.id i ≡ false
    → find (is_block i) (replace_first (is_block k) (λ old. block) blocks)
      ≡ find (is_block i) blocks
find-replaced_other k i block [] other h = refl
find-replaced_other k i block (b ∷ bs) other h =
    ground (arith, find-replaced_other k i block bs other h, other b.id)

count-none :
    (i : String) (blocks : List NoteBlockView)
    → find (is_block i) blocks ≡ none
    → count (is_block i) blocks ≡ 0
count-none i [] h = refl
count-none i (b ∷ bs) h = ground (arith, count-none i bs)

module _ (js : JsText) (blocks : List NoteBlockView) (block : NoteBlockView)
    (ok : IsDocument blocks) where
  added-count :
      (i : String)
      → find (is_block block.id) blocks ≡ none
      → count (is_block i) (blocks ++ block ∷ []) ≤ 1
  added-count i fresh = elim (Bool-cases (str_eq block.id i)) [
    | inl same ↦
        let none_here : count (is_block i) blocks ≡ 0 =
          subst (λ t. count (is_block t) blocks ≡ 0) ((str_eq_iff block.id i).0 same)
            (count-none block.id blocks fresh) in
        ground (arith, count-append (is_block i) blocks (block ∷ []), none_here)
    | inr differ ↦ ground (arith, count-append (is_block i) blocks (block ∷ []), ok i)
  ]

  update_found-IsDocument :
      (found : Option NoteBlockView)
      → find (is_block block.id) blocks ≡ found
      → IsDocument (update_found js blocks block found)
  unfolding sort_blocks
  update_found-IsDocument none e = λ i.
      omega (
        arith,
        count-sort_by (block_before js) (is_block i) (blocks ++ block ∷ []),
        added-count i e,
      )
  update_found-IsDocument (some existing) e =
      if_either IsDocument (supersedes block existing) _ _
        (λ newer_one i.
          subst (λ n. n ≤ 1)
            (sym (
              count-replace_first (is_block block.id) (is_block i) (λ old. block) blocks
                (λ b h. ap (λ t. str_eq t i) (sym ((str_eq_iff b.id block.id).0 h)))))
            (ok i))
        (λ older. ok)

  -- No update makes an id stand twice.
  pub apply_block_update-IsDocument : IsDocument (apply_block_update js blocks block)
  unfolding apply_block_update
  apply_block_update-IsDocument =
      if_either IsDocument (str_eq block.text "") _ _
        (λ deletes i.
          omega (arith, count-keep_le (is_block i) (λ b. not (is_block block.id b)) blocks, ok i))
        (λ writes. update_found-IsDocument (find (is_block block.id) blocks) refl)

  update_found-find :
      (i : String) (found : Option NoteBlockView)
      → find (is_block block.id) blocks ≡ found
      → find (is_block i) (update_found js blocks block found)
        ≡ (if str_eq block.id i then newer block found else find (is_block i) blocks)
  unfolding sort_blocks
  update_found-find i none e =
      find-sort_by (block_before js) (is_block i) (blocks ++ block ∷ []) (added-count i e)
      ∙ find-append (is_block i) blocks (block ∷ [])
      ∙ elim (Bool-cases (str_eq block.id i)) [
        | inl same ↦
            let absent : find (is_block i) blocks ≡ none =
              subst (λ t. find (is_block t) blocks ≡ none) ((str_eq_iff block.id i).0 same) e in
            ground (arith, absent)
        | inr differ ↦ ground arith
      ]
  update_found-find i (some existing) e = elim (Bool-cases (str_eq block.id i)) [
    | inl same ↦
        let here : find (is_block i) blocks ≡ some existing =
          subst (λ t. find (is_block t) blocks ≡ some existing) ((str_eq_iff block.id i).0 same)
            e in
        rw same (
          if_either (λ bs. find (is_block i) bs ≡ newer block (some existing))
            (supersedes block existing) _ _
            (λ newer_one. rw newer_one (
              subst
                (λ t.
                  find (is_block i) (replace_first (is_block t) (λ old. block) blocks) ≡ some block)
                (sym ((str_eq_iff block.id i).0 same))
                (find-replaced i block blocks same ∙ rw here)))
            (λ older. rw older here))
    | inr differ ↦ rw differ (
        if_either (λ bs. find (is_block i) bs ≡ find (is_block i) blocks)
          (supersedes block existing) _ _
          (λ newer_one.
            find-replaced_other block.id i block blocks
              (λ t h. subst (λ u. str_eq u i ≡ false) (sym ((str_eq_iff t block.id).0 h)) differ)
              differ)
          (λ older. refl))
  ]

  -- What stands under each id after an update of the shared document: under another id, what stood
  -- there; under the update's own, nothing if its text is empty, and otherwise the update, unless
  -- what stood there has a later version, or the same version and text. No id stood twice.
  pub apply_block_update-refines :
      (i : String)
      → find (is_block i) (apply_block_update js blocks block) ≡ (
          if str_eq block.id i
          then if str_eq block.text "" then none else newer block (find (is_block block.id) blocks)
          else find (is_block i) blocks)
  unfolding apply_block_update
  apply_block_update-refines i = elim (Bool-cases (str_eq block.text "")) [
    | inl deletes ↦ rw deletes (elim (Bool-cases (str_eq block.id i)) [
      | inl same ↦ rw same (
          subst (λ t. find (is_block i) (keep (λ b. not (is_block t b)) blocks) ≡ none)
            (sym ((str_eq_iff block.id i).0 same)) (find-keep (is_block i) blocks))
      | inr differ ↦ rw differ (
          find-keep_other (is_block block.id) (is_block i) blocks
            (λ b h. subst (λ u. str_eq u i ≡ false) (sym ((str_eq_iff b.id block.id).0 h)) differ))
    ])
    | inr writes ↦ rw writes (update_found-find i (find (is_block block.id) blocks) refl)
  ]

supersedes-newer : (block e : NoteBlockView) → supersedes block e ≡ true → e.version ≤ block.version
supersedes-newer block e h = ground arith

superseded-older :
    (block e : NoteBlockView) → supersedes block e ≡ false → block.version ≤ e.version
superseded-older block e h = ground arith

-- An update that writes a text never takes a block back to an earlier version: what stands under its
-- id afterwards is at least as late as what stood there and as the update. No id stood twice.
pub apply_block_update-version :
    (js : JsText) (blocks : List NoteBlockView) (block e : NoteBlockView)
    → IsDocument blocks
    → str_eq block.text "" ≡ false
    → find (is_block block.id) blocks ≡ some e
    → (a : NoteBlockView) × (find (is_block block.id) (apply_block_update js blocks block) ≡ some a)
      × (e.version ≤ a.version)
      × (block.version ≤ a.version)
apply_block_update-version js blocks block e ok writes here =
    let after : find (is_block block.id) (apply_block_update js blocks block)
        ≡ newer block (some e) =
      apply_block_update-refines js blocks block ok block.id
      ∙ rw (str_eq_refl block.id, writes) (ap (newer block) here) in
    elim (Bool-cases (supersedes block e)) [
      | inl newer_one ↦
          (block, after ∙ rw newer_one, supersedes-newer block e newer_one, omega arith)
      | inr older ↦ (e, after ∙ rw older, omega arith, superseded-older block e older)
    ]

-- The version does not hold an update back once the block is deleted: an update that comes after
-- the block's deletion, of whatever version, puts the block back. No id stood twice.
pub deleted-returns :
    (js : JsText) (blocks : List NoteBlockView) (gone late : NoteBlockView)
    → IsDocument blocks
    → late.id ≡ gone.id
    → str_eq gone.text "" ≡ true
    → str_eq late.text "" ≡ false
    → find (is_block late.id) (apply_block_update js (apply_block_update js blocks gone) late)
      ≡ some late
deleted-returns js blocks gone late ok same deletes writes =
    let between : find (is_block late.id) (apply_block_update js blocks gone) ≡ none =
      apply_block_update-refines js blocks gone ok late.id
      ∙ rw (same, str_eq_refl gone.id, deletes) in
    apply_block_update-refines js (apply_block_update js blocks gone) late
      (apply_block_update-IsDocument js blocks gone ok) late.id
    ∙ rw (str_eq_refl late.id, writes, between)
