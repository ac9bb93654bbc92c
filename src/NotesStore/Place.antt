-- ===== src/NotesStore/Place.antt =====
-- Where a preserved text stands in the document.
use mathlib.Core.Path.{subst}
use syncstudies.Base.{
  suc, ◌≡◌, refl, sym, ap, ◌∙◌, arith, Bool, true, false, ◌⊎◌, inl, inr, List, [], ◌∷◌, some, ◌==◌,
  All, Bool-cases, ◌||◌,
}
use syncstudies.Base.Int.{ltb_ℤ}
use syncstudies.Base.Searching.{find, All-map}
use syncstudies.Base.Sorting.{IsOrder, IsSorted, sort_by-IsSorted}
use syncstudies.Base.Text.{String, str_eq_iff}
use syncstudies.NotesStore.{
  JsEngine, NoteBlock, NotesHash, BlockUpdate, conflict, is_block, is_before, from_hash,
  sort_blocks, position_below, decide_update, preserve, answer_update, preserved_block, block_after,
  first_block, is_full,
}
use syncstudies.NotesStore.Effects.{block_of, IsHash, from_hash-find}
use syncstudies.NotesStore.Sequential.{answer-decided, find-holds, inside}

or_left : (a b : Bool) → a ≡ true → (a || b) ≡ true
or_left a b h = ground arith

All-find :
    (P : NoteBlock → Type 0) (p : NoteBlock → Bool) (xs : List NoteBlock) (x : NoteBlock)
    → All P xs
    → find p xs ≡ some x
    → P x
All-find P p [] x h e = absurd (cc)
All-find P p (y ∷ ys) x (py, h) e = elim (Bool-cases (p y)) [
  | inl here ↦
      subst P (inside (sym (ap (λ b. elim b [ true ↦ some y | false ↦ find p ys ]) here) ∙ e)) py
  | inr past ↦
      All-find P p ys x h (sym (ap (λ b. elim b [ true ↦ some y | false ↦ find p ys ]) past) ∙ e)
]

module _ (less : NoteBlock → NoteBlock → Bool) (ok : IsOrder less) where
  irreflexive : (b : NoteBlock) → less b b ≡ false
  irreflexive b = elim (Bool-cases (less b b)) [ inl before ↦ ok.asym b b before | inr past ↦ past ]

  -- Not after the one or not before the other.
  abbrev Apart : NoteBlock → NoteBlock → NoteBlock → Type 0
  Apart existing next c = (less existing c ≡ false) ⊎ (less c next ≡ false)

  after_first :
      (existing next : NoteBlock) (ys : List NoteBlock)
      → first_block ys ≡ some next
      → IsSorted less ys
      → All (Apart existing next) ys
  after_first existing next [] e s = tt
  after_first existing next (y ∷ ys) e (first, s) =
      let same : y ≡ next = inside e in
      (
        inr (ap (λ z. less y z) (sym same) ∙ irreflexive y),
        All-map (λ z. less z y ≡ false) (Apart existing next) ys
            (λ z h. inr (ap (less z) (sym same) ∙ h)) first,
      )

  next-Apart :
      (id : String) (existing next : NoteBlock) (xs : List NoteBlock)
      → find (is_block id) xs ≡ some existing
      → block_after id xs ≡ some next
      → IsSorted less xs
      → All (Apart existing next) xs
  next-Apart id existing next [] f e s = tt
  next-Apart id existing next (x ∷ xs) f e (first, s) = elim (Bool-cases (is_block id x)) [
    | inl here ↦
        let same : x ≡ existing =
          inside
            (sym (ap (λ b. elim b [ true ↦ some x | false ↦ find (is_block id) xs ]) here) ∙ f) in
        (
          inl (ap (λ z. less z x) (sym same) ∙ irreflexive x),
          after_first existing next xs
              (sym (ap (λ b. elim b [ true ↦ first_block xs | false ↦ block_after id xs ]) here)
                ∙ e)
              s,
        )
    | inr past ↦
        let f' : find (is_block id) xs ≡ some existing =
          sym (ap (λ b. elim b [ true ↦ some x | false ↦ find (is_block id) xs ]) past) ∙ f in
        (
          inl (All-find (λ y. less y x ≡ false) (is_block id) xs existing first f'),
          next-Apart id existing next xs f'
              (sym (ap (λ b. elim b [ true ↦ first_block xs | false ↦ block_after id xs ]) past)
                ∙ e)
              s,
        )
  ]

  -- What is not before the next one is not before what comes before the next one.
  between :
      (existing next p c : NoteBlock)
      → less p next ≡ true
      → Apart existing next c
      → Apart existing p c
  between existing next p c h (inl past) = inl past
  between existing next p c h (inr past) = inr (ok.past p next c (ok.asym p next h) past)

module _ (js : JsEngine) (hash : NotesHash) (u : BlockUpdate) (existing next : NoteBlock) where
  abbrev doc : NotesHash
  doc = from_hash js hash

  abbrev preserved : NoteBlock
  preserved = preserved_block js doc u existing

  -- A late update of a block, in a document with room, is answered as a conflict; its text goes below
  -- the block and above the next one, and nothing stands between the block and the text. The block
  -- is not the last, the double that lies between the two positions is apart from both, and the
  -- engine's comparison of blocks is an order.
  pub answer_update-below :
      IsHash hash
      → IsOrder (is_before js)
      → block_of hash u.block_id ≡ some existing
      → (existing.version == u.base_version) ≡ false
      → is_full doc ≡ false
      → block_after existing.id doc.blocks ≡ some next
      → ltb_ℤ existing.position (js.middle existing.position next.position) ≡ true
      → ltb_ℤ (js.middle existing.position next.position) next.position ≡ true
      → ((answer_update js doc u).0 ≡ conflict existing preserved (suc hash.version))
        × ((is_before js existing preserved ≡ true)
            × ((is_before js preserved next ≡ true)
                × All
                    (λ c. (is_before js existing c ≡ false) ⊎ (is_before js c preserved ≡ false))
                    doc.blocks))
  unfolding from_hash sort_blocks preserve
  answer_update-below ok order e stale room e' above below =
      let at : preserved.position ≡ js.middle existing.position next.position =
        ap (position_below js existing) e' in
      let lower : is_before js preserved next ≡ true =
        or_left _ _ (ap (λ p. ltb_ℤ p next.position) at ∙ below) in
      let named : existing.id ≡ u.block_id =
        (str_eq_iff existing.id u.block_id).0
          (find-holds (is_block u.block_id) hash.blocks existing e) in
      (
        ap (λ a. a.0) (answer-decided js hash u ok ∙ ap (decide_update js doc u) e)
            ∙ rw (stale, room) refl,
        (
          or_left _ _ (ap (λ p. ltb_ℤ existing.position p) at ∙ above),
          (
            lower,
            All-map (Apart (is_before js) order existing next) _ doc.blocks
                (λ c. between (is_before js) order existing next preserved c lower)
                (next-Apart (is_before js) order existing.id existing next doc.blocks
                  (from_hash-find js hash existing.id ok ∙ ap (block_of hash) named ∙ e) e'
                  (sort_by-IsSorted (is_before js) hash.blocks order)),
          ),
        ),
      )
