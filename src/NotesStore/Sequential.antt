-- ===== src/NotesStore/Sequential.antt =====
-- Updates one after the other: nobody writes between a call's read and its write.
use mathlib.Core.Path.{subst}
use syncstudies.Base.{
  ◌≡◌, refl, sym, ap, ◌∙◌, arith, Bool, true, false, ◌&&◌, List, [], ◌∷◌, Option, none, some, ◌==◌,
  Bool-cases, inl, inr,
}
use syncstudies.Base.Searching.{find}
use syncstudies.Base.Text.{String, str_eq, str_eq_iff}
use syncstudies.NotesStore.{
  JsEngine, NoteBlock, NotesHash, BlockUpdate, BlockUpdateOutcome, updated, conflict,
  too_many_blocks, is_block, from_hash, decide_update, add_block, preserve, change_block,
  answer_update, update_block,
}
use syncstudies.NotesStore.Effects.{block_of, IsHash, written, perform-written, from_hash-find}

-- The block that an update may change: the one that it names, at the version that it names.
abbrev pub replaces : BlockUpdate → String → NoteBlock → Bool
replaces u i b = str_eq u.block_id i && (b.version == u.base_version)

abbrev pub is_accepted : BlockUpdateOutcome → Bool
is_accepted (updated b v) = true
is_accepted (conflict b p v) = true
is_accepted too_many_blocks = false

pub inside : {a b : NoteBlock} → some a ≡ some b → a ≡ b
inside {a = a} e = ap (λ o. elim o [ none ↦ a | some c ↦ c ]) e

pub find-holds :
    (p : NoteBlock → Bool) (xs : List NoteBlock) (x : NoteBlock) → find p xs ≡ some x → p x ≡ true
find-holds p [] x e = cc
find-holds p (y ∷ ys) x e = elim (Bool-cases (p y)) [
  | inl here ↦
      let same : y ≡ x =
        inside (sym (ap (λ b. elim b [ true ↦ some y | false ↦ find p ys ]) here) ∙ e) in
      subst (λ z. p z ≡ true) same here
  | inr past ↦
      find-holds p ys x (sym (ap (λ b. elim b [ true ↦ some y | false ↦ find p ys ]) past) ∙ e)
]

module _ (js : JsEngine) (hash : NotesHash) (u : BlockUpdate) (ok : IsHash hash) where
  abbrev doc : NotesHash
  doc = from_hash js hash

  abbrev after : NotesHash
  after = (update_block js hash u).1

  pub answer-decided : answer_update js doc u ≡ decide_update js doc u (block_of hash u.block_id)
  unfolding answer_update
  answer-decided = ap (decide_update js doc u) (from_hash-find js hash u.block_id ok)

  module _ (i : String) (b : NoteBlock) where
    add_block-keeps :
        block_of hash u.block_id ≡ none
        → block_of hash i ≡ some b
        → written (block_of hash) (add_block js doc u).1 i ≡ some b
    unfolding add_block
    add_block-keeps absent here = elim (Bool-cases (str_eq u.block_id i)) [
      | inl same ↦
          let e : block_of hash i ≡ none =
            subst (λ k. block_of hash k ≡ none) ((str_eq_iff u.block_id i).0 same) absent in
          absurd (cc)
      | inr differ ↦ ground (arith, here, differ)
    ]

    preserve-keeps :
        (existing : NoteBlock)
        → block_of hash u.fresh_id ≡ none
        → block_of hash i ≡ some b
        → written (block_of hash) (preserve js doc u existing).1 i ≡ some b
    unfolding preserve
    preserve-keeps existing fresh here = elim (Bool-cases (str_eq u.fresh_id i)) [
      | inl same ↦
          let e : block_of hash i ≡ none =
            subst (λ k. block_of hash k ≡ none) ((str_eq_iff u.fresh_id i).0 same) fresh in
          absurd (cc)
      | inr differ ↦ ground (arith, here, differ)
    ]

    change_block-keeps :
        (existing : NoteBlock)
        → existing.id ≡ u.block_id
        → str_eq u.block_id i ≡ false
        → block_of hash i ≡ some b
        → written (block_of hash) (change_block js doc u existing).1 i ≡ some b
    unfolding change_block
    change_block-keeps existing named differ here =
        let differ' : str_eq existing.id i ≡ false = ap (λ k. str_eq k i) named ∙ differ in
        ground (arith, here, differ, differ')

    decide_update-keeps :
        (o : Option NoteBlock)
        → block_of hash u.block_id ≡ o
        → block_of hash u.fresh_id ≡ none
        → replaces u i b ≡ false
        → block_of hash i ≡ some b
        → written (block_of hash) (decide_update js doc u o).1 i ≡ some b
    decide_update-keeps none e fresh spared here = add_block-keeps e here
    decide_update-keeps (some existing) e fresh spared here =
        elim (Bool-cases (existing.version == u.base_version)) [
          | inl current ↦ rw current (
              change_block-keeps existing (found_id existing e) (elsewhere existing e current) here)
          | inr stale ↦ rw stale (preserve-keeps existing fresh here)
        ]
      where
        found_id : (x : NoteBlock) → block_of hash u.block_id ≡ some x → x.id ≡ u.block_id
        found_id x e =
            (str_eq_iff x.id u.block_id).0 (find-holds (is_block u.block_id) hash.blocks x e)

        elsewhere :
            (x : NoteBlock)
            → block_of hash u.block_id ≡ some x
            → (x.version == u.base_version) ≡ true
            → str_eq u.block_id i ≡ false
        elsewhere x e current = elim (Bool-cases (str_eq u.block_id i)) [
          | inl same ↦
              let there : some x ≡ some b =
                sym e ∙ ap (block_of hash) ((str_eq_iff u.block_id i).0 same) ∙ here in
              let one : x ≡ b = inside there in
              let v : (b.version == u.base_version) ≡ true =
                subst (λ y. (y.version == u.base_version) ≡ true) one current in
              absurd (ground (arith, spared, v, same))
          | inr differ ↦ differ
        ]

  -- An update loses nobody's text: whatever stands in the document stands there after it as it was,
  -- unless it is the block that the update names, at the very version that it names. The id that may
  -- be minted is new, and nobody else writes between the update's read and its write.
  pub update_block-keeps :
      (i : String) (b : NoteBlock)
      → block_of hash u.fresh_id ≡ none
      → replaces u i b ≡ false
      → block_of hash i ≡ some b
      → block_of (update_block js hash u).1 i ≡ some b
  unfolding update_block
  update_block-keeps i b fresh spared here =
      perform-written hash (answer_update js doc u).1 i
      ∙ ap (λ a. written (block_of hash) a.1 i) answer-decided
      ∙ decide_update-keeps i b (block_of hash u.block_id) refl fresh spared here
