-- ===== src/RoomState/History.antt =====
-- Any number of nodes call the script on one room: their calls are one sequence, as Redis runs them.
use syncstudies.Base.{
  ℕ, zero, suc, ◌≡◌, ◌≢◌, refl, sym, ap, ◌∙◌, ◌⊎◌, inl, inr, true, List, [], ◌∷◌, length, All,
  arith,
}
use syncstudies.Base.Text.{String, str_eq, str_eq_iff}
use syncstudies.Base.Int.{ℤ, pos, ◌+ℤ◌, ◌≤ℤ◌, ◌<ℤ◌, le-+ℤ, int_laws}
use syncstudies.Timeline.{ControlRejectReason, stale_revision, recently_changed}
use syncstudies.Timeline.Conflict.{IsCurrent, is_stale_iff}
use syncstudies.RoomState.RedisHash.{JsNumber, Hash, hset}
use syncstudies.RoomState.Codec.{anchor_from_hash}
use syncstudies.RoomState.Script.{
  ApplyControlArgs, ScriptReply, written, refused, script_args, hset_all, write_fields,
  apply_atomic,
}
use syncstudies.RoomState.Decision.{transact_video-cases, revision-num, script_stale-is_stale}
use syncstudies.RoomState.RoundTrip.{num-show}

-- A call's extra pairs leave the revision alone, as those of `video:set` do.
abbrev pub KeepsRevision : List (String × String) → Type 0
KeepsRevision [] = Unit
KeepsRevision ((field, _) ∷ more) = (field ≢ "revision") × KeepsRevision more

module _ (js : JsNumber) where
  abbrev pub revision_of : Hash → ℤ
  revision_of h = (anchor_from_hash js h).revision

  pub run_calls : Hash → List ApplyControlArgs → Hash
  run_calls h [] = h
  run_calls h (c ∷ cs) = run_calls (apply_atomic js h c).0 cs

  abbrev logged : ScriptReply → List ℤ → List ℤ
  logged (written r) log = r ∷ log
  logged (refused _ _) log = log

  -- The revisions that the calls of a sequence are told to have written.
  pub write_log : Hash → List ApplyControlArgs → List ℤ
  write_log h [] = []
  write_log h (c ∷ cs) = logged (apply_atomic js h c).1 (write_log (apply_atomic js h c).0 cs)

-- The `n` integers after `r`.
abbrev pub count_up : ℤ → ℕ → List ℤ
count_up r zero = []
count_up r (suc n) = (r +ℤ pos 1) ∷ count_up (r +ℤ pos 1) n

hset_all-revision :
    (h : Hash) (pairs : List (String × String))
    → KeepsRevision pairs
    → hset_all h pairs "revision" ≡ h "revision"
hset_all-revision h [] k = refl
hset_all-revision h ((field, value) ∷ more) (ne, k) =
    hset_all-revision (hset h field value) more k ∙ other (str_eq_iff field "revision").0
  where
    other :
        (str_eq field "revision" ≡ true → field ≡ "revision")
        → hset h field value "revision" ≡ h "revision"
    other f = ground (arith, str_eq_iff field "revision", ne)

later_ne : (r s : ℤ) → r +ℤ pos 1 ≤ℤ s → r ≢ s
later_ne r s m e = let le : r +ℤ pos 1 ≤ℤ r = rw (sym e) at m in omega int_laws

count_suc : (r : ℤ) (n : ℕ) → r +ℤ pos 1 +ℤ pos n ≡ r +ℤ pos (suc n)
count_suc r n = omega int_laws

module _ (js : JsNumber) where
  write_fields-revision :
      (h : Hash) (args : ApplyControlArgs) (rev : ℤ)
      → KeepsRevision args.extra
      → revision_of js (write_fields js h (script_args js args) rev) ≡ rev
  unfolding write_fields anchor_from_hash
  write_fields-revision h args rev k =
      rw (hset_all-revision _ args.extra k) (num-show js rev (pos 0))

  -- A call either writes the next revision, or is refused and changes nothing.
  pub apply_atomic-step :
      (h : Hash) (args : ApplyControlArgs)
      → KeepsRevision args.extra
      → (((apply_atomic js h args).1 ≡ written (revision_of js h +ℤ pos 1))
          × (revision_of js (apply_atomic js h args).0 ≡ revision_of js h +ℤ pos 1))
        ⊎ ((reason : ControlRejectReason) × ((apply_atomic js h args).1
              ≡ refused reason (revision_of js h))
            × ((apply_atomic js h args).0 ≡ h))
  unfolding apply_atomic
  apply_atomic-step h args k = elim (transact_video-cases js h (script_args js args)) [
    | inl (_, t) ↦ inr (stale_revision, cc (t, revision-num js h), rw t)
    | inr (inl (_, _, t)) ↦ inr (recently_changed, cc (t, revision-num js h), rw t)
    | inr (inr (_, _, t)) ↦
        inl
          (cc (t, revision-num js h), rw (t, revision-num js h) (write_fields-revision h args _ k))
  ]

  -- The revisions handed out are consecutive, whoever calls and in whatever order: each is written
  -- once, none is skipped, and the last is the revision of the room. No call's extra pairs write
  -- the revision.
  pub write_log-count_up :
      (h : Hash) (cs : List ApplyControlArgs)
      → All (λ c. KeepsRevision c.extra) cs
      → (write_log js h cs ≡ count_up (revision_of js h) (length (write_log js h cs)))
        × (revision_of js (run_calls js h cs)
            ≡ revision_of js h +ℤ pos (length (write_log js h cs)))
  unfolding write_log run_calls
  write_log-count_up h [] k = (refl, omega int_laws)
  write_log-count_up h (c ∷ cs) (k, ks) = elim (apply_atomic-step h c k) [
    | inl (w, r) ↦
        let (log, last) = write_log-count_up (apply_atomic js h c).0 cs ks in
        rw w (
          ap (◌∷◌ (revision_of js h +ℤ pos 1)) (rw r at log),
          last ∙ rw r (count_suc (revision_of js h) _),
        )
    | inr (reason, w, same) ↦ rw (w, same) (write_log-count_up h cs ks)
  ]

  -- The revision never falls.
  run_calls-mono :
      (h : Hash) (cs : List ApplyControlArgs)
      → All (λ c. KeepsRevision c.extra) cs
      → revision_of js h ≤ℤ revision_of js (run_calls js h cs)
  run_calls-mono h cs k =
      let last : revision_of js (run_calls js h cs)
          ≡ revision_of js h +ℤ pos (length (write_log js h cs)) =
        (write_log-count_up h cs k).1 in
      rw last (le-+ℤ (revision_of js h) (pos (length (write_log js h cs))) (omega arith))

  -- A call that writes, unless it asks for no check, names the revision that it finds.
  written-IsCurrent :
      (h : Hash) (args : ApplyControlArgs) (rev : ℤ)
      → (apply_atomic js h args).1 ≡ written rev
      → IsCurrent (anchor_from_hash js h) args.expected_revision
  unfolding apply_atomic
  written-IsCurrent h args rev e = elim (transact_video-cases js h (script_args js args)) [
    | inl (_, t) ↦ cc t
    | inr (inl (_, _, t)) ↦ cc t
    | inr (inr (fresh, _, _)) ↦ (is_stale_iff _ _).0 (sym (script_stale-is_stale js h args) ∙ fresh)
  ]

  -- Of two controls that name the same nonnegative revision at most one wins: once one has written,
  -- the other is refused, however many calls come in between, and whatever the lock. No extra pairs
  -- of the calls write the revision.
  pub no_double_commit :
      (h : Hash) (a b : ApplyControlArgs) (between : List ApplyControlArgs) (rev rev' : ℤ)
      → KeepsRevision a.extra
      → All (λ c. KeepsRevision c.extra) between
      → pos 0 ≤ℤ a.expected_revision
      → b.expected_revision ≡ a.expected_revision
      → (apply_atomic js h a).1 ≡ written rev
      → (apply_atomic js (run_calls js (apply_atomic js h a).0 between) b).1 ≢ written rev'
  no_double_commit h a b between rev rev' k ks checked same wins again =
      elim (apply_atomic-step h a k) [
        | inl (_, r) ↦
            clash (written-IsCurrent h a rev wins) (written-IsCurrent _ b rev' again)
              (rw r at (run_calls-mono (apply_atomic js h a).0 between ks))
        | inr (_, w, _) ↦ cc
      ]
    where
      late : Hash
      late = run_calls js (apply_atomic js h a).0 between

      clash :
          IsCurrent (anchor_from_hash js h) a.expected_revision
          → IsCurrent (anchor_from_hash js late) b.expected_revision
          → revision_of js h +ℤ pos 1 ≤ℤ revision_of js late
          → ⊥
      clash (inl n) q m = omega arith
      clash (inr p) (inl n) m =
          let n' : a.expected_revision <ℤ pos 0 = rw same at n in absurd (omega arith)
      clash (inr p) (inr q) m = later_ne (revision_of js h) _ m (sym p ∙ sym same ∙ q)
