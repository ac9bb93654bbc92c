-- ===== src/WebLimit/Traffic.antt =====
-- What one caller is granted among the calls of others, with the sweeps that any of them sets off.
use syncstudies.Base.{
  ℕ, ◌≤◌, ◌≡◌, refl, sym, ap, ◌∙◌, false, ◌⊎◌, inl, inr, Option, none, some, List, [], ◌∷◌, All,
  arith, Bool-cases,
}
use syncstudies.Base.Text.{String, str_eq, str_eq_refl}
use syncstudies.Base.Int.{ℤ, pos, ◌+ℤ◌, ◌-ℤ◌, ◌*ℤ◌, ◌≤ℤ◌, ltb_ℤ, int_laws, move_split, *ℤ_nonneg}
use syncstudies.WebLimit.Policies.{RateLimitPolicy, RateScope, rate_limits, hour}
use syncstudies.WebLimit.{
  JsWait, TokenCount, LimiterState, RateLimitResult, take_token, drop_older, sweep,
  sweep_interval_ms, bucket_key, consume, consume_as,
}
use syncstudies.WebLimit.Bucket.{IsProper}
use syncstudies.WebLimit.Rate.{cost, take_token-pays}
use syncstudies.WebLimit.Sweep.{take_token-full, hour_long}

-- A call of `consume`: by the caller in question, or by any other on any scope.
pub data Call : Type 0 where
  own : ℤ → Call
  other : RateScope → Option String → ℤ → Call

abbrev pub time_of : Call → ℤ
time_of (own t) = t
time_of (other scope identifier t) = t

-- The tokens granted to the caller, each worth a window.
unfoldable pub granted : JsWait → LimiterState → RateScope → String → List Call → ℤ
granted js st scope i [] = pos 0
granted js st scope i (own t ∷ calls) =
    let (st', result) = consume js st scope (some i) t in
    cost (rate_limits scope) result +ℤ granted js st' scope i calls
granted js st scope i (other scope' i' t ∷ calls) =
    granted js (consume js st scope' i' t).0 scope i calls

-- The others' calls are on other buckets.
abbrev pub IsApart : String → Call → Type 0
IsApart key (own t) = Unit
IsApart key (other scope none t) = Unit
IsApart key (other scope (some i) t) = str_eq (bucket_key scope i) key ≡ false

abbrev pub Ascending : ℤ → List Call → Type 0
Ascending u [] = Unit
Ascending u (c ∷ cs) = (u ≤ℤ time_of c) × Ascending (time_of c) cs

abbrev pub last_time : ℤ → List Call → ℤ
last_time u [] = u
last_time u (c ∷ cs) = last_time (time_of c) cs

-- The bucket is there; or it was swept away, an hour or more after it was last touched.
abbrev Held : Option TokenCount → TokenCount → ℤ → Type 0
Held o b u = (o ≡ some b) ⊎ ((o ≡ none) × (pos hour ≤ℤ u -ℤ b.updated_ms))

drop_older-Held :
    (o : Option TokenCount) (b : TokenCount) (u t : ℤ)
    → u ≤ℤ t
    → Held o b u
    → Held (drop_older (λ c. c.updated_ms) (pos hour) t o) b t
drop_older-Held o b u t up (inl there) =
    rw there (elim (Bool-cases (ltb_ℤ (pos hour) (t -ℤ b.updated_ms))) [
      | inl old ↦ inr (rw old refl, hour_long (t -ℤ b.updated_ms) hour (omega arith) old)
      | inr new ↦ inl (rw new refl)
    ])
drop_older-Held o b u t up (inr (gone, long)) = rw gone (inr (refl, omega int_laws))

later-Held : (o : Option TokenCount) (b : TokenCount) (u t : ℤ) → u ≤ℤ t → Held o b u → Held o b t
later-Held o b u t up (inl there) = inl there
later-Held o b u t up (inr (gone, long)) = inr (gone, omega int_laws)

sweep-Held :
    (st : LimiterState) (key : String) (b : TokenCount) (u t : ℤ)
    → u ≤ℤ t
    → Held (st.buckets key) b u
    → Held ((sweep st t).buckets key) b t
unfolding sweep
sweep-Held st key b u t up h = elim (Bool-cases (ltb_ℤ (t -ℤ st.last_sweep_ms) sweep_interval_ms)) [
  | inl early ↦ rw early (later-Held (st.buckets key) b u t up h)
  | inr due ↦ rw due (drop_older-Held (st.buckets key) b u t up h)
]

-- Another's call leaves the bucket, or the sweep that it sets off takes it away.
other-Held :
    (js : JsWait) (st : LimiterState) (key : String) (b : TokenCount) (u : ℤ) (scope : RateScope)
    (i : Option String) (t : ℤ)
    → u ≤ℤ t
    → IsApart key (other scope i t)
    → Held (st.buckets key) b u
    → Held ((consume js st scope i t).0.buckets key) b t
unfolding consume consume_as
other-Held js st key b u scope none t up apart h = later-Held (st.buckets key) b u t up h
other-Held js st key b u scope (some i) t up apart h = elim (Bool-cases (str_eq i "")) [
  | inl nobody ↦ rw nobody (later-Held (st.buckets key) b u t up h)
  | inr somebody ↦ rw (somebody, apart) (sweep-Held st key b u t up h)
]

-- A bucket that was swept away answers as the one that was there.
take_token-Held :
    (js : JsWait) (policy : RateLimitPolicy) (o : Option TokenCount) (b : TokenCount) (t : ℤ)
    → IsProper policy
    → policy.window_ms ≤ hour
    → pos 0 ≤ℤ b.tokens
    → Held o b t
    → take_token js policy o t ≡ take_token js policy (some b) t
take_token-Held js policy o b t ok short solvent (inl there) =
    ap (λ o. take_token js policy o t) there
take_token-Held js policy o b t ok short solvent (inr (gone, long)) =
    ap (λ o. take_token js policy o t) gone
    ∙ sym (take_token-full js policy b t ok solvent (omega arith))

module _ (js : JsWait) (st : LimiterState) (scope : RateScope) (i : String) (b : TokenCount)
    (u t : ℤ) (ok : IsProper (rate_limits scope)) (short : (rate_limits scope).window_ms ≤ hour)
    (named : str_eq i "" ≡ false) (solvent : pos 0 ≤ℤ b.tokens) (up : u ≤ℤ t)
    (held : Held (st.buckets (bucket_key scope i)) b u) where
  abbrev taken : TokenCount × RateLimitResult
  taken = take_token js (rate_limits scope) (some b) t

  answered : take_token js (rate_limits scope) ((sweep st t).buckets (bucket_key scope i)) t ≡ taken
  answered =
      take_token-Held js (rate_limits scope) _ b t ok short solvent
        (sweep-Held st (bucket_key scope i) b u t up held)

  own-result : (consume js st scope (some i) t).1 ≡ taken.1
  unfolding consume consume_as
  own-result = rw named (ap (λ r. r.1) answered)

  own-bucket : (consume js st scope (some i) t).0.buckets (bucket_key scope i) ≡ some taken.0
  unfolding consume consume_as
  own-bucket = rw (named, str_eq_refl (bucket_key scope i)) (ap (λ r. some r.0) answered)

-- What the calls may still be granted: the bucket's tokens, and the refill up to the last call.
abbrev allowance : RateScope → TokenCount → ℤ → List Call → ℤ
allowance scope b u calls =
    b.tokens +ℤ (last_time u calls -ℤ b.updated_ms) *ℤ pos (rate_limits scope).limit

last-le : (u : ℤ) (calls : List Call) → Ascending u calls → u ≤ℤ last_time u calls
last-le u [] up = omega arith
last-le u (c ∷ cs) (first, rest) = let ih = last-le (time_of c) cs rest in omega arith

nothing_yet : (x : ℤ) (d : ℤ) (l : ℕ) → pos 0 ≤ℤ x → pos 0 ≤ℤ d → pos 0 ≤ℤ x +ℤ d *ℤ pos l
nothing_yet x d l h k = let times = *ℤ_nonneg d (pos l) k (omega arith) in omega int_laws

since_then : (u v : ℤ) → u ≤ℤ v → pos 0 ≤ℤ v -ℤ u
since_then u v h = omega int_laws

same_time : (a t : ℤ) → a ≡ t → a ≤ℤ t
same_time a t e = rw e (omega arith)

bound :
    (js : JsWait) (st : LimiterState) (scope : RateScope) (i : String) (b : TokenCount) (u : ℤ)
    (calls : List Call)
    → IsProper (rate_limits scope)
    → (rate_limits scope).window_ms ≤ hour
    → str_eq i "" ≡ false
    → pos 0 ≤ℤ b.tokens
    → b.updated_ms ≤ℤ u
    → Held (st.buckets (bucket_key scope i)) b u
    → Ascending u calls
    → All (IsApart (bucket_key scope i)) calls
    → granted js st scope i calls ≤ℤ allowance scope b u calls
unfolding granted
bound js st scope i b u [] ok short named solvent since held up apart =
    nothing_yet b.tokens (u -ℤ b.updated_ms) (rate_limits scope).limit solvent
      (since_then b.updated_ms u since)
bound js st scope i b u (own t ∷ calls) ok short named solvent since held (first, rest) (_, apart) =
    let (stamp, still, pays) =
      take_token-pays js (rate_limits scope) b t solvent (omega int_laws) in
    let b' : TokenCount = (taken js st scope i b u t ok short named solvent first held).0 in
    let ih =
      bound js (consume js st scope (some i) t).0 scope i b' t calls ok short named still
        (same_time _ t stamp)
        (inl (own-bucket js st scope i b u t ok short named solvent first held)) rest apart in
    let ih' = rw stamp at ih in
    rw
      (
        own-result js st scope i b u t ok short named solvent first held,
        move_split b.tokens b.updated_ms t (last_time t calls) (pos (rate_limits scope).limit),
      )
      (omega int_laws)
bound js st scope i b u (other scope' i' t ∷ calls) ok short named solvent since held (first, rest)
      (far, apart) =
    bound js (consume js st scope' i' t).0 scope i b t calls ok short named solvent (omega arith)
      (other-Held js st (bucket_key scope i) b u scope' i' t first far held) rest apart

-- Over any row of calls of `consume`, the caller's own and those of others on other buckets, with
-- the sweeps that any of them sets off, the tokens granted to the caller are no more than its bucket
-- held and was refilled with in that time. The policy has a positive limit and a positive window of
-- at most an hour: the sweep forgets what a longer one has counted. The caller is identified, its
-- bucket is there at the start and holds no debt, and the clock does not step back.
pub granted-le :
    (js : JsWait) (st : LimiterState) (scope : RateScope) (i : String) (b : TokenCount)
    (calls : List Call)
    → IsProper (rate_limits scope)
    → (rate_limits scope).window_ms ≤ hour
    → str_eq i "" ≡ false
    → st.buckets (bucket_key scope i) ≡ some b
    → pos 0 ≤ℤ b.tokens
    → Ascending b.updated_ms calls
    → All (IsApart (bucket_key scope i)) calls
    → granted js st scope i calls
      ≤ℤ b.tokens +ℤ (last_time b.updated_ms calls -ℤ b.updated_ms) *ℤ pos (rate_limits scope).limit
granted-le js st scope i b calls ok short named there solvent up apart =
    bound js st scope i b b.updated_ms calls ok short named solvent (omega arith) (inl there) up
      apart
