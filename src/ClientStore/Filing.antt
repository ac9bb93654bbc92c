-- ===== src/ClientStore/Filing.antt =====
-- The two Maps of `mergeMessages`: what they hold after each message, and after all of them.
use mathlib.Core.Path.{subst}
use syncstudies.Base.{
  ◌≤◌, Bool, true, false, not, ◌&&◌, List, [], ◌∷◌, Option, none, some, if◌then◌else◌, All, ◌≡◌,
  refl, sym, Bool-cases, inl, inr,
}
use syncstudies.Base.Searching.{
  set_by, find, count, find-set_by, find-set_by_other, count-set_by, count-set_by_other,
}
use syncstudies.Base.Text.{String, str_eq, str_eq_iff}
use syncstudies.ClientStore.Data.{ChatMessage}
use syncstudies.ClientStore.Merge.{Filed, is_sent, has_id, has_client_id, same_text}

abbrev pub IsSent : ChatMessage → Type 0
IsSent m = is_sent m.delivery ≡ true

abbrev pub IsUnsent : ChatMessage → Type 0
IsUnsent m = is_sent m.delivery ≡ false

-- What the two Maps are: each key has at most one value.
pub record IsFiled (f : Filed) : Type 0 where
  pub all_sent : All IsSent f.by_id
  pub all_unsent : All IsUnsent f.pending
  pub one_id : (j : String) → count (has_id j) f.by_id ≤ 1
  pub one_client : (c : String) → count (has_client_id (some c)) f.pending ≤ 1

-- The confirmed message of an id, and the unconfirmed one of a client's id.
abbrev pub sent_as : String → ChatMessage → Bool
sent_as j m = is_sent m.delivery && has_id j m

abbrev pub pending_as : String → ChatMessage → Bool
pending_as c m = not (is_sent m.delivery) && has_client_id (some c) m

abbrev pub or_else {ℓ} : {A : Type ℓ} → Option A → Option A → Option A
or_else none d = d
or_else (some x) d = some x

-- The last that passes a test.
abbrev pub latest {ℓ} : {A : Type ℓ} → (A → Bool) → List A → Option A
latest p [] = none
latest p (x ∷ xs) = or_else (latest p xs) (if p x then some x else none)

other_id :
    (i j : String) → str_eq i j ≡ false → (k : String) → str_eq k i ≡ true → str_eq k j ≡ false
other_id i j differ k same =
    let e : k ≡ i = (str_eq_iff k i).0 same in subst (λ t. str_eq t j ≡ false) (sym e) differ

pub other_client :
    (i j : String)
    → str_eq i j ≡ false
    → (k : Option String) → same_text k (some i) ≡ true
    → same_text k (some j) ≡ false
other_client i j differ none h = refl
other_client i j differ (some k) h = other_id i j differ k h

pub find-by_id :
    (j : String) (m : ChatMessage) (xs : List ChatMessage)
    → find (has_id j) (set_by (has_id m.view.id) m xs)
      ≡ (if has_id j m then some m else find (has_id j) xs)
find-by_id j m xs = elim (Bool-cases (str_eq m.view.id j)) [
  | inl same ↦
      let e : m.view.id ≡ j = (str_eq_iff m.view.id j).0 same in
      rw same (
        subst (λ t. find (has_id j) (set_by (has_id t) m xs) ≡ some m) (sym e)
          (find-set_by (has_id j) m xs same))
  | inr differ ↦ rw differ (
      find-set_by_other (has_id m.view.id) (has_id j) m xs differ
        (λ y. other_id m.view.id j differ y.view.id))
]

pub count-by_id :
    (j : String) (m : ChatMessage) (xs : List ChatMessage)
    → ((k : String) → count (has_id k) xs ≤ 1)
    → count (has_id j) (set_by (has_id m.view.id) m xs) ≤ 1
count-by_id j m xs one = elim (Bool-cases (str_eq m.view.id j)) [
  | inl same ↦
      subst (λ t. count (has_id j) (set_by (has_id t) m xs) ≤ 1)
        (sym ((str_eq_iff m.view.id j).0 same)) (count-set_by (has_id j) m xs same (one j))
  | inr differ ↦
      subst (λ n. n ≤ 1)
        (sym (
          count-set_by_other (has_id m.view.id) (has_id j) m xs differ
            (λ y. other_id m.view.id j differ y.view.id)))
        (one j)
]

module _ (c d : String) (m : ChatMessage) (xs : List ChatMessage)
    (own : m.view.client_msg_id ≡ some d) where
  own_client : (b : Bool) → str_eq d c ≡ b → has_client_id (some c) m ≡ b
  own_client b h = subst (λ k. same_text k (some c) ≡ b) (sym own) h

  pub find-pending :
      find (has_client_id (some c)) (set_by (has_client_id (some d)) m xs)
      ≡ (if str_eq d c then some m else find (has_client_id (some c)) xs)
  find-pending = elim (Bool-cases (str_eq d c)) [
    | inl same ↦ rw same (
        subst (λ t. find (has_client_id (some c)) (set_by (has_client_id (some t)) m xs) ≡ some m)
          (sym ((str_eq_iff d c).0 same))
          (find-set_by (has_client_id (some c)) m xs (own_client true same)))
    | inr differ ↦ rw differ (
        find-set_by_other (has_client_id (some d)) (has_client_id (some c)) m xs
          (own_client false differ) (λ y. other_client d c differ y.view.client_msg_id))
  ]

  pub count-pending :
      count (has_client_id (some c)) xs ≤ 1
      → count (has_client_id (some c)) (set_by (has_client_id (some d)) m xs) ≤ 1
  count-pending one = elim (Bool-cases (str_eq d c)) [
    | inl same ↦
        subst (λ t. count (has_client_id (some c)) (set_by (has_client_id (some t)) m xs) ≤ 1)
          (sym ((str_eq_iff d c).0 same))
          (count-set_by (has_client_id (some c)) m xs (own_client true same) one)
    | inr differ ↦
        subst (λ n. n ≤ 1)
          (sym (
            count-set_by_other (has_client_id (some d)) (has_client_id (some c)) m xs
              (own_client false differ) (λ y. other_client d c differ y.view.client_msg_id)))
          one
  ]
