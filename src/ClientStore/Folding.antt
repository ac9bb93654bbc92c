-- ===== src/ClientStore/Folding.antt =====
-- What `mergeMessages` leaves in its two Maps, by the messages that it went through.
use mathlib.Core.Path.{subst}
use syncstudies.Base.{
  Bool, not, List, [], ◌∷◌, Option, none, some, if◌then◌else◌, keep, ◌≡◌, refl, sym, ap, ◌∙◌, arith,
  Bool-cases, inl, inr, if_either,
}
use syncstudies.Base.Searching.{
  set_by, find, All-set_by, keep-All, count-keep_le, find-keep, find-keep_other,
}
use syncstudies.Base.Text.{String, str_eq, str_eq_iff}
use syncstudies.ClientStore.Data.{MessageView, ChatMessage}
use syncstudies.ClientStore.Merge.{
  Filed, is_sent, has_id, has_client_id, same_text, as_sent, set_pending, delete_pending,
  file_existing, file_incoming, file_all, filed,
}
use syncstudies.ClientStore.Filing.{
  IsSent, IsUnsent, IsFiled, sent_as, pending_as, latest, find-by_id, count-by_id, find-pending,
  count-pending, other_client,
}

abbrev pub view_has : String → MessageView → Bool
view_has j v = str_eq v.id j

abbrev pub view_client : String → MessageView → Bool
view_client c v = same_text v.client_msg_id (some c)

set_pending-IsFiled :
    (f : Filed) (m : ChatMessage) (own : Option String)
    → m.view.client_msg_id ≡ own
    → IsFiled f
    → IsUnsent m
    → IsFiled (set_pending f own m)
set_pending-IsFiled f m none e ok unsent = ok
set_pending-IsFiled f m (some d) e ok unsent = record {
  all_sent = ok.all_sent;
  all_unsent = All-set_by IsUnsent (has_client_id (some d)) m f.pending unsent ok.all_unsent;
  one_id = ok.one_id;
  one_client = λ c. count-pending c d m f.pending e (ok.one_client c);
}

file_existing-IsFiled : (f : Filed) (m : ChatMessage) → IsFiled f → IsFiled (file_existing f m)
file_existing-IsFiled f m ok =
    if_either IsFiled (is_sent m.delivery) _ _
      (λ yes_sent. record {
        all_sent = All-set_by IsSent (has_id m.view.id) m f.by_id yes_sent ok.all_sent;
        all_unsent = ok.all_unsent;
        one_id = λ j. count-by_id j m f.by_id ok.one_id;
        one_client = ok.one_client;
      })
      (λ unsent. set_pending-IsFiled f m m.view.client_msg_id refl ok unsent)

delete_pending-IsFiled :
    (f : Filed) (own : Option String) → IsFiled f → IsFiled (delete_pending f own)
delete_pending-IsFiled f none ok = ok
delete_pending-IsFiled f (some d) ok = record {
  all_sent = ok.all_sent;
  all_unsent = keep-All IsUnsent (λ m. not (has_client_id (some d) m)) f.pending ok.all_unsent;
  one_id = ok.one_id;
  one_client = λ c. omega (
    arith,
    count-keep_le (has_client_id (some c)) (λ m. not (has_client_id (some d) m)) f.pending,
    ok.one_client c,
  );
}

set_view-IsFiled :
    (g : Filed) (v : MessageView)
    → IsFiled g
    → IsFiled (record g { by_id = set_by (has_id v.id) (as_sent v) g.by_id })
set_view-IsFiled g v ok = record {
  all_sent = All-set_by IsSent (has_id v.id) (as_sent v) g.by_id refl ok.all_sent;
  all_unsent = ok.all_unsent;
  one_id = λ j. count-by_id j (as_sent v) g.by_id ok.one_id;
  one_client = ok.one_client;
}

file_incoming-IsFiled : (f : Filed) (v : MessageView) → IsFiled f → IsFiled (file_incoming f v)
file_incoming-IsFiled f v ok =
    set_view-IsFiled (delete_pending f v.client_msg_id) v
      (delete_pending-IsFiled f v.client_msg_id ok)

file_all-IsFiled {ℓ} :
    {A : Type ℓ} (step : Filed → A → Filed)
    → ((f : Filed) (x : A) → IsFiled f → IsFiled (step f x))
    → (f : Filed) (xs : List A) → IsFiled f
    → IsFiled (file_all step f xs)
file_all-IsFiled step keeps f [] ok = ok
file_all-IsFiled step keeps f (x ∷ xs) ok = file_all-IsFiled step keeps (step f x) xs (keeps f x ok)

pub filed-IsFiled :
    (existing : List ChatMessage) (incoming : List MessageView) → IsFiled (filed existing incoming)
unfolding filed
filed-IsFiled existing incoming = file_all-IsFiled file_incoming file_incoming-IsFiled _ incoming (
    file_all-IsFiled file_existing file_existing-IsFiled _ existing (record {
      all_sent = tt;
      all_unsent = tt;
      one_id = λ j. omega arith;
      one_client = λ c. omega arith;
    }))

find-set_pending :
    (c : String) (f : Filed) (m : ChatMessage) (own : Option String)
    → m.view.client_msg_id ≡ own
    → find (has_client_id (some c)) (set_pending f own m).pending
      ≡ (if same_text own (some c) then some m else find (has_client_id (some c)) f.pending)
find-set_pending c f m none e = refl
find-set_pending c f m (some d) e = find-pending c d m f.pending e

by_id-set_pending :
    (f : Filed) (own : Option String) (m : ChatMessage) → (set_pending f own m).by_id ≡ f.by_id
by_id-set_pending f none m = refl
by_id-set_pending f (some d) m = refl

by_id-delete_pending : (f : Filed) (own : Option String) → (delete_pending f own).by_id ≡ f.by_id
by_id-delete_pending f none = refl
by_id-delete_pending f (some d) = refl

find-delete_pending :
    (c : String) (f : Filed) (own : Option String)
    → find (has_client_id (some c)) (delete_pending f own).pending
      ≡ (if same_text own (some c) then none else find (has_client_id (some c)) f.pending)
find-delete_pending c f none = refl
find-delete_pending c f (some d) = elim (Bool-cases (str_eq d c)) [
  | inl same ↦ rw same (
      subst
        (λ t.
          find (has_client_id (some c)) (keep (λ m. not (has_client_id (some t) m)) f.pending)
          ≡ none)
        (sym ((str_eq_iff d c).0 same)) (find-keep (has_client_id (some c)) f.pending))
  | inr differ ↦ rw differ (
      find-keep_other (has_client_id (some d)) (has_client_id (some c)) f.pending
        (λ y. other_client d c differ y.view.client_msg_id))
]

-- A search after all steps, when a step `x` with `p x` makes it `g x` and another step nothing.
file_all_look {ℓ} :
    {A : Type ℓ} (look : Filed → Option ChatMessage) (step : Filed → A → Filed) (p : A → Bool)
    (g : A → Option ChatMessage)
    → ((f : Filed) (x : A) → look (step f x) ≡ (if p x then g x else look f))
    → (f : Filed) (xs : List A)
    → look (file_all step f xs) ≡ elim (latest p xs) [ none ↦ look f | some x ↦ g x ]
file_all_look look step p g h f [] = refl
file_all_look look step p g h f (x ∷ xs) =
    file_all_look look step p g h (step f x) xs ∙ ground (arith, h f x)

by_id-file_existing :
    (j : String) (f : Filed) (m : ChatMessage)
    → find (has_id j) (file_existing f m).by_id
      ≡ (if sent_as j m then some m else find (has_id j) f.by_id)
by_id-file_existing j f m = elim (Bool-cases (is_sent m.delivery)) [
  | inl yes_sent ↦ rw yes_sent (find-by_id j m f.by_id)
  | inr unsent ↦ rw unsent (ap (find (has_id j)) (by_id-set_pending f m.view.client_msg_id m))
]

pending-file_existing :
    (c : String) (f : Filed) (m : ChatMessage)
    → find (has_client_id (some c)) (file_existing f m).pending
      ≡ (if pending_as c m then some m else find (has_client_id (some c)) f.pending)
pending-file_existing c f m = elim (Bool-cases (is_sent m.delivery)) [
  | inl yes_sent ↦ rw yes_sent
  | inr unsent ↦ rw unsent (find-set_pending c f m m.view.client_msg_id refl)
]

by_id-file_incoming :
    (j : String) (f : Filed) (v : MessageView)
    → find (has_id j) (file_incoming f v).by_id
      ≡ (if view_has j v then some (as_sent v) else find (has_id j) f.by_id)
by_id-file_incoming j f v =
    find-by_id j (as_sent v) (delete_pending f v.client_msg_id).by_id
    ∙ ap (λ xs. if view_has j v then some (as_sent v) else find (has_id j) xs)
        (by_id-delete_pending f v.client_msg_id)

-- The confirmed messages after the fold: the last that came in, or else the last there was.
pub by_id-filed :
    (j : String) (existing : List ChatMessage) (incoming : List MessageView)
    → find (has_id j) (filed existing incoming).by_id ≡ elim (latest (view_has j) incoming) [
      | none ↦ latest (sent_as j) existing
      | some v ↦ some (as_sent v)
    ]
unfolding filed
by_id-filed j existing incoming =
    let empty : Filed = record { by_id = []; pending = [] } in
    file_all_look (λ f. find (has_id j) f.by_id) file_incoming (view_has j) (λ v. some (as_sent v))
      (by_id-file_incoming j) (file_all file_existing empty existing) incoming
    ∙ ground (
      arith,
      file_all_look (λ f. find (has_id j) f.by_id) file_existing (sent_as j) (λ m. some m)
          (by_id-file_existing j) empty existing,
    )

-- The unconfirmed messages after the fold: none that came in.
pub pending-filed :
    (c : String) (existing : List ChatMessage) (incoming : List MessageView)
    → find (has_client_id (some c)) (filed existing incoming).pending
      ≡ elim (latest (view_client c) incoming) [
        | none ↦ latest (pending_as c) existing
        | some v ↦ none
      ]
unfolding filed
pending-filed c existing incoming =
    let empty : Filed = record { by_id = []; pending = [] } in
    file_all_look (λ f. find (has_client_id (some c)) f.pending) file_incoming (view_client c)
      (λ v. none) (λ f v. find-delete_pending c f v.client_msg_id)
      (file_all file_existing empty existing) incoming
    ∙ ground (
      arith,
      file_all_look (λ f. find (has_client_id (some c)) f.pending) file_existing (pending_as c)
          (λ m. some m) (pending-file_existing c) empty existing,
    )
