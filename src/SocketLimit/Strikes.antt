-- ===== src/SocketLimit/Strikes.antt =====
-- Three breaches within a minute disconnect, however old the socket's record is; and `forget`.
use Prim.Native.String
use syncstudies.Base.{
  ◌≡◌, refl, ◌∙◌, false, none, List, [], ◌∷◌, ◌++◌, arith, leb, length, keep, keep-append,
  keep-keep, append_assoc, append-nil,
}
use syncstudies.Base.Text.{String, str_eq, str_eq_refl}
use syncstudies.Base.Int.{ℤ, ◌≤ℤ◌, -ℤ_parts}
use text.Mathlib.TextEquality.{starts_with_iff}
use text.Mathlib.TextLemmas.{append_assoc as text_append_assoc}
use syncstudies.SocketLimit.{Limiter, is_recent, record_strike, forget, key_of, strike_limit}

-- What a later filter keeps, an earlier one has kept.
recent_earlier :
    (now later t : ℤ) → now ≤ℤ later → is_recent now t ≡ false → is_recent later t ≡ false
recent_earlier now later t h e = ground (arith, -ℤ_parts now t, -ℤ_parts later t)

-- A socket's record after breaches at these times, on top of what it held.
pub struck_at : Limiter → String → List ℤ → Limiter
struck_at l socket_id [] = l
struck_at l socket_id (t ∷ ts) = struck_at (record_strike l socket_id t).0 socket_id ts

abbrev pub AscendingTo : List ℤ → ℤ → Type 0
AscendingTo [] now = Unit {0}
AscendingTo (t ∷ ts) now = (t ≤ℤ now) × AscendingTo ts now

strikes_step :
    (l : Limiter) (socket_id : String) (t : ℤ)
    → (record_strike l socket_id t).0.strikes socket_id
      ≡ keep (is_recent t) (l.strikes socket_id) ++ t ∷ []
unfolding record_strike
strikes_step l socket_id t = rw (str_eq_refl socket_id)

-- The record has dropped only what no longer counts.
struck_at-recent :
    (l : Limiter) (socket_id : String) (ts : List ℤ) (now : ℤ)
    → AscendingTo ts now
    → keep (is_recent now) ((struck_at l socket_id ts).strikes socket_id)
      ≡ keep (is_recent now) (l.strikes socket_id ++ ts)
unfolding struck_at
struck_at-recent l socket_id [] now h = rw (append-nil (l.strikes socket_id))
struck_at-recent l socket_id (t ∷ ts) now (before, h) =
    struck_at-recent (record_strike l socket_id t).0 socket_id ts now h
    ∙ rw (
      strikes_step l socket_id t,
      append_assoc (keep (is_recent t) (l.strikes socket_id)) (t ∷ []) ts,
      keep-append (is_recent now) (keep (is_recent t) (l.strikes socket_id)) (t ∷ ts),
      keep-append (is_recent now) (l.strikes socket_id) (t ∷ ts),
      keep-keep (is_recent t) (is_recent now) (l.strikes socket_id)
          (λ s. recent_earlier t now s before),
    )

-- A socket that starts clean is struck out by a breach exactly when that one and its earlier
-- breaches of the last minute are three or more, however many there were before.
pub record_strike-third :
    (l : Limiter) (socket_id : String) (ts : List ℤ) (now : ℤ)
    → l.strikes socket_id ≡ []
    → AscendingTo ts now
    → (record_strike (struck_at l socket_id ts) socket_id now).1
      ≡ leb strike_limit (length (keep (is_recent now) ts ++ now ∷ []))
unfolding record_strike
record_strike-third l socket_id ts now clean h = rw (struck_at-recent l socket_id ts now h, clean)

-- `forget` leaves nothing of the socket, in whichever event's window, and does not touch the strikes
-- of other sockets or what Redis holds.
pub forget_lem :
    (l : Limiter) (socket_id other key_event : String)
    → str_eq socket_id other ≡ false
    → ((forget l socket_id).strikes socket_id ≡ [])
      × ((forget l socket_id).local_windows (key_of socket_id key_event) ≡ none)
      × ((forget l socket_id).strikes other ≡ l.strikes other)
      × ((forget l socket_id).counters ≡ l.counters)
unfolding forget
forget_lem l socket_id other key_event apart = (
  rw (str_eq_refl socket_id),
  rw (
      (starts_with_iff (key_of socket_id key_event) (String.◌++◌ socket_id ":")).1
        (key_event, text_append_assoc socket_id ":" key_event)),
  rw apart,
  refl,
)
