-- ===== src/RoomState/RedisHash.antt =====
-- A Redis hash, and the number texts of the JavaScript engine.
use syncstudies.Base.{◌≡◌, ◌≢◌, Option, none, some, if◌then◌else◌}
use syncstudies.Base.Text.{String, str_eq}
use syncstudies.Base.Int.{ℤ}

-- A hash as the function that HGET computes. A key that does not exist is the empty hash.
abbrev pub Hash : Type 0
Hash = String → Option String

abbrev pub empty_hash : Hash
empty_hash _ = none

abbrev pub hset : Hash → String → String → Hash
hset h field value q = if str_eq field q then some value else h q

-- `String(n)` and `Number(s)`, `none` where the result is not finite. The source relies on a
-- number's text to be read back as that number, and on no number having the empty text.
pub record JsNumber : Type 0 where
  pub show : ℤ → String
  pub read : String → Option ℤ
  pub read-show : (n : ℤ) → read (show n) ≡ some n
  pub show-ne-empty : (n : ℤ) → show n ≢ ""
