-- ===== src/Session.antt =====
-- include/pgw/session.hpp: a session as JSON, over the JSON library as a parameter. A point in time is its
-- distance from the epoch in nanoseconds, the unit of `std::chrono::system_clock` in libstdc++, which keeps
-- it in an `int64_t`. A failed read leaves no session: that the code has assigned some fields by then is
-- left out, and so is the overflow of a count of seconds that has no `int64_t` of nanoseconds.
pub mod RoundTrip
use mini_pgw.Prelude.{
  ℕ, suc, ◌-◌, ◌*◌, ◌/◌, ◌^◌, ◌<◌, ◌≡◌, List, [], ◌∷◌, Option, some, if◌then◌else◌, ℤ, pos, negsuc,
  nat_abs, neg,
}
use mini_pgw.Text.{Text, bytes, text_eq}
use mini_pgw.Json.{Json, Found, found, missing, Error, Result, ok, err, ◌>>=◌, required}

-- The value of the first member of that name.
abbrev pub first {ℓ} : {A : Type ℓ} → Text → List (Text × A) → Found A
first key [] = missing
first key ((k, v) ∷ members) = if text_eq k key then found v else first key members

abbrev pub IsInt64 : ℤ → Type 0
IsInt64 z = nat_abs z < 2 ^ 63

-- What the library does besides: building values, and `get<int64_t>()`.
pub record Writer (json : Json) : Type 0 where
  pub object : List (Text × json.Value) → json.Value
  pub of_string : Text → json.Value
  pub of_int : ℤ → json.Value
  pub get_int64 : json.Value → Option ℤ
  pub lookup-object :
      (members : List (Text × json.Value)) (key : Text)
      → json.lookup (object members) key ≡ first key members
  pub get_string-of_string : (s : Text) → json.get_string (of_string s) ≡ some s
  pub get_int64-of_int : (z : ℤ) → IsInt64 z → get_int64 (of_int z) ≡ some z

pub record Session : Type 0 where
  pub session_id : Text
  pub user_ip : Text
  pub start_time : ℤ
  pub last_activity : ℤ

abbrev pub ticks : ℕ
ticks = 1000000000

-- `duration_cast<seconds>`, which drops the fraction.
unfoldable pub to_seconds : ℤ → ℤ
to_seconds (pos n) = pos (n / ticks)
to_seconds (negsuc n) = neg (suc n / ticks)

-- `epoch_start + seconds(s)`
unfoldable pub of_seconds : ℤ → ℤ
of_seconds (pos n) = pos (n * ticks)
of_seconds (negsuc n) = neg (suc n * ticks)

module _ (json : Json) (writer : Writer json) where
  open json use {Value, lookup, get_string}
  open writer use {object, of_string, of_int, get_int64}

  unfoldable pub to_json : Session → Value
  unfolding to_seconds
  to_json s = object (
      (bytes "session_id", of_string s.session_id)
      ∷ (bytes "user_ip", of_string s.user_ip)
      ∷ (bytes "start_time", of_int (to_seconds s.start_time))
      ∷ (bytes "last_activity", of_int (to_seconds s.last_activity))
      ∷ [])

  unfoldable pub from_json : Value → Result Session
  unfolding of_seconds
  from_json j = do
    session_id ← required get_string (bytes "session_id") (lookup j (bytes "session_id"))
    user_ip ← required get_string (bytes "user_ip") (lookup j (bytes "user_ip"))
    start_time ← required get_int64 (bytes "start_time") (lookup j (bytes "start_time"))
    last_activity ← required get_int64 (bytes "last_activity") (lookup j (bytes "last_activity"))
    ok (record {
      session_id = session_id;
      user_ip = user_ip;
      start_time = of_seconds start_time;
      last_activity = of_seconds last_activity;
    })
