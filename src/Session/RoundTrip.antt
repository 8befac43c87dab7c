-- ===== src/Session/RoundTrip.antt =====
-- What a session is after it was written and read.
use mini_pgw.Prelude.{
  ℕ, suc, ◌+◌, ◌*◌, ◌/◌, ◌≤◌, ◌<◌, ◌≡◌, refl, [], ◌∷◌, arith, ℤ, pos, negsuc, nat_abs, pos_part,
  neg_part,
}
use mini_pgw.Text.{Text, bytes, text_eq}
use mini_pgw.Json.{Json, found, ok, required, convert}
use mini_pgw.Session.{
  Session, Writer, IsInt64, ticks, first, to_seconds, of_seconds, to_json, from_json,
}

-- A point in time and the whole second next to it on the way to the epoch.
pub record Truncates (a b : ℤ) : Type 0 where
  pub whole : (seconds : ℕ) × (nat_abs b ≡ seconds * ticks)
  pub above : pos_part b ≤ pos_part a
  pub below : neg_part b ≤ neg_part a
  pub close : nat_abs a < nat_abs b + ticks

to_seconds-IsInt64 : (t : ℤ) → IsInt64 t → IsInt64 (to_seconds t)
unfolding to_seconds
to_seconds-IsInt64 (pos n) h = omega arith
to_seconds-IsInt64 (negsuc n) h = ground arith

restored-Truncates : (t : ℤ) → Truncates t (of_seconds (to_seconds t))
unfolding to_seconds of_seconds
restored-Truncates (pos n) = record {
  whole = (n / ticks, refl);
  above = omega arith;
  below = omega arith;
  close = omega arith;
}
restored-Truncates (negsuc n) = record {
  whole = (suc n / ticks, ground arith);
  above = ground arith;
  below = ground arith;
  close = ground arith;
}

module _ (json : Json) (writer : Writer json) (s : Session) where
  open json use {Value, lookup, get_string}
  open writer use {of_string, of_int, get_int64}

  j : Value
  j = to_json json writer s

  read-string :
      (key v : Text)
      → lookup j key ≡ found (of_string v)
      → required get_string key (lookup j key) ≡ ok v
  unfolding required convert
  read-string key v e = rw e (ground (arith, writer.get_string-of_string v))

  read-seconds :
      (key : Text) (z : ℤ)
      → IsInt64 z
      → lookup j key ≡ found (of_int z)
      → required get_int64 key (lookup j key) ≡ ok z
  unfolding required convert
  read-seconds key z r e = rw e (ground (arith, writer.get_int64-of_int z r))

  member :
      (key : Text)
      → lookup j key
        ≡ first key (
            (bytes "session_id", of_string s.session_id)
            ∷ (bytes "user_ip", of_string s.user_ip)
            ∷ (bytes "start_time", of_int (to_seconds s.start_time))
            ∷ (bytes "last_activity", of_int (to_seconds s.last_activity))
            ∷ [])
  unfolding to_json j
  member key = writer.lookup-object _ key

  -- A session whose times fit an int64_t, written as JSON and read again, has the same identifier
  -- and address, and each of its times is the whole second that is nearest to it on the side of
  -- the epoch.
  pub session-roundtrip :
      IsInt64 s.start_time
      → IsInt64 s.last_activity
      → (s' : Session) × (from_json json writer (to_json json writer s) ≡ ok s')
        × (s'.session_id ≡ s.session_id)
        × (s'.user_ip ≡ s.user_ip)
        × Truncates s.start_time s'.start_time
        × Truncates s.last_activity s'.last_activity
  unfolding from_json j text_eq
  session-roundtrip r r' = (
    record {
      session_id = s.session_id;
      user_ip = s.user_ip;
      start_time = of_seconds (to_seconds s.start_time);
      last_activity = of_seconds (to_seconds s.last_activity);
    },
    ground (
      arith,
      read-string (bytes "session_id") s.session_id (member (bytes "session_id")),
      read-string (bytes "user_ip") s.user_ip (member (bytes "user_ip")),
      read-seconds (bytes "start_time") (to_seconds s.start_time)
          (to_seconds-IsInt64 s.start_time r) (member (bytes "start_time")),
      read-seconds (bytes "last_activity") (to_seconds s.last_activity)
          (to_seconds-IsInt64 s.last_activity r') (member (bytes "last_activity")),
    ),
    refl,
    refl,
    restored-Truncates s.start_time,
    restored-Truncates s.last_activity,
  )
