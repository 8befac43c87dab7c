-- ===== src/Tests/SessionJson.antt =====
-- A JSON library whose values are texts, integers and objects, and a session through it.
use mini_pgw.Prelude.{
  ℕ, ◌^◌, ◌%◌, ◌≡◌, refl, List, [], ◌∷◌, Option, none, some, arith, if◌then◌else◌, ℤ, pos, negsuc,
}
use mini_pgw.Text.{Text, bytes, text_eq}
use mini_pgw.Json.{Json, Found, found, missing, not_object, ok, required, convert}
use mini_pgw.Session.{Session, Writer, first, to_json, from_json}
use mini_pgw.Session.RoundTrip.{session-roundtrip, Truncates}
use mini_pgw.Tests.Fixtures.{alice}

mutual
  data Value : Type 0 where
    string : Text → Value
    integer : ℤ → Value
    object : Members → Value

  data Members : Type 0 where
    empty : Members
    member : Text → Value → Members → Members

abbrev find_member : Text → Members → Found Value
find_member key empty = missing
find_member key (member k v ms) = if text_eq k key then found v else find_member key ms

abbrev lookup : Value → Text → Found Value
lookup (object ms) key = find_member key ms
lookup (string s) key = not_object
lookup (integer z) key = not_object

abbrev get_string : Value → Option Text
get_string (string s) = some s
get_string (integer z) = none
get_string (object ms) = none

abbrev get_uint : ℕ → Value → Option ℕ
get_uint w (integer (pos n)) = some (n % 2 ^ w)
get_uint w (integer (negsuc n)) = none
get_uint w (string s) = none
get_uint w (object ms) = none

abbrev json : Json
json = record {
  Value = Value;
  parse = λ text. some (object empty);
  lookup = lookup;
  get_string = get_string;
  get_strings = λ v. none;
  get_uint = get_uint;
  get_int = get_uint 31;
}

abbrev members_of : List (Text × Value) → Members
members_of [] = empty
members_of ((k, v) ∷ ms) = member k v (members_of ms)

lookup-object :
    (ms : List (Text × Value)) (key : Text) → find_member key (members_of ms) ≡ first key ms
lookup-object [] key = refl
lookup-object ((k, v) ∷ ms) key = ground (arith, lookup-object ms key)

abbrev get_int64 : Value → Option ℤ
get_int64 (integer z) = some z
get_int64 (string s) = none
get_int64 (object ms) = none

abbrev writer : Writer json
writer = record {
  object = λ ms. object (members_of ms);
  of_string = string;
  of_int = integer;
  get_int64 = get_int64;
  lookup-object = lookup-object;
  get_string-of_string = λ s. refl;
  get_int64-of_int = λ z h. refl;
}

-- Three and a half seconds after the epoch, and as long before it.
abbrev session : Session
session = record {
  session_id = alice;
  user_ip = bytes "127.0.0.1";
  start_time = negsuc 3499999999;
  last_activity = pos 3500000000;
}

read_back :
    from_json json writer (to_json json writer session)
    ≡ ok (record session { start_time = negsuc 2999999999; last_activity = pos 3000000000 })
unfolding from_json to_json text_eq required convert
read_back = refl

session-roundtrip_example :
    (s : Session) × (from_json json writer (to_json json writer session) ≡ ok s)
    × (s.session_id ≡ alice)
    × (s.user_ip ≡ bytes "127.0.0.1")
    × Truncates (negsuc 3499999999) s.start_time
    × Truncates (pos 3500000000) s.last_activity
session-roundtrip_example = session-roundtrip json writer session (omega arith) (omega arith)
