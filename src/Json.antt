-- ===== src/Json.antt =====
-- The JSON library (nlohmann::json) as a parameter, and the accesses by which both programs read a
-- field of their configuration: `at(key).get<T>()` and `value(key, default)`.
use mini_pgw.Prelude.{ℕ, Bool, true, false, List, Option, none, some}
use mini_pgw.Text.{Text}

-- What a lookup finds: a value, an object without the key, or no object at all.
pub data Found {ℓ} (A : Type ℓ) : Type ℓ where
  found : A → Found A
  missing : Found A
  not_object : Found A

-- `get_uint w` is `get` at an unsigned type of `w` bits, `get_int` at `int`, of which only the part
-- above 0 is of use here. A conversion fails on a value of another kind.
pub record Json : Type 1 where
  pub Value : Type 0
  pub parse : Text → Option Value
  pub lookup : Value → Text → Found Value
  pub get_string : Value → Option Text
  pub get_strings : Value → Option (List Text)
  pub get_uint : ℕ → Value → Option ℕ
  pub get_int : Value → Option ℕ

-- What ends the loading of a configuration; the library's exceptions carry the key.
pub data Error : Type 0 where
  cannot_open : Text → Error
  parse_error : Error
  type_error : Text → Error
  missing_field : Text → Error

pub data Result {ℓ} (A : Type ℓ) : Type ℓ where
  ok : A → Result A
  err : Error → Result A

infixl 5 ◌>>=◌
abbrev pub ◌>>=◌ {ℓ κ} : {A : Type ℓ} {B : Type κ} → Result A → (A → Result B) → Result B
ok a >>= f = f a
err e >>= f = err e

abbrev pub is_ok {ℓ} : {A : Type ℓ} → Result A → Bool
is_ok (ok a) = true
is_ok (err e) = false

module _ {V A : Type 0} (get : V → Option A) (key : Text) where
  -- `get<T>()` throws a type error.
  unfoldable pub convert : V → Result A
  convert v = elim (get v) [ none ↦ err (type_error key) | some a ↦ ok a ]

  -- `at(key).get<T>()`
  unfoldable pub required : Found V → Result A
  unfolding convert
  required (found v) = convert v
  required missing = err (missing_field key)
  required not_object = err (type_error key)

  -- `value(key, default)`
  unfoldable pub optional : A → Found V → Result A
  unfolding convert
  optional default (found v) = convert v
  optional default missing = ok default
  optional default not_object = err (type_error key)
