-- ===== src/UnorderedMap.antt =====
-- `std::unordered_map<std::string, V>` as the in-memory store uses it: the entries in the order in which
-- the container iterates. That order is the library's affair: an insertion may rehash, and so puts all
-- entries in an order that `Layout.arrange` gives; an erasure and an assignment keep the order.
pub mod Laws
pub mod Order
pub mod Size
use mathlib.Core.List.{Perm}
use mini_pgw.Prelude.{Bool, List, [], ◌∷◌, Option, none, some, if◌then◌else◌, is_some}
use mini_pgw.Text.{Text, text_eq}

abbrev pub Map {ℓ} : Type ℓ → Type ℓ
Map V = List (Text × V)

pub record Layout {ℓ} (V : Type ℓ) : Type ℓ where
  pub arrange : Map V → Map V
  pub arrange-perm : (m : Map V) → Perm (arrange m) m

module _ {ℓ} {V : Type ℓ} where
  -- `find(k)`
  unfoldable pub find : Text → Map V → Option V
  find k [] = none
  find k ((j, v) ∷ m) = if text_eq j k then some v else find k m

  -- `it->second = v` at the entry of `k`
  unfoldable pub assign : Text → V → Map V → Map V
  assign k v [] = []
  assign k v ((j, w) ∷ m) = if text_eq j k then (j, v) ∷ m else (j, w) ∷ assign k v m

  -- `erase(k)`
  unfoldable pub erase : Text → Map V → Map V
  erase k [] = []
  erase k ((j, v) ∷ m) = if text_eq j k then m else (j, v) ∷ erase k m

  -- `map[k] = v`
  unfoldable pub insert_or_assign : Layout V → Text → V → Map V → Map V
  unfolding find assign
  insert_or_assign layout k v m =
      if is_some (find k m) then assign k v m else layout.arrange ((k, v) ∷ m)

  -- The loop `it = erase(it)` over all entries, at those whose value passes the test.
  unfoldable pub erase_if : (V → Bool) → Map V → Map V
  erase_if p [] = []
  erase_if p ((j, v) ∷ m) = let rest = erase_if p m in if p v then rest else (j, v) ∷ rest

  -- The loop `out.push_back(v)` over all entries, at those whose value passes the test.
  unfoldable pub values_if : (V → Bool) → Map V → List V
  values_if p [] = []
  values_if p ((j, v) ∷ m) = let rest = values_if p m in if p v then v ∷ rest else rest
