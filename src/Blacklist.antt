-- ===== src/Blacklist.antt =====
-- src/server/blacklist.cpp and include/pgw/blacklist.hpp. An `unordered_set` is a list without
-- repetitions; nothing observes its order.
pub mod Laws
use mini_pgw.Prelude.{Bool, List, [], ◌∷◌, false, ◌||◌, if◌then◌else◌}
use mini_pgw.Text.{Text, text_eq}

pub record Blacklist : Type 0 where
  pub blocked : List Text

-- `find(imsi) != end()`
unfoldable pub contains : Text → List Text → Bool
contains imsi [] = false
contains imsi (k ∷ set) = text_eq k imsi || contains imsi set

unfoldable pub insert : Text → List Text → List Text
insert imsi set = if contains imsi set then set else imsi ∷ set

unfoldable pub insert_all : List Text → List Text → List Text
unfolding insert
insert_all [] set = set
insert_all (imsi ∷ imsi_list) set = insert_all imsi_list (insert imsi set)

-- The constructor.
unfoldable pub init : List Text → Blacklist
unfolding insert_all
init imsi_list = record { blocked = insert_all imsi_list [] }

unfoldable pub is_blocked : Blacklist → Text → Bool
is_blocked b imsi = contains imsi b.blocked
