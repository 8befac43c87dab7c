-- ===== src/Blacklist/Laws.antt =====
-- The blacklist and the list of the configuration.
use mathlib.Core.List.{Mem, not-mem-nil, mem-cons_self, mem-cons_of_mem, mem-cons}
use mathlib.Core.Logic.Or
use native.Mathlib.Omega.{arith}
use mini_pgw.Prelude.{◌≡◌, ◌↔◌, refl, ◌∙◌, true, ◌||◌, List, [], ◌∷◌, Bool-cases, inl, inr}
use mini_pgw.Text.{Text, text_eq}
use mini_pgw.Text.Order.{text_eq_iff}
use mini_pgw.Blacklist.{contains, insert, insert_all, init, is_blocked}

contains-insert :
    (k imsi : Text) (set : List Text)
    → contains k (insert imsi set) ≡ text_eq imsi k || contains k set
unfolding insert contains
contains-insert k imsi set = ground (arith, text_eq_iff imsi k)

contains-insert_all :
    (k : Text) (imsi_list set : List Text)
    → contains k (insert_all imsi_list set) ≡ contains k imsi_list || contains k set
unfolding insert_all contains
contains-insert_all k [] set = refl
contains-insert_all k (imsi ∷ imsi_list) set =
    contains-insert_all k imsi_list (insert imsi set) ∙ ground (arith, contains-insert k imsi set)

contains-Mem : (k : Text) (l : List Text) → (contains k l ≡ true) ↔ Mem k l
unfolding contains
contains-Mem k [] = (λ h. cc, λ m. absurd (not-mem-nil m))
contains-Mem k (x ∷ l) = (
  λ h. elim (Bool-cases (text_eq x k)) [
    | inl here ↦ rw ((text_eq_iff x k).0 here) mem-cons_self
    | inr other ↦ mem-cons_of_mem x ((contains-Mem k l).0 (ground arith))
  ],
  λ m.
      Or.elim (hlevel) (mem-cons.0 m) (λ e. ground (arith, text_eq_iff x k, e))
        (λ rest. ground (arith, (contains-Mem k l).1 rest)),
)

-- An IMSI is blocked by the blacklist made from a configured list exactly when the list has it.
pub is_blocked-init :
    (imsi_list : List Text) (k : Text) → (is_blocked (init imsi_list) k ≡ true) ↔ Mem k imsi_list
unfolding is_blocked init
is_blocked-init imsi_list k =
    let same : contains k (insert_all imsi_list []) ≡ contains k imsi_list =
      contains-insert_all k imsi_list [] ∙ (unfold contains in ground arith) in
    rw same (contains-Mem k imsi_list)
