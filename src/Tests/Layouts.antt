-- ===== src/Tests/Layouts.antt =====
-- The manager over two hash maps that iterate differently.
use mathlib.Core.List.{Perm}
use mathlib.Core.List.Perm
use mini_pgw.Prelude.{ℕ, ◌≡◌, refl, false, List, [], ◌∷◌, All}
use mini_pgw.Store.{StoredSession}
use mini_pgw.UnorderedMap.{Map, Layout}
use mini_pgw.InMemory.{in_memory}
use mini_pgw.InMemory.Laws.{in_memory_laws}
use mini_pgw.Manager.{Manager}
use mini_pgw.Manager.Accounts.Run.{Call, touches, checks, cleans, writes_out, run}
use mini_pgw.Manager.Independence.{answers, answers-same, SameView, is_offload}
use mini_pgw.Tests.Fixtures.{ticking, laws, alice, bob, fresh, cdr, nothing-IsValid}

abbrev swap_two : Map StoredSession → Map StoredSession
swap_two [] = []
swap_two (a ∷ []) = a ∷ []
swap_two (a ∷ b ∷ m) = b ∷ a ∷ m

swap_two-perm : (m : Map StoredSession) → Perm (swap_two m) m
swap_two-perm [] = Perm.refl []
swap_two-perm (a ∷ []) = Perm.refl (a ∷ [])
swap_two-perm (a ∷ b ∷ m) = Perm.swap a b m

abbrev swapping : Layout StoredSession
swapping = record { arrange = swap_two; arrange-perm = swap_two-perm }

abbrev other : Manager (in_memory swapping)
other = record { timeout = 5; store = []; cdr = cdr; reads = 1; stop = false }

abbrev calls : List Call
calls = touches alice ∷ touches bob ∷ checks alice ∷ cleans ∷ checks bob ∷ writes_out ∷ []

calls_calm : All (λ c. is_offload c ≡ false) calls
calls_calm = (refl, (refl, (refl, (refl, (refl, (refl, tt))))))

fresh-SameView : SameView laws (in_memory_laws swapping) ticking fresh other
unfolding in_memory_laws
fresh-SameView = record {
  left_valid = nothing-IsValid;
  right_valid = nothing-IsValid;
  timeout = refl;
  reads = refl;
  found = λ k. refl;
}

same_overdue :
    (now : List ℕ) (s : StoredSession)
    → laws.overdue now s ≡ (in_memory_laws swapping).overdue now s
unfolding in_memory_laws
same_overdue now s = refl

answers-same_example :
    (answers ticking fresh calls ≡ answers ticking other calls)
    × SameView laws
        (in_memory_laws swapping)
        ticking
        (run ticking fresh calls)
        (run ticking other calls)
answers-same_example =
    answers-same laws (in_memory_laws swapping) ticking same_overdue fresh other calls calls_calm
      fresh-SameView
