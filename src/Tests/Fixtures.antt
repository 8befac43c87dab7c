-- ===== src/Tests/Fixtures.antt =====
-- A clock that ticks once a reading, a map that iterates newest first, and a manager with one session.
use mathlib.Core.List.Perm
use mini_pgw.Prelude.{◌≡◌, refl, true, false, List, [], ◌∷◌, arith}
use mini_pgw.Text.{Text, bytes, text_lt, text_eq}
use mini_pgw.Text.Order.{text_eq_iff}
use mini_pgw.Cdr.{CdrRecord, CdrWriter, created, write}
use mini_pgw.Cdr.Drain.{Logged, contents}
use mini_pgw.Store.{StoredSession, SessionStore, StoreLaws}
use mini_pgw.UnorderedMap.{Map, Layout, find, insert_or_assign}
use mini_pgw.InMemory.{in_memory, session_exists, save_session}
use mini_pgw.Manager.Accounts.Phase.{phase_from, note}
use mini_pgw.InMemory.Laws.{in_memory_laws, IsValid}
use mini_pgw.Manager.{Clock, Manager, init, touch_session}
use mini_pgw.Manager.Activity.{IsSteady}
use mini_pgw.Manager.Accounts.Steps.{Accounts, read-Accounts}
use mini_pgw.Manager.Accounts.Run.{init-Accounts}

abbrev pub ticking : Clock
ticking = record { seconds = λ i. i; stamp = λ n. n ∷ [] }

pub ticking-IsSteady : IsSteady ticking
unfolding text_lt
ticking-IsSteady = record { forward = λ i. omega arith; ordered = λ a b. ground arith }

abbrev pub newest_first : Layout StoredSession
newest_first = record { arrange = λ m. m; arrange-perm = Perm.refl }

abbrev pub store : SessionStore
store = in_memory newest_first

abbrev pub laws : StoreLaws store
laws = in_memory_laws newest_first

abbrev pub alice : Text
alice = bytes "001010123456789"

abbrev pub bob : Text
bob = bytes "001010000000001"

abbrev pub cdr : CdrWriter
cdr = record { path = bytes "cdr.log"; queue = []; stop = false; opened = true; file = [] }

pub cdr-Logged : Logged cdr []
unfolding contents
cdr-Logged = record { done = []; split = refl; kept = refl }

-- Sessions last 5 seconds; the store is empty.
abbrev pub fresh : Manager store
fresh = record { timeout = 5; store = []; cdr = cdr; reads = 1; stop = false }

pub nothing-IsValid : IsValid []
unfolding find
nothing-IsValid = record { distinct = tt; keyed = λ k s e. cc }

pub fresh-IsValid : laws.IsValid fresh.store
unfolding in_memory_laws
fresh-IsValid = nothing-IsValid

pub fresh-Accounts : Accounts laws fresh []
unfolding in_memory_laws init find
fresh-Accounts = init-Accounts laws ticking 5 [] nothing-IsValid (λ k. refl) cdr-Logged

abbrev pub session : StoredSession
session = record { imsi = alice; created_at = 1 ∷ []; expires_at = 7 ∷ [] }

abbrev pub one_session : Map StoredSession
one_session = (alice, session) ∷ []

pub one_session-IsValid : IsValid one_session
unfolding find
one_session-IsValid = record {
  distinct = (refl, tt);
  keyed = λ k s e. ground (arith, text_eq_iff alice k);
}

-- The manager after Alice's first datagram.
abbrev pub touched_once : Manager store
touched_once = record fresh {
  store = one_session;
  cdr = record cdr { queue = record { timestamp = 1 ∷ []; imsi = alice; action = created } ∷ [] };
  reads = 3;
}

abbrev pub opening : List CdrRecord
opening = record { timestamp = 1 ∷ []; imsi = alice; action = created } ∷ []

pub touched_once-Accounts : Accounts laws touched_once opening
unfolding in_memory_laws find phase_from note text_eq contents
touched_once-Accounts = record {
  valid = one_session-IsValid;
  logged = record { done = []; split = refl; kept = refl };
  phases = λ k. ground (arith, text_eq_iff alice k, text_eq_iff k alice);
}

-- Long after Alice's session has expired.
abbrev pub overdue : Manager store
overdue = record touched_once { reads = 20 }

pub overdue-Accounts : Accounts laws overdue opening
overdue-Accounts = read-Accounts laws ticking touched_once 20 touched_once-Accounts

-- The test itself: a touch of the fresh manager gives that state.
touch_first : touch_session ticking fresh alice ≡ (touched_once, true)
unfolding touch_session session_exists save_session insert_or_assign find write
touch_first = refl

touch_again : (touch_session ticking overdue alice).0.cdr ≡ touched_once.cdr
unfolding touch_session session_exists find text_eq
touch_again = refl
