-- ===== src/Process/Accounts.antt =====
-- The call records along a run of the process, over a store that keeps its laws, and over a SQLite
-- database on which no statement fails.
use mini_pgw.Prelude.{ℕ, ◌≡◌, refl, List, [], ◌∷◌, ◌++◌, some, arith}
use mini_pgw.Text.{c_string}
use mini_pgw.Bcd.{decode, push_digit}
use mini_pgw.Cdr.{CdrRecord}
use mini_pgw.Blacklist.{Blacklist}
use mini_pgw.Store.{SessionStore, StoreLaws}
use mini_pgw.Sqlite.{Sqlite, sqlite}
use mini_pgw.Sqlite.Documented.{Documented, Reliable}
use mini_pgw.Sqlite.Accounts.{
  TableAccounts, touch-TableAccounts, read-TableAccounts, offload-TableAccounts,
  cleaner-TableAccounts, writer-TableAccounts,
}
use mini_pgw.Manager.{Clock}
use mini_pgw.Manager.Books.{Books}
use mini_pgw.Manager.Accounts.Steps.{
  Accounts, Extends, touch_session-Accounts, read-Accounts, offload_rate-Accounts,
  cleaner_pass-Accounts, writer-Accounts,
}
use mini_pgw.Process.{Process, Move, run}
use mini_pgw.Process.Books.{process-Keeps}

module _ {S : SessionStore} (L : StoreLaws S) (clock : Clock) (blacklist : Blacklist) where
  abbrev store_books : Books S clock
  store_books = record {
    Keeps = Accounts L;
    touch = λ m packet a. touch_session-Accounts L clock m (decode packet) a;
    read = λ m i a. read-Accounts L clock m i a;
    offload = λ left m a. offload_rate-Accounts L clock left m a;
    clean = λ m a. cleaner_pass-Accounts L clock m a;
    pass_on = λ m w a e. writer-Accounts L clock m w a e;
  }

  -- From a process whose log accounts for its store, every run in which requests and passes of the
  -- cleaner go through at once, and which does not run out of fuel, leads to a process whose log
  -- extends the old one and accounts for the store.
  pub process-Accounts :
      (fuel : ℕ) (p q : Process S) (moves : List Move) {log : List CdrRecord}
      → run clock blacklist fuel p moves ≡ some q
      → Accounts L p.node.sessions log
      → Extends L clock log q.node.sessions
  process-Accounts fuel p q moves h a = process-Keeps clock store_books blacklist fuel p q moves h a

-- The characters of a decoded IMSI are digits or above.
decode-c_string : (packet : List ℕ) → c_string (decode packet) ≡ decode packet
unfolding c_string decode push_digit
decode-c_string [] = refl
decode-c_string (b ∷ packet) = ground (arith, decode-c_string packet)

module _ (lib : Sqlite) (doc : Documented lib) (sure : Reliable lib) (clock : Clock)
    (blacklist : Blacklist) where
  abbrev table_books : Books (sqlite lib) clock
  table_books = record {
    Keeps = TableAccounts lib doc sure;
    touch = λ m packet a.
        touch-TableAccounts lib doc sure clock m (decode packet) (decode-c_string packet) a;
    read = λ m i a. read-TableAccounts lib doc sure clock m i a;
    offload = λ left m a. offload-TableAccounts lib doc sure clock left m a;
    clean = λ m a. cleaner-TableAccounts lib doc sure clock m a;
    pass_on = λ m w a e. writer-TableAccounts lib doc sure clock m w a e;
  }

  pub sqlite_process-Accounts :
      (fuel : ℕ) (p q : Process (sqlite lib)) (moves : List Move) {log : List CdrRecord}
      → run clock blacklist fuel p moves ≡ some q
      → TableAccounts lib doc sure p.node.sessions log
      → (new : List CdrRecord) × TableAccounts lib doc sure q.node.sessions (log ++ new)
  sqlite_process-Accounts fuel p q moves h a =
      process-Keeps clock table_books blacklist fuel p q moves h a
