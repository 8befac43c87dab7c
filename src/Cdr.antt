-- ===== src/Cdr.antt =====
-- src/server/cdr_writer.cpp and include/pgw/cdr_writer.hpp: the queue of call records and the thread
-- that appends them to a file. The file is the bytes that the stream has put out since the writer
-- started; opening it can fail (`opened`), and then the thread ends at once.
pub mod Format
pub mod Drain
use mini_pgw.Prelude.{
  ℕ, zero, suc, Bool, true, false, not, ◌&&◌, ◌||◌, List, [], ◌∷◌, ◌++◌, Option, none, some,
}
use mini_pgw.Text.{Text, bytes}

pub record CdrRecord : Type 0 where
  pub timestamp : Text
  pub imsi : Text
  pub action : Text

pub record CdrWriter : Type 0 where
  pub path : Text
  pub queue : List CdrRecord
  pub stop : Bool
  pub opened : Bool
  pub file : Text

abbrev pub created : Text
created = bytes "created"

abbrev pub expired : Text
expired = bytes "expired"

-- The constructor: `none` is the `std::invalid_argument` for an empty path. Whether the thread can
-- open the file is the environment's answer.
unfoldable pub init : Text → Bool → Option CdrWriter
init [] opens = none
init (c ∷ path) opens =
    some (record { path = c ∷ path; queue = []; stop = false; opened = opens; file = [] })

unfoldable pub write : CdrWriter → CdrRecord → CdrWriter
write w rec = record w { queue = w.queue ++ rec ∷ [] }

-- The destructor sets the flag, then joins the thread.
unfoldable pub request_stop : CdrWriter → CdrWriter
request_stop w = record w { stop = true }

-- `timestamp,imsi,action\n`
unfoldable pub line : CdrRecord → Text
line rec = rec.timestamp ++ (b',' ∷ (rec.imsi ++ (b',' ∷ (rec.action ++ (10 ∷ [])))))

-- What one round of `writer_loop` did: slept on the condition variable, wrote a record, or ended.
pub data Round : Type 0 where
  waits : Round
  writes : CdrWriter → Round
  ends : Round

-- One round of the loop, over the queue and the stop flag that it finds under the lock.
unfoldable pub pop_round : CdrWriter → List CdrRecord → Bool → Round
pop_round w [] true = ends
pop_round w [] false = waits
pop_round w (rec ∷ rest) stop = writes (record w { queue = rest; file = w.file ++ line rec })

unfoldable pub writer_round : CdrWriter → Round
unfolding pop_round
writer_round w = elim w.opened [ true ↦ pop_round w w.queue w.stop | false ↦ ends ]

-- `writer_loop` on its own, until it sleeps or ends; `none` means that the fuel ran out.
unfoldable pub writer_loop : ℕ → CdrWriter → Option CdrWriter
unfolding writer_round
writer_loop zero w = none
writer_loop (suc fuel) w = elim (writer_round w) [
  | waits ↦ some w
  | ends ↦ some w
  | writes w' ↦ writer_loop fuel w'
]
