-- ===== src/Cdr/Drain.antt =====
-- The writer against a log: what was passed to `write`, in order.
use mini_pgw.Prelude.{
  ℕ, zero, suc, ◌<◌, ◌≡◌, refl, ap, sym, ◌∙◌, Bool, true, false, List, [], ◌∷◌, ◌++◌, some, arith,
  length, append_assoc, append-nil,
}
use mini_pgw.Text.{Text}
use mini_pgw.Cdr.{
  CdrRecord, CdrWriter, writes, ends, init, write, request_stop, line, pop_round, writer_round,
  writer_loop,
}

-- The bytes of a list of records.
unfoldable pub contents : List CdrRecord → Text
contents [] = []
contents (rec ∷ recs) = line rec ++ contents recs

-- `log` is what the file holds, the records `done`, followed by the queue.
pub record Logged (w : CdrWriter) (log : List CdrRecord) : Type 0 where
  pub done : List CdrRecord
  pub split : log ≡ done ++ w.queue
  pub kept : w.file ≡ contents done

contents-snoc :
    (recs : List CdrRecord) (rec : CdrRecord)
    → contents (recs ++ rec ∷ []) ≡ contents recs ++ line rec
unfolding contents
contents-snoc [] rec = append-nil (line rec)
contents-snoc (r ∷ recs) rec = rw (contents-snoc recs rec, append_assoc)

pub contents-append :
    (recs more : List CdrRecord) → contents (recs ++ more) ≡ contents recs ++ contents more
unfolding contents
contents-append [] more = refl
contents-append (r ∷ recs) more = rw (contents-append recs more, append_assoc)

-- What is in the file and what is still to come are together the lines of the log.
pub Logged-contents :
    {w : CdrWriter} {log : List CdrRecord}
    → Logged w log
    → w.file ++ contents w.queue ≡ contents log
Logged-contents {w} l =
    ap (λ t. t ++ contents w.queue) l.kept
    ∙ sym (contents-append l.done w.queue)
    ∙ ap contents (sym l.split)

pub init-Logged :
    (path : Text) (opens : Bool) {w : CdrWriter} → init path opens ≡ some w → Logged w []
unfolding init contents
init-Logged [] opens h = cc
init-Logged (c ∷ path) opens h = record { done = []; split = ground arith; kept = ground arith }

pub write-Logged :
    {w : CdrWriter} {log : List CdrRecord} (rec : CdrRecord)
    → Logged w log
    → Logged (write w rec) (log ++ rec ∷ [])
unfolding write
write-Logged {w} rec l = record { done = l.done; split = rw (l.split, append_assoc); kept = l.kept }

pub request_stop-Logged :
    {w : CdrWriter} {log : List CdrRecord} → Logged w log → Logged (request_stop w) log
unfolding request_stop
request_stop-Logged l = record { done = l.done; split = l.split; kept = l.kept }

pop_round-Logged :
    (w w' : CdrWriter) (queue log done : List CdrRecord) (stop : Bool)
    → pop_round w queue stop ≡ writes w'
    → log ≡ done ++ queue
    → w.file ≡ contents done
    → Logged w' log
unfolding pop_round
pop_round-Logged w w' [] log done true e s k = cc
pop_round-Logged w w' [] log done false e s k = cc
pop_round-Logged w w' (rec ∷ rest) log done stop e s k = record {
  done = done ++ rec ∷ [];
  split = ground (arith, append_assoc done (rec ∷ []) rest);
  kept = ground (arith, contents-snoc done rec);
}

-- A round in which the writer thread writes a record keeps the log: it is still what the file
-- holds followed by what is queued.
pub writer_round-Logged :
    {w w' : CdrWriter} {log : List CdrRecord}
    → writer_round w ≡ writes w'
    → Logged w log
    → Logged w' log
unfolding writer_round
writer_round-Logged {w} {w'} {log} e l =
    pop_round-Logged w w' w.queue log l.done w.stop (ground arith) l.split l.kept

pop_round-ends :
    (w : CdrWriter) (queue : List CdrRecord) (stop : Bool)
    → pop_round w queue stop ≡ ends
    → (queue ≡ []) × (stop ≡ true)
unfolding pop_round
pop_round-ends w [] true e = (refl, refl)
pop_round-ends w [] false e = cc
pop_round-ends w (rec ∷ rest) stop e = cc

-- If the thread of an open file ends in a round, then it was told to stop, and the file holds the
-- lines of the whole log.
pub writer_round-ends :
    {w : CdrWriter} {log : List CdrRecord}
    → w.opened ≡ true
    → Logged w log
    → writer_round w ≡ ends
    → (w.stop ≡ true) × (w.file ≡ contents log)
unfolding writer_round
writer_round-ends {w} {log} o l e =
    let (q, s) = pop_round-ends w w.queue w.stop (ground arith) in
    (s, l.kept ∙ ap contents (sym (l.split ∙ ap (◌++◌ l.done) q ∙ append-nil l.done)))

drain :
    (fuel : ℕ) (w : CdrWriter) (queue : List CdrRecord)
    → w.queue ≡ queue
    → w.opened ≡ true
    → length queue < fuel
    → writer_loop fuel w ≡ some (record w { queue = []; file = w.file ++ contents queue })
unfolding writer_loop contents
drain zero w queue q o h = absurd (omega arith)
drain (suc fuel) w [] q o h = ground (arith, append-nil w.file)
drain (suc fuel) w (rec ∷ rest) q o h = ground (
  arith,
  drain fuel (record w { queue = rest; file = w.file ++ line rec }) rest refl o (omega arith),
  append_assoc w.file (line rec) (contents rest),
)

-- For a writer whose file is open, with fuel above the length of the queue, the writer loop comes
-- to rest with the queue empty and the lines of all queued records appended to the file in order.
pub writer_loop-drains :
    (fuel : ℕ) (w : CdrWriter)
    → w.opened ≡ true
    → length w.queue < fuel
    → writer_loop fuel w ≡ some (record w { queue = []; file = w.file ++ contents w.queue })
writer_loop-drains fuel w o h = drain fuel w w.queue refl o h

-- If the file could not be opened, no round ever writes a record.
pub writer_loop_unopened :
    (fuel : ℕ) (w : CdrWriter) → w.opened ≡ false → writer_loop (suc fuel) w ≡ some w
unfolding writer_loop
writer_loop_unopened fuel w o = ground arith
