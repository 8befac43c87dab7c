-- ===== src/ClientMain/Arguments.antt =====
-- What the command line changes.
use mini_pgw.Prelude.{ℕ, zero, suc, ◌≤◌, ◌≡◌, refl, ap, List, Option, arith, length, All}
use mini_pgw.Text.{Text}
use mini_pgw.Bcd.RoundTrip.{IsDigit}
use mini_pgw.Json.{Json}
use mini_pgw.Client.Dialogue.{generate_imsi-IsDigit}
use mini_pgw.ClientMain.{Digits, main, run_multiple_clients}

-- The exit code of the client program and the IMSI of the clients that it starts are the same for
-- any two command lines and any two draws of its own IMSI, if the files and the draws of the
-- clients are the same.
pub main_same_clients :
    (json : Json) (files : Text → Option Text) (args args' : List Text) (own own' : Digits)
    (draw : ℕ → Digits)
    → ((main json files args own draw).clients ≡ (main json files args' own' draw).clients)
      × ((main json files args own draw).code ≡ (main json files args' own' draw).code)
unfolding main
main_same_clients json files args args' own own' draw = ground arith

abbrev pub AreDigits : Digits → Type 0
AreDigits d = (d.first ≤ 9) × (d.second ≤ 9) × (d.third ≤ 9)

-- If every draw is of digits, the IMSI of the clients are as many as asked for, each of fifteen
-- digits.
pub run_multiple_clients-IsDigit :
    (n : ℕ) (draw : ℕ → Digits)
    → ((i : ℕ) → AreDigits (draw i))
    → (length (run_multiple_clients n draw) ≡ n)
      × All (λ imsi. All IsDigit imsi × (length imsi ≡ 15)) (run_multiple_clients n draw)
unfolding run_multiple_clients
run_multiple_clients-IsDigit zero draw h = (refl, tt)
run_multiple_clients-IsDigit (suc n) draw h =
    let (len, all) = run_multiple_clients-IsDigit n (λ i. draw (suc i)) (λ i. h (suc i)) in
    let d = draw 0 in
    (ap suc len, (generate_imsi-IsDigit d.first d.second d.third (h 0).0 (h 0).1 (h 0).2, all))
