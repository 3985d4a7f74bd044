-- ===== src/Body/Sync/Examples.antt =====
-- Bodies on which the theorems about src/body/sync.rs are applied.
use isahc.Prelude.{ℕ, ◌≡◌, true, some, List, [], ◌∷◌, arith}
use isahc.Prelude.Bytes.{Bytes, codes}
use isahc.Prelude.Outcome.{ok}
use isahc.Body.Sync.{
  in_response, ReadCall, read_some, read_interrupted, Sending, start_sending, Move, writer_moves,
  curl_reads, server_answers, run_moves,
}
use isahc.Body.Sync.Stuck.{IsStuck, chunk_calls, run_moves-IsStuck}

abbrev three : List (ℕ × Bytes)
three = (1, []) ∷ (2, []) ∷ (3, []) ∷ []

run_moves-IsStuck_example :
    (moves : List Move) × (s : Sending) × (run_moves 2 moves (start_sending (chunk_calls three))
      ≡ some s)
    × IsStuck 2 s
run_moves-IsStuck_example = run_moves-IsStuck 2 three (omega arith)

-- A reader that is interrupted between two chunks.
abbrev calls : List ReadCall
calls = read_some (codes "a") ∷ read_interrupted ∷ read_some (codes "bc") ∷ []

abbrev moves : List Move
moves =
    writer_moves ∷ writer_moves ∷ curl_reads ∷ writer_moves ∷ writer_moves ∷ curl_reads
    ∷ server_answers ∷ []

abbrev sent : Sending
sent = record (start_sending calls) {
  unread = [];
  held = in_response;
  taken = codes "a" ∷ codes "bc" ∷ [];
  response = true;
  written = some (ok tt);
}
