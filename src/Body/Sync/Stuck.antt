-- ===== src/Body/Sync/Stuck.antt =====
-- When `HttpClient::send` of src/client.rs comes to an end for a body of src/body/sync.rs.
use isahc.Prelude.{
  ℕ, zero, suc, ◌+◌, ◌≤◌, ◌<◌, ◌≡◌, refl, true, false, none, some, List, [], ◌∷◌, ◌++◌, length,
  length-append, map, ltb, arith,
}
use isahc.Prelude.Bytes.{Bytes}
use isahc.Body.Sync.{
  ReadCall, read_some, in_response, Sending, start_sending, Move, writer_moves, curl_reads,
  server_answers, write_chunk, write_turn, move, run_moves, is_returned,
}

-- No move is possible, and `send` has not returned.
pub record IsStuck (capacity : ℕ) (s : Sending) : Type 0 where
  pub waits : (m : Move) → move capacity m s ≡ none
  pub runs : is_returned s ≡ false

-- The calls of a reader that returns these chunks, none of which is empty.
abbrev pub chunk_calls : List (ℕ × Bytes) → List ReadCall
chunk_calls chunks = map (λ chunk. read_some (chunk.0 ∷ chunk.1)) chunks

-- After an answer, with chunks left to write.
abbrev answered : List (ℕ × Bytes) → List Bytes → Sending
answered chunks pipe = record {
  unread = chunk_calls chunks;
  pipe = pipe;
  held = in_response;
  taken = [];
  response = true;
  written = none;
}

answered-IsStuck :
    (capacity : ℕ) (chunks : List (ℕ × Bytes)) (pipe : List Bytes)
    → capacity ≤ length pipe
    → 0 < length chunks
    → IsStuck capacity (answered chunks pipe)
unfolding move write_turn write_chunk is_returned
answered-IsStuck capacity [] pipe full left = let f : ⊥ = omega (arith, left) in absurd f
answered-IsStuck capacity (chunk ∷ chunks) pipe full left = record { waits = waits; runs = refl }
  where
    waits : (m : Move) → move capacity m (answered (chunk ∷ chunks) pipe) ≡ none
    waits writer_moves = ground (arith, full)
    waits curl_reads = refl
    waits server_answers = refl

fill :
    (capacity room : ℕ) (chunks : List (ℕ × Bytes)) (pipe : List Bytes)
    → length pipe + room ≡ capacity
    → room < length chunks
    → (moves : List Move) × (s : Sending) × (run_moves capacity moves (answered chunks pipe)
        ≡ some s)
      × IsStuck capacity s
unfolding run_moves move write_turn write_chunk
fill capacity zero chunks pipe e left =
    ([], answered chunks pipe, refl, answered-IsStuck capacity chunks pipe (omega (arith, e)) left)
fill capacity (suc room) [] pipe e left = let f : ⊥ = omega (arith, left) in absurd f
fill capacity (suc room) (chunk ∷ chunks) pipe e left =
    let next = pipe ++ (chunk.0 ∷ chunk.1) ∷ [] in
    let rest =
      fill capacity room chunks next
        (omega (arith, e, length-append pipe ((chunk.0 ∷ chunk.1) ∷ []))) (omega (arith, left)) in
    let open_ : ltb (length pipe) capacity ≡ true = ground (arith, e) in
    (writer_moves ∷ rest.0, rest.1, rw (run_moves, open_) rest.2, rest.3)

-- A server that answers before it has read the body can stop `send` for good: the response takes the
-- reading end of the pipe with it, and when the body has more chunks than the pipe holds, the writer
-- waits for room that nobody makes, while `send` waits for the writer.
pub run_moves-IsStuck :
    (capacity : ℕ) (chunks : List (ℕ × Bytes))
    → capacity < length chunks
    → (moves : List Move) × (s : Sending) × (run_moves capacity moves
          (start_sending (chunk_calls chunks))
        ≡ some s)
      × IsStuck capacity s
unfolding run_moves move
run_moves-IsStuck capacity chunks more =
    let rest = fill capacity capacity chunks [] (omega arith) more in
    (server_answers ∷ rest.0, rest.1, rest.2, rest.3)
