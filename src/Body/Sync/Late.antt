-- ===== src/Body/Sync/Late.antt =====
-- `HttpClient::send` of src/client.rs with a server that reads the whole body before it answers.
use isahc.Prelude.{
  ℕ, ◌+◌, ◌*◌, ◌<◌, ◌≡◌, true, false, Option, none, some, List, [], ◌∷◌, ◌++◌, length,
  if◌then◌else◌,
}
use isahc.Prelude.Bytes.{Bytes}
use isahc.Prelude.Outcome.{Outcome}
use isahc.Error.{IoError}
use isahc.Body.Sync.{
  ReadCall, read_some, read_interrupted, read_failed, in_handler, Sending, Move, server_answers,
  move,
}

-- The moves with a server that answers only when it has the end of the body.
unfoldable pub late_move : ℕ → Move → Sending → Option Sending
late_move capacity server_answers s = elim s.written [
  | none ↦ none
  | some result ↦ elim s.pipe [ [] ↦ move capacity server_answers s | chunk ∷ more ↦ none ]
]
late_move capacity m s = move capacity m s

unfoldable pub run_late : ℕ → List Move → Sending → Option Sending
run_late capacity [] s = some s
run_late capacity (m ∷ more) s = elim (late_move capacity m s) [
  | none ↦ none
  | some next ↦ run_late capacity more next
]

-- What a reader returns up to its first end or failure.
abbrev pub content : List ReadCall → List Bytes
content [] = []
content (read_some [] ∷ more) = []
content (read_some (c ∷ cs) ∷ more) = (c ∷ cs) ∷ content more
content (read_interrupted ∷ more) = content more
content (read_failed e ∷ more) = []

pub record IsSending (calls : List ReadCall) (s : Sending) : Type 0 where
  pub whole : s.taken ++ (s.pipe ++ content s.unread) ≡ content calls
  pub waiting : s.response ≡ false → s.held ≡ in_handler
  pub ended : s.response ≡ true → (result : Outcome IoError (Unit {0})) × (s.written ≡ some result)
  pub emptied : s.response ≡ true → s.pipe ≡ []
  pub done : (result : Outcome IoError (Unit {0})) → s.written ≡ some result → content s.unread ≡ []

-- How many moves are left at most.
abbrev pub measure : Sending → ℕ
measure s =
    2 * length s.unread
    + length s.pipe
    + (if s.response then 0 else 1)
    + elim s.written [ none ↦ 1 | some result ↦ 0 ]

-- A move keeps the invariant, and leaves fewer moves.
pub record Moved (calls : List ReadCall) (s next : Sending) : Type 0 where
  pub kept : IsSending calls next
  pub fewer : measure next < measure s
