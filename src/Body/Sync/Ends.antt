-- ===== src/Body/Sync/Ends.antt =====
-- How `HttpClient::send` of src/client.rs ends with a server that reads the whole body.
use isahc.Prelude.{ℕ, ◌≡◌, ◌⊎◌, Bool, true, false, some, List}
use isahc.Prelude.Bytes.{Bytes}
use isahc.Prelude.Outcome.{Outcome, ok}
use isahc.Error.{IoError}
use isahc.Body.Sync.{ReadCall, Sending, Move}
use isahc.Body.Sync.Late.{late_move, content}

-- Some move is possible.
abbrev pub CanMove : ℕ → Sending → Type 0
CanMove capacity s = (m : Move) × (next : Sending) × (late_move capacity m s ≡ some next)

abbrev pub is_ok : Outcome IoError (Unit {0}) → Bool
is_ok (ok done) = true
is_ok _ = false

-- How `send` has returned: the writer has failed, or curl has read what the reader returned.
abbrev pub Sent : List ReadCall → Sending → Type 0
Sent calls s =
    ((result : Outcome IoError (Unit {0})) × (s.written ≡ some result) × (is_ok result ≡ false))
    ⊎ ((s.response ≡ true) × (s.taken ≡ content calls))
