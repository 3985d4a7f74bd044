-- ===== src/Trailer.antt =====
-- src/trailer.rs: the headers behind a response body. The writer and its readers share one cell that
-- is set once, and an event that wakes the readers.
pub mod Waiting
mod Examples
use isahc.Prelude.{ℕ, suc, Bool, true, false, Option, none, some}
use isahc.Http.{HeaderMap}

-- `Trailer`: what a reader sees of the shared cell.
abbrev pub Trailer : HeaderMap → Type 0
Trailer h = Option h.Map

-- `Trailer::empty`
abbrev pub empty_trailer : (h : HeaderMap) → Trailer h
empty_trailer h = some h.new

-- `Trailer::try_get`
abbrev pub try_get : (h : HeaderMap) → Trailer h → Option h.Map
try_get h trailer = trailer

-- `Trailer::is_ready`
abbrev pub is_ready : (h : HeaderMap) → Trailer h → Bool
is_ready h trailer = elim trailer [ none ↦ false | some headers ↦ true ]

-- `wakes` counts the calls of `notify`.
pub record TrailerWriter (h : HeaderMap) : Type 0 where
  pub shared : Trailer h
  pub headers : Option h.Map
  pub wakes : ℕ

unfoldable pub new_writer : (h : HeaderMap) → TrailerWriter h
new_writer h = record { shared = none; headers = some h.new; wakes = 0 }

-- `OnceLock::set`: the first value stays.
abbrev pub set_once {ℓ} : {A : Type ℓ} → Option A → A → Option A
set_once none value = some value
set_once (some old) value = some old

flush_from : {h : HeaderMap} → TrailerWriter h → Option h.Map → Bool × TrailerWriter h
flush_from writer none = (false, writer)
flush_from writer (some headers) = (
  true,
  record writer {
    shared = set_once writer.shared headers;
    headers = none;
    wakes = suc writer.wakes;
  },
)

-- `TrailerWriter::flush_impl`: was there something to flush, and the writer after the call.
unfoldable pub flush_impl : {h : HeaderMap} → TrailerWriter h → Bool × TrailerWriter h
unfolding flush_from
flush_impl writer = flush_from writer writer.headers

-- `TrailerWriter::flush`, which only logs a second flush.
abbrev pub flush : {h : HeaderMap} → TrailerWriter h → TrailerWriter h
flush writer = (flush_impl writer).1
