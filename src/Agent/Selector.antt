-- ===== src/Agent/Selector.antt =====
-- src/agent/selector.rs: the selector that turns the oneshot registrations of a poller into
-- persistent ones. The poller (the crate polling) is a parameter; the target is a unix.
pub mod Steps
pub mod Armed
pub mod Loops
pub mod Kept
pub mod Rounds
pub mod Requests
pub mod History
pub mod Examples
use isahc.Prelude.{
  ℕ, suc, Bool, true, false, not, ◌&&◌, ◌||◌, Option, none, some, List, [], ◌∷◌, any, filter, ◌==◌,
  if◌then◌else◌, ◌+◌, ◌%◌, ◌^◌,
}
use isahc.Prelude.Outcome.{Outcome, ok, err}

pub data FaultKind : Type 0 where
  not_found invalid_input permission_denied interrupted_call other_fault : FaultKind

-- The `io::Error` of a poller.
pub record Fault : Type 0 where
  pub kind : FaultKind
  pub raw_os_error : Option ℕ

abbrev pub ebadf : ℕ
ebadf = 9

unfoldable pub is_bad_socket_error : Fault → Bool
is_bad_socket_error fault = elim fault.kind [
  | not_found ↦ true
  | invalid_input ↦ true
  | _ ↦ elim fault.raw_os_error [ none ↦ false | some code ↦ code == ebadf ]
]

-- Readable and writable.
abbrev pub Interest : Type 0
Interest = Bool × Bool

abbrev pub SocketEvent : Type 0
SocketEvent = ℕ × Interest

-- What the poller does to its state, and the fault of a call that fails. `armed` is what it watches a
-- socket for.
pub record Poller : Type 1 where
  pub State : Type 0
  pub add : ℕ → Interest → State → Option Fault × State
  pub modify : ℕ → Interest → State → Option Fault × State
  pub delete : ℕ → State → Option Fault × State
  pub wait : ℕ → State → Option Fault × List SocketEvent × State
  pub armed : ℕ → State → Option Interest

pub record Registration : Type 0 where
  pub interest : Interest
  pub tick : ℕ

abbrev pub has : ℕ → List ℕ → Bool
has k sockets = any (λ s. s == k) sockets

-- `HashSet::insert`
abbrev pub insert_socket : ℕ → List ℕ → List ℕ
insert_socket k sockets = if has k sockets then sockets else k ∷ sockets

abbrev pub has_event : ℕ → List SocketEvent → Bool
has_event k events = any (λ e. e.0 == k) events

-- The maps of the sockets, keyed by their numbers.
abbrev pub Sockets : Type 0
Sockets = ℕ → Option Registration

abbrev pub put : ℕ → Option Registration → Sockets → Sockets
put socket value sockets = λ k. if socket == k then value else sockets k

pub record Selector (p : Poller) : Type 0 where
  pub poller : p.State
  pub sockets : Sockets
  pub bad_sockets : List ℕ
  pub events : List SocketEvent
  pub tick : ℕ

module _ (p : Poller) where
  retried : (p.State → Option Fault × p.State) → Option Fault × p.State → Option Fault × p.State
  retried again (none, state) = (none, state)
  retried again (some fault, state) = again state

  unfoldable pub poller_add : ℕ → Interest → p.State → Option Fault × p.State
  unfolding retried
  poller_add socket interest state =
      retried (p.modify socket interest) (p.add socket interest state)

  unfoldable pub poller_modify : ℕ → Interest → p.State → Option Fault × p.State
  unfolding retried
  poller_modify socket interest state =
      retried (p.add socket interest) (p.modify socket interest state)

  -- `Selector::new`, of a new poller.
  unfoldable pub new_selector : p.State → Selector p
  new_selector state = record {
    poller = state;
    sockets = λ k. none;
    bad_sockets = [];
    events = [];
    tick = 0;
  }

  register_at : Option Registration → ℕ → Interest → p.State → Option Fault × p.State
  register_at none socket interest state = poller_add socket interest state
  register_at (some previous) socket interest state = poller_modify socket interest state

  registered : ℕ → Option Fault → Selector p → Option Fault × Selector p
  registered socket none s = (none, s)
  registered socket (some fault) s =
      if is_bad_socket_error fault
      then (none, record s { bad_sockets = insert_socket socket s.bad_sockets })
      else (some fault, s)

  -- `Selector::register`
  unfoldable pub register : ℕ → Interest → Selector p → Option Fault × Selector p
  unfolding register_at registered
  register socket interest s =
      let (result, state) = register_at (s.sockets socket) socket interest s.poller in
      registered socket result (record s {
        poller = state;
        sockets = put socket (some (record { interest = interest; tick = s.tick })) s.sockets;
      })

  delete_fault : Option Fault → Option Fault
  delete_fault none = none
  delete_fault (some fault) =
      if is_bad_socket_error fault
      then none
      else elim fault.kind [ permission_denied ↦ none | _ ↦ some fault ]

  -- `Selector::deregister`
  unfoldable pub deregister : ℕ → Selector p → Option Fault × Selector p
  unfolding delete_fault
  deregister socket s = elim (s.sockets socket) [
    | none ↦ (none, s)
    | some registration ↦
        let (result, state) = p.delete socket s.poller in
        (
          delete_fault result,
          record s {
            poller = state;
            sockets = put socket none s.sockets;
            bad_sockets = filter (λ k. not (k == socket)) s.bad_sockets;
          },
        )
  ]

  pub rearmed : ℕ → Interest → Option Fault × p.State → Selector p → Option Fault × Selector p
  rearmed socket interest (some fault, state) s = (some fault, record s { poller = state })
  rearmed socket interest (none, state) s = (
    none,
    record s {
      poller = state;
      sockets = put socket (some (record { interest = interest; tick = s.tick })) s.sockets;
    },
  )

  -- One turn of the first loop of `poll`.
  unfoldable pub rearm : ℕ → Selector p → Option Fault × Selector p
  unfolding rearmed
  rearm socket s = elim (s.sockets socket) [
    | none ↦ (none, s)
    | some registration ↦
        if registration.tick == s.tick
        then (none, s)
        else rearmed socket registration.interest
            (poller_modify socket registration.interest s.poller) s
  ]

  -- The loop over the events of the last call; `?` leaves it at the first fault.
  unfoldable pub rearm_all : List SocketEvent → Selector p → Option Fault × Selector p
  rearm_all [] s = (none, s)
  rearm_all (event ∷ more) s =
      let (result, s') = rearm event.0 s in
      let rest = rearm_all more s' in elim result [ none ↦ rest | some fault ↦ (some fault, s') ]

  abbrev pub is_err : Option Fault → Bool
  is_err none = false
  is_err (some fault) = true

  -- The closure of `retain`: is the bad socket kept, and the selector after it was tried again.
  unfoldable pub retry : ℕ → Selector p → Bool × Selector p
  retry socket s = elim (s.sockets socket) [
    | none ↦ (false, s)
    | some registration ↦
        if registration.tick == s.tick
        then (true, s)
        else let (result, state) = poller_add socket registration.interest s.poller in
          (
            is_err result,
            record s {
              poller = state;
              sockets =
                  put socket (some (record { interest = registration.interest; tick = s.tick }))
                    s.sockets;
            },
          )
  ]

  -- `bad_sockets.retain`: the sockets that are kept, and the selector.
  unfoldable pub retry_all : List ℕ → Selector p → List ℕ × Selector p
  retry_all [] s = ([], s)
  retry_all (socket ∷ more) s =
      let (keep, s') = retry socket s in
      let (kept, s'') = retry_all more s' in (if keep then socket ∷ kept else kept, s'')

  pub retry_bad : Selector p → Selector p
  retry_bad s =
      let (kept, s') = retry_all s.bad_sockets (record s { events = [] }) in
      record s' { bad_sockets = kept }

  -- `Selector::poll` up to the wait.
  unfoldable pub before_wait : Selector p → Option Fault × Selector p
  unfolding retry_bad
  before_wait s =
      let (result, s') = rearm_all s.events s in
      elim result [ none ↦ (none, retry_bad s') | some fault ↦ (some fault, s') ]

  waited : Option Fault × List SocketEvent × p.State → Selector p → Outcome Fault Bool × Selector p
  waited (result, events, state) s =
      let answer : Outcome Fault Bool = elim result [
        | none ↦ ok (elim events [ [] ↦ false | event ∷ more ↦ true ])
        | some fault ↦ elim fault.kind [ interrupted_call ↦ ok false | _ ↦ err fault ]
      ] in
      (answer, record s { poller = state; events = events; tick = (s.tick + 1) % 2 ^ 64 })

  -- `Selector::poll`
  unfoldable pub poll : ℕ → Selector p → Outcome Fault Bool × Selector p
  unfolding waited
  poll timeout s =
      let (result, s') = before_wait s in
      let done = waited (p.wait timeout s'.poller) s' in
      elim result [ none ↦ done | some fault ↦ (err fault, s') ]
