-- ===== src/WorkerChannel.antt =====
-- apps/control-plane/src/worker-channel.ts: the commands to Workers and the promises that wait for their
-- responses. A Worker, a socket, a request ID and a message type are numbers, since they are only
-- compared. The trace, latest first, has each call of `dispatch` and each promise that it settles.
-- A socket's `readyState`, and whether `send` throws, come from the socket; a timer fires only while
-- its command is pending, since whatever removes the command clears it.
pub mod Promises
mod Tests
use pi_container.Prelude.{
  ℕ, Bool, true, false, ◌&&◌, not, Option, none, some, List, [], ◌∷◌, ◌++◌, map, any, select, find,
  holds_value, ◌==◌, if◌then◌else◌,
}
use pi_container.Prelude.Table.{delete_where}

pub data WorkerChannelError : Type 0 where
  worker_not_connected worker_command_timeout worker_connection_closed : WorkerChannelError
  duplicate_worker_request_id worker_response_mismatch : WorkerChannelError

pub record PendingCommand : Type 0 where
  pub request_id : ℕ
  pub worker_id : ℕ
  pub request_type : ℕ

-- The request that a response names, the type that it answers, and its error code, if any.
pub record WorkerResponse : Type 0 where
  pub request_id : ℕ
  pub request_type : ℕ
  pub error_code : Option ℕ

pub data WorkerCommandResult : Type 0 where
  ok error timeout not_connected connection_closed mismatch : WorkerCommandResult

pub data Effect : Type 0 where
  dispatched : ℕ → Effect
  resolved : ℕ → WorkerResponse → Effect
  failed : ℕ → WorkerChannelError → Effect
  sent : ℕ → ℕ → Effect
  closed : ℕ → ℕ → Effect
  recorded : ℕ → WorkerCommandResult → Effect
  error_recorded : ℕ → ℕ → Effect

-- `#connections` and `#pending`, each key at most once, with the trace.
pub record WorkerChannel : Type 0 where
  pub connections : List (ℕ × ℕ)
  pub pending : List PendingCommand
  pub trace : List Effect

abbrev pub of_worker : ℕ → ℕ × ℕ → Bool
of_worker worker entry = entry.0 == worker

-- `#connections.get(workerId)`.
pub socket_of : ℕ → List (ℕ × ℕ) → Option ℕ
socket_of worker [] = none
socket_of worker (entry ∷ entries) =
    if of_worker worker entry then some entry.1 else socket_of worker entries

abbrev set_socket : ℕ → ℕ → List (ℕ × ℕ) → List (ℕ × ℕ)
set_socket worker socket [] = (worker, socket) ∷ []
set_socket worker socket (entry ∷ entries) =
    if of_worker worker entry
    then (worker, socket) ∷ entries
    else entry ∷ set_socket worker socket entries

abbrev pub is_request : ℕ → PendingCommand → Bool
is_request request command = command.request_id == request

abbrev pub is_worker : ℕ → PendingCommand → Bool
is_worker worker command = command.worker_id == worker

-- Sockets that are open have `readyState` 1.
module _ (ready : ℕ → Bool) where
  pub is_connected : ℕ → WorkerChannel → Bool
  unfolding socket_of
  is_connected worker channel = elim (socket_of worker channel.connections) [
    | none ↦ false
    | some socket ↦ ready socket
  ]

-- Closes the Worker's control connection; its pending commands fail on close.
pub disconnect : ℕ → ℕ → WorkerChannel → Bool × WorkerChannel
unfolding socket_of
disconnect worker code channel = elim (socket_of worker channel.connections) [
  | none ↦ (false, channel)
  | some socket ↦ (true, record channel { trace = closed socket code ∷ channel.trace })
]

-- Another connection of the Worker is closed with code 4000.
abbrev superseded : Option ℕ → ℕ → List Effect → List Effect
superseded none socket trace = trace
superseded (some existing) socket trace =
    if existing == socket then trace else closed existing 4000 ∷ trace

pub register : ℕ → ℕ → WorkerChannel → WorkerChannel
unfolding socket_of
register worker socket channel = record channel {
  connections = set_socket worker socket channel.connections;
  trace = superseded (socket_of worker channel.connections) socket channel.trace;
}

-- The effects on the pending commands of a connection that closes.
pub fail_all : List PendingCommand → List Effect → List Effect
fail_all [] trace = trace
fail_all (command ∷ commands) trace =
    failed command.request_id worker_connection_closed
    ∷ recorded command.request_type connection_closed
    ∷ fail_all commands trace

-- A connection that is not the Worker's current one changes nothing.
pub unregister : ℕ → ℕ → WorkerChannel → WorkerChannel
unfolding fail_all delete_where socket_of
unregister worker socket channel =
    if holds_value (socket_of worker channel.connections) socket
    then record {
      connections = delete_where (of_worker worker) channel.connections;
      pending = delete_where (is_worker worker) channel.pending;
      trace = fail_all (select (is_worker worker) channel.pending) channel.trace;
    }
    else channel

pub refuse : ℕ → WorkerChannelError → List Effect → WorkerChannel → WorkerChannel
refuse request code effects channel = record channel {
  trace = failed request code ∷ effects ++ dispatched request ∷ channel.trace;
}

-- The body of the promise, where `sends` says that `socket.send` does not throw: if it throws, the
-- command is removed again.
unfoldable pub issue : ℕ → ℕ → ℕ → ℕ → Bool → WorkerChannel → WorkerChannel
unfolding refuse
issue worker request type socket true channel = record channel {
  pending =
      record { request_id = request; worker_id = worker; request_type = type } ∷ channel.pending;
  trace = sent socket request ∷ dispatched request ∷ channel.trace;
}
issue worker request type socket false channel =
    refuse request worker_connection_closed (recorded type connection_closed ∷ []) channel

dispatch_on : Bool → Option ℕ → ℕ → ℕ → ℕ → Bool → WorkerChannel → WorkerChannel
unfolding issue
dispatch_on connected none worker request type sends channel =
    refuse request worker_not_connected (recorded type not_connected ∷ []) channel
dispatch_on connected (some socket) worker request type sends channel =
    if not connected
    then refuse request worker_not_connected (recorded type not_connected ∷ []) channel
    else if any (is_request request) channel.pending
    then refuse request duplicate_worker_request_id [] channel
    else issue worker request type socket sends channel

pub dispatch : (ℕ → Bool) → ℕ → ℕ → ℕ → Bool → WorkerChannel → WorkerChannel
unfolding dispatch_on is_connected
dispatch ready worker request type sends channel =
    dispatch_on (is_connected ready worker channel) (socket_of worker channel.connections) worker
      request type sends channel

-- Removes a pending command, with what follows for its promise.
pub settle : ℕ → List Effect → WorkerChannel → WorkerChannel
unfolding delete_where
settle request effects channel = record channel {
  pending = delete_where (is_request request) channel.pending;
  trace = effects ++ channel.trace;
}

pub expire : Option PendingCommand → ℕ → WorkerChannel → WorkerChannel
unfolding settle
expire none request channel = channel
expire (some command) request channel =
    settle request
      (failed request worker_command_timeout ∷ recorded command.request_type timeout ∷ []) channel

-- The timer of a command.
pub time_out : ℕ → WorkerChannel → WorkerChannel
unfolding expire
time_out request channel = expire (find (is_request request) channel.pending) request channel

abbrev outcome_effects : PendingCommand → Option ℕ → List Effect
outcome_effects command none = recorded command.request_type ok ∷ []
outcome_effects command (some code) =
    error_recorded command.request_type code ∷ recorded command.request_type error ∷ []

pub accept_pending :
    Option PendingCommand → ℕ → WorkerResponse → WorkerChannel → Bool × WorkerChannel
unfolding settle
accept_pending none worker message channel = (false, channel)
accept_pending (some command) worker message channel =
    if not (is_worker worker command)
    then (false, channel)
    else if not (command.request_type == message.request_type)
    then (
      false,
      settle message.request_id
          (failed message.request_id worker_response_mismatch
            ∷ recorded command.request_type mismatch
            ∷ [])
          channel,
    )
    else (
      true,
      settle message.request_id
          (resolved message.request_id message ∷ outcome_effects command message.error_code)
          channel,
    )

pub accept_response : ℕ → WorkerResponse → WorkerChannel → Bool × WorkerChannel
unfolding accept_pending
accept_response worker message channel =
    accept_pending (find (is_request message.request_id) channel.pending) worker message channel

-- The calls, with a time-out as the timer's call.
pub data ChannelCall : Type 0 where
  disconnects registers unregisters : ℕ → ℕ → ChannelCall
  dispatches : (ℕ → Bool) → ℕ → ℕ → ℕ → Bool → ChannelCall
  times_out : ℕ → ChannelCall
  accepts : ℕ → WorkerResponse → ChannelCall

pub call : ChannelCall → WorkerChannel → WorkerChannel
unfolding disconnect register unregister dispatch time_out accept_response
call (disconnects worker code) channel = (disconnect worker code channel).1
call (registers worker socket) channel = register worker socket channel
call (unregisters worker socket) channel = unregister worker socket channel
call (dispatches ready worker request type sends) channel =
    dispatch ready worker request type sends channel
call (times_out request) channel = time_out request channel
call (accepts worker message) channel = (accept_response worker message channel).1

pub call_all : List ChannelCall → WorkerChannel → WorkerChannel
unfolding call
call_all [] channel = channel
call_all (c ∷ cs) channel = call_all cs (call c channel)

abbrev pub new_channel : WorkerChannel
new_channel = record { connections = []; pending = []; trace = [] }
