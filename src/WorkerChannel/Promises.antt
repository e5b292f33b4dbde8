-- ===== src/WorkerChannel/Promises.antt =====
-- Every promise of `dispatch` is settled once or waits for a pending command.
use pi_container.Prelude.{
  ℕ, ◌+◌, ◌≡◌, ◌≤◌, refl, Bool, false, Option, some, List, [], ◌∷◌, any, select, find, arith,
  if◌then◌else◌, ◌==◌, true, none, ◌≢◌,
}
use pi_container.Prelude.Table.{delete_where}
use pi_container.WorkerChannel.{
  WorkerChannel, PendingCommand, Effect, dispatched, resolved, failed, is_request, is_worker,
  fail_all, unregister, issue, dispatch_on, refuse, time_out, accept_pending, register, disconnect,
  call, call_all, ChannelCall, socket_of, settle, dispatch, new_channel, of_worker, WorkerResponse,
  accept_response, disconnects, registers, unregisters, dispatches, times_out, accepts, expire,
}

module _ (id : ℕ) where
  -- The calls of `dispatch` with this request ID.
  abbrev pub dispatched_count : List Effect → ℕ
  dispatched_count [] = 0
  dispatched_count (dispatched request ∷ es) =
      (if request == id then 1 else 0) + dispatched_count es
  dispatched_count (_ ∷ es) = dispatched_count es

  -- The promises of such calls that are resolved or rejected.
  abbrev pub settled_count : List Effect → ℕ
  settled_count [] = 0
  settled_count (resolved request message ∷ es) =
      (if request == id then 1 else 0) + settled_count es
  settled_count (failed request error ∷ es) = (if request == id then 1 else 0) + settled_count es
  settled_count (_ ∷ es) = settled_count es

  abbrev pub pending_count : List PendingCommand → ℕ
  pending_count [] = 0
  pending_count (c ∷ cs) = (if is_request id c then 1 else 0) + pending_count cs

  abbrev pub Balanced : WorkerChannel → Type 0
  Balanced channel =
      (dispatched_count channel.trace ≡ settled_count channel.trace + pending_count channel.pending)
      × (pending_count channel.pending ≤ 1)

  pending_count-removed :
      (request : ℕ) (cs : List PendingCommand)
      → pending_count (delete_where (is_request request) cs)
        ≡ (if request == id then 0 else pending_count cs)
  unfolding delete_where
  pending_count-removed request [] = ground arith
  pending_count-removed request (c ∷ cs) = ground (arith, pending_count-removed request cs)

  pending_count_absent :
      (cs : List PendingCommand) → any (is_request id) cs ≡ false → pending_count cs ≡ 0
  pending_count_absent [] h = refl
  pending_count_absent (c ∷ cs) h = ground (arith, pending_count_absent cs)

  pending_count_found :
      (request : ℕ) (c : PendingCommand) (cs : List PendingCommand)
      → find (is_request request) cs ≡ some c
      → (request == id) ≡ true
      → 1 ≤ pending_count cs
  pending_count_found request c [] h e = ground (arith, h)
  pending_count_found request c (d ∷ cs) h e = ground (arith, pending_count_found request c cs)

  settled_count-fail_all :
      (worker : ℕ) (cs : List PendingCommand) (es : List Effect)
      → settled_count (fail_all (select (is_worker worker) cs) es)
          + pending_count (delete_where (is_worker worker) cs)
        ≡ settled_count es + pending_count cs
  unfolding fail_all delete_where
  settled_count-fail_all worker [] es = omega arith
  settled_count-fail_all worker (c ∷ cs) es = ground (arith, settled_count-fail_all worker cs es)

  dispatched_count-fail_all :
      (cs : List PendingCommand) (es : List Effect)
      → dispatched_count (fail_all cs es) ≡ dispatched_count es
  unfolding fail_all
  dispatched_count-fail_all [] es = refl
  dispatched_count-fail_all (c ∷ cs) es = dispatched_count-fail_all cs es

  pending_count-delete_where :
      (p : PendingCommand → Bool) (cs : List PendingCommand)
      → pending_count (delete_where p cs) ≤ pending_count cs
  unfolding delete_where
  pending_count-delete_where p [] = omega arith
  pending_count-delete_where p (c ∷ cs) = ground (arith, pending_count-delete_where p cs)

  unregister-Balanced :
      (worker socket : ℕ) (channel : WorkerChannel)
      → Balanced channel
      → Balanced (unregister worker socket channel)
  unfolding unregister
  unregister-Balanced worker socket channel b = ground (
    arith,
    settled_count-fail_all worker channel.pending channel.trace,
    dispatched_count-fail_all (select (is_worker worker) channel.pending) channel.trace,
    pending_count-delete_where (is_worker worker) channel.pending,
  )

  dispatch_on-Balanced :
      (connected : Bool) (socket : Option ℕ) (worker request type : ℕ) (sends : Bool)
      (channel : WorkerChannel)
      → Balanced channel
      → Balanced (dispatch_on connected socket worker request type sends channel)
  unfolding dispatch_on issue refuse
  dispatch_on-Balanced connected socket worker request type sends channel b =
      ground (arith, pending_count_absent channel.pending)

  expire-Balanced :
      (found : Option PendingCommand) (request : ℕ) (channel : WorkerChannel)
      → find (is_request request) channel.pending ≡ found
      → Balanced channel
      → Balanced (expire found request channel)
  unfolding expire settle
  expire-Balanced none request channel e b = b
  expire-Balanced (some command) request channel e b = ground (
    arith,
    pending_count-removed request channel.pending,
    pending_count_found request command channel.pending e,
  )

  accept-Balanced :
      (found : Option PendingCommand) (worker : ℕ) (message : WorkerResponse)
      (channel : WorkerChannel)
      → find (is_request message.request_id) channel.pending ≡ found
      → Balanced channel
      → Balanced (accept_pending found worker message channel).1
  unfolding accept_pending settle
  accept-Balanced none worker message channel e b = b
  accept-Balanced (some command) worker message channel e b = ground (
    arith,
    pending_count-removed message.request_id channel.pending,
    pending_count_found message.request_id command channel.pending e,
  )

  register-Balanced :
      (worker socket : ℕ) (channel : WorkerChannel)
      → Balanced channel
      → Balanced (register worker socket channel)
  unfolding register
  register-Balanced worker socket channel b = ground arith

  disconnect-Balanced :
      (worker code : ℕ) (channel : WorkerChannel)
      → Balanced channel
      → Balanced (disconnect worker code channel).1
  unfolding disconnect
  disconnect-Balanced worker code channel b = ground arith

  call-Balanced :
      (c : ChannelCall) (channel : WorkerChannel) → Balanced channel → Balanced (call c channel)
  unfolding call dispatch accept_response time_out
  call-Balanced (disconnects worker code) channel b = disconnect-Balanced worker code channel b
  call-Balanced (registers worker socket) channel b = register-Balanced worker socket channel b
  call-Balanced (unregisters worker socket) channel b = unregister-Balanced worker socket channel b
  call-Balanced (dispatches ready worker request type sends) channel b =
      dispatch_on-Balanced _ _ worker request type sends channel b
  call-Balanced (times_out request) channel b = expire-Balanced _ request channel refl b
  call-Balanced (accepts worker message) channel b = accept-Balanced _ worker message channel refl b

  call_all-Balanced :
      (cs : List ChannelCall) (channel : WorkerChannel)
      → Balanced channel
      → Balanced (call_all cs channel)
  unfolding call_all
  call_all-Balanced [] channel b = b
  call_all-Balanced (c ∷ cs) channel b =
      call_all-Balanced cs (call c channel) (call-Balanced c channel b)

-- After any calls and time-outs in any order on a new channel, for every request ID, the calls of
-- `dispatch` with it are as many as its promises that were settled and its commands that are
-- pending, of which there is one at most: no promise is lost, and none is settled twice.
pub new_channel-Balanced :
    (calls : List ChannelCall) (id : ℕ) → Balanced id (call_all calls new_channel)
new_channel-Balanced calls id = call_all-Balanced id calls new_channel (refl, omega arith)

none_left :
    (worker : ℕ) (cs : List PendingCommand)
    → any (is_worker worker) (delete_where (is_worker worker) cs) ≡ false
unfolding delete_where
none_left worker [] = refl
none_left worker (c ∷ cs) = ground (arith, none_left worker cs)

connection_gone :
    (worker : ℕ) (entries : List (ℕ × ℕ))
    → socket_of worker (delete_where (of_worker worker) entries) ≡ none
unfolding delete_where socket_of
connection_gone worker [] = refl
connection_gone worker (entry ∷ entries) = ground (arith, connection_gone worker entries)

-- When the Worker's current connection closes, the Worker has no connection and no pending command; a
-- connection that was superseded changes nothing when it closes.
pub unregister-settles :
    (worker socket : ℕ) (channel : WorkerChannel)
    → let after = unregister worker socket channel in
      (socket_of worker channel.connections ≡ some socket
        → (socket_of worker after.connections ≡ none)
          × (any (is_worker worker) after.pending ≡ false))
      × (socket_of worker channel.connections ≢ some socket → after ≡ channel)
unfolding unregister
unregister-settles worker socket channel = (
  λ e. (
    ground (arith, e, connection_gone worker channel.connections),
    ground (arith, e, none_left worker channel.pending),
  ),
  λ e. ground (arith, e),
)
