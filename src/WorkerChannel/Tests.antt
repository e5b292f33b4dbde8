-- ===== src/WorkerChannel/Tests.antt =====
-- A command that is dispatched twice and whose connection closes.
use pi_container.Prelude.{ℕ, true, Bool, List, [], ◌∷◌}
use pi_container.WorkerChannel.{
  ChannelCall, registers, dispatches, unregisters, call_all, new_channel, WorkerChannel,
}
use pi_container.WorkerChannel.Promises.{Balanced, new_channel-Balanced}

abbrev open_socket : ℕ → Bool
open_socket socket = true

abbrev calls : List ChannelCall
calls =
    registers 1 10
    ∷ dispatches open_socket 1 50 2 true
    ∷ dispatches open_socket 1 50 2 true
    ∷ unregisters 1 10
    ∷ []

abbrev waiting : WorkerChannel
waiting = call_all (registers 1 10 ∷ dispatches open_socket 1 50 2 true ∷ []) new_channel

new_channel-Balanced_example : Balanced 50 (call_all calls new_channel)
new_channel-Balanced_example = new_channel-Balanced calls 50
