-- ===== src/SessionConnections/Disconnecting.antt =====
-- Closing the connections of Workspaces calls `disconnect` of each, and forgets no call.
use pi_container.Prelude.{
  ℕ, ◌≡◌, refl, Bool, true, false, List, [], ◌∷◌, any, not, select, arith, ◌==◌, Memᴰ, mem_cases,
  mem_select, ap, ◌&&◌,
}
use pi_container.Prelude.Table.{mem_delete_where}
use pi_container.SessionConnections.{
  TrackedConnection, Registry, close_workspaces, close_matching, disconnect_all,
}
use pi_container.SessionConnections.Closing.{targeted}

-- The `disconnect` of the connection was called.
abbrev pub is_called : List ℕ → TrackedConnection → Bool
is_called trace c = any (λ n. n == c.connection) trace

called_stays :
    (c : TrackedConnection) (cs : List TrackedConnection) (trace : List ℕ)
    → is_called trace c ≡ true
    → is_called (disconnect_all cs trace) c ≡ true
unfolding disconnect_all
called_stays c [] trace h = h
called_stays c (d ∷ ds) trace h = called_stays c ds (d.connection ∷ trace) (ground (arith, h))

called_of_mem :
    (c : TrackedConnection) (cs : List TrackedConnection) (trace : List ℕ)
    → Memᴰ c cs
    → is_called (disconnect_all cs trace) c ≡ true
unfolding disconnect_all
called_of_mem c [] trace m = elim m [ ]
called_of_mem c (d ∷ ds) trace m =
    mem_cases m
      (λ q.
        let same : c.connection ≡ d.connection = ap (λ (x : TrackedConnection). x.connection) q in
        called_stays c ds (d.connection ∷ trace) (ground (arith, same)))
      (λ m'. called_of_mem c ds (d.connection ∷ trace) m')

pub close_workspaces-stays :
    (targets : List ℕ) (registry : Registry) (c : TrackedConnection)
    → is_called registry.disconnected c ≡ true
    → is_called (close_workspaces targets registry).disconnected c ≡ true
unfolding close_workspaces close_matching
close_workspaces-stays [] registry c h = h
close_workspaces-stays (t ∷ ts) registry c h =
    called_stays c
      (select (λ (d : TrackedConnection). targeted (t ∷ ts) d.workspace_id) registry.connections)
      registry.disconnected h

pub close_workspaces-calls :
    (targets : List ℕ) (registry : Registry) (c : TrackedConnection)
    → Memᴰ c registry.connections
    → targeted targets c.workspace_id ≡ true
    → is_called (close_workspaces targets registry).disconnected c ≡ true
unfolding close_workspaces close_matching
close_workspaces-calls [] registry c m h = absurd (ground (arith, h))
close_workspaces-calls (t ∷ ts) registry c m h = called_of_mem c _ registry.disconnected (
    mem_select (λ (d : TrackedConnection). targeted (t ∷ ts) d.workspace_id) c registry.connections
      m h)

pub close_workspaces-keeps :
    (targets : List ℕ) (registry : Registry) (c : TrackedConnection)
    → Memᴰ c registry.connections
    → targeted targets c.workspace_id ≡ false
    → Memᴰ c (close_workspaces targets registry).connections
unfolding close_workspaces close_matching
close_workspaces-keeps [] registry c m h = m
close_workspaces-keeps (t ∷ ts) registry c m h =
    mem_delete_where (λ (d : TrackedConnection). targeted (t ∷ ts) d.workspace_id) c
      registry.connections m h

-- Of these connections, each to the Workspace was disconnected.
abbrev pub all_disconnected : ℕ → List TrackedConnection → List ℕ → Bool
all_disconnected workspace cs trace =
    not (any (λ (c : TrackedConnection). c.workspace_id == workspace && not (is_called trace c)) cs)

pub all_disconnected_of :
    (workspace : ℕ) (trace : List ℕ) (cs : List TrackedConnection)
    → ((c : TrackedConnection) → Memᴰ c cs → c.workspace_id ≡ workspace → is_called trace c ≡ true)
    → all_disconnected workspace cs trace ≡ true
all_disconnected_of workspace trace [] h = refl
all_disconnected_of workspace trace (c ∷ cs) h =
    let rest = all_disconnected_of workspace trace cs (λ d m. h d (Memᴰ.tail m)) in
    let here = h c (Memᴰ.head refl) in ground (arith, rest, here)
