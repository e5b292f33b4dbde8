-- ===== src/Database/Steps.antt =====
-- How each update of a repository changes one row: as the state machine allows.
use pi_container.Prelude.{ℕ, Bool, true, List, ◌≡◌, arith}
use pi_container.Database.Records.{DesiredState, Workspace}
use pi_container.Database.Lifecycle.{
  can_finish_start, start_finished, can_begin_stop, stop_begun, can_finish_stop, stop_finished,
  can_begin_delete, delete_begun, can_fail, failed,
}
use pi_container.Database.RuntimeChanges.{
  RuntimeChangeRestore, can_begin_change, change_begun, can_finish_change, change_finished,
  can_revert_change, change_reverted,
}
use pi_container.Database.Recovery.{
  is_abandoned, is_assigned_to, went_offline, RecoveredState, can_reconcile, reconciled,
}
use pi_container.Database.Idle.{accessed, can_begin_idle_stop, idle_stop_begun}
use pi_container.Database.Scheduling.{can_start_on, start_begun}
use pi_container.Database.Coherence.{Allowed}

pub unchanged-Allowed : (w : Workspace) → Allowed w w
unchanged-Allowed w c = ground arith

pub finish_start-Allowed :
    (workspace worker now : ℕ) (w : Workspace)
    → can_finish_start workspace worker w ≡ true
    → Allowed w (start_finished now w)
unfolding can_finish_start start_finished
finish_start-Allowed workspace worker now w h c = ground arith

pub begin_stop-Allowed :
    (workspace user worker now : ℕ) (w : Workspace)
    → can_begin_stop workspace user worker w ≡ true
    → Allowed w (stop_begun now w)
unfolding can_begin_stop stop_begun
begin_stop-Allowed workspace user worker now w h c = ground arith

pub finish_stop-Allowed :
    (workspace worker now : ℕ) (w : Workspace)
    → can_finish_stop workspace worker w ≡ true
    → Allowed w (stop_finished now w)
unfolding can_finish_stop stop_finished
finish_stop-Allowed workspace worker now w h c = ground arith

pub begin_delete-Allowed :
    (workspace user worker now : ℕ) (w : Workspace)
    → can_begin_delete workspace user worker w ≡ true
    → Allowed w (delete_begun now w)
unfolding can_begin_delete delete_begun
begin_delete-Allowed workspace user worker now w h c = ground arith

pub fail-Allowed :
    (workspace worker : ℕ) (offline : Bool) (now : ℕ) (w : Workspace)
    → can_fail workspace worker w ≡ true
    → Allowed w (failed offline now w)
unfolding can_fail failed
fail-Allowed workspace worker offline now w h c = ground arith

pub begin_change-Allowed :
    (workspace worker from to now : ℕ) (w : Workspace)
    → can_begin_change workspace worker from to w ≡ true
    → Allowed w (change_begun from to now w)
unfolding can_begin_change change_begun
begin_change-Allowed workspace worker from to now w h c = ground arith

pub finish_change-Allowed :
    (workspace worker to now : ℕ) (w : Workspace)
    → can_finish_change workspace worker to w ≡ true
    → Allowed w (change_finished now w)
unfolding can_finish_change change_finished
finish_change-Allowed workspace worker to now w h c = ground arith

pub revert_change-Allowed :
    (workspace worker : ℕ) (restore : RuntimeChangeRestore) (now : ℕ) (w : Workspace)
    → can_revert_change workspace worker w ≡ true
    → Allowed w (change_reverted restore now w)
unfolding can_revert_change change_reverted
revert_change-Allowed workspace worker restore now w h c = ground arith

pub abandon-Allowed :
    (ids : List ℕ) (now : ℕ) (w : Workspace)
    → is_abandoned ids w ≡ true
    → Allowed w (went_offline now w)
unfolding is_abandoned went_offline
abandon-Allowed ids now w h c = ground arith

pub reconnect-Allowed :
    (worker now : ℕ) (w : Workspace)
    → is_assigned_to worker w ≡ true
    → Allowed w (went_offline now w)
unfolding is_assigned_to went_offline
reconnect-Allowed worker now w h c = ground arith

pub reconcile-Allowed :
    (workspace worker image : ℕ) (desired : DesiredState) (observed : RecoveredState) (now : ℕ)
    (w : Workspace)
    → can_reconcile workspace worker image desired w ≡ true
    → Allowed w (reconciled observed now w)
unfolding can_reconcile reconciled
reconcile-Allowed workspace worker image desired observed now w h c = ground arith

pub access-Allowed : (entries : List (ℕ × ℕ)) (w : Workspace) → Allowed w (accessed entries w)
unfolding accessed
access-Allowed entries w c = ground arith

pub begin_idle_stop-Allowed :
    (workspace worker cutoff now : ℕ) (w : Workspace)
    → can_begin_idle_stop workspace worker cutoff w ≡ true
    → Allowed w (idle_stop_begun now w)
unfolding can_begin_idle_stop idle_stop_begun
begin_idle_stop-Allowed workspace worker cutoff now w h c = ground arith

pub start-Allowed :
    (workspace user worker now : ℕ) (w : Workspace)
    → can_start_on workspace user worker w ≡ true
    → Allowed w (start_begun worker now w)
unfolding can_start_on start_begun
start-Allowed workspace user worker now w h c = ground arith
