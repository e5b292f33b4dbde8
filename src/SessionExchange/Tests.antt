-- ===== src/SessionExchange/Tests.antt =====
-- A code for one session and Workspace.
use pi_container.Prelude.{ℕ, ◌+◌, [], none, some, ◌≡◌, ◌&&◌, ◌==◌, ltb, if◌then◌else◌}
use pi_container.SessionExchange.{Records, issue, consume}
use pi_container.SessionExchange.Codes.{consume-twice, consume-issue}

abbrev hash : ℕ → ℕ
hash code = code + 1000

abbrev issued_records : Records
issued_records = issue hash 2000 31 3 7 100 55 []

consume-twice_example : (consume hash 55 7 160 (consume hash 55 8 150 issued_records).1).0 ≡ none
consume-twice_example = consume-twice hash 55 8 7 150 160 issued_records

consume-issue_example : (consume hash 55 7 150 (issue hash 2000 31 3 7 100 55 [])).0 ≡ (
    if ltb 150 (100 + 2000) && 7 == 7
    then some
        (record { raw_session_token = 31; user_id = 3; workspace_id = 7; expires_at = 100 + 2000 })
    else none)
consume-issue_example = consume-issue hash 2000 31 3 7 100 55 7 150 []
