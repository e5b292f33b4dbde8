-- ===== src/SessionExchange/Codes.antt =====
-- What a code is good for: one use, before it expires, by the latest code of a session.
use pi_container.Prelude.{
  ℕ, ◌+◌, ◌≡◌, refl, Bool, false, none, some, [], ◌∷◌, ◌==◌, ◌&&◌, ltb, arith, if◌then◌else◌, any,
}
use pi_container.Prelude.Table.{delete_where}
use pi_container.SessionExchange.{ExchangeRecord, Records, lookup, issue, consume, has_key, is_for}

lookup-deleted :
    (key : ℕ) (records : Records) → lookup key (delete_where (has_key key) records) ≡ none
unfolding lookup delete_where
lookup-deleted key [] = refl
lookup-deleted key (entry ∷ entries) = ground (arith, lookup-deleted key entries)

-- A code that was presented once, with whatever Workspace and result, gives nothing when it is
-- presented again.
pub consume-twice :
    (hash : ℕ → ℕ) (code first_workspace second_workspace now later : ℕ) (records : Records)
    → (consume hash code second_workspace later (consume hash code first_workspace now records).1).0
      ≡ none
unfolding consume
consume-twice hash code first_workspace second_workspace now later records =
    rw (lookup-deleted (hash code) records) refl

-- A code that was issued gives its session exactly for its Workspace and before its time to live ends.
pub consume-issue :
    (hash : ℕ → ℕ) (ttl_ms token user workspace issued code asked now : ℕ) (records : Records)
    → (consume hash code asked now (issue hash ttl_ms token user workspace issued code records)).0
      ≡ (if ltb now (issued + ttl_ms) && workspace == asked
          then some (record {
            raw_session_token = token;
            user_id = user;
            workspace_id = workspace;
            expires_at = issued + ttl_ms;
          })
          else none)
unfolding consume issue lookup
consume-issue hash ttl_ms token user workspace issued code asked now records = ground arith

none_kept :
    (token workspace : ℕ) (records : Records)
    → any (is_for token workspace) (delete_where (is_for token workspace) records) ≡ false
unfolding delete_where
none_kept token workspace [] = refl
none_kept token workspace (entry ∷ entries) = ground (arith, none_kept token workspace entries)

none_after :
    (p q : ℕ × ExchangeRecord → Bool) (records : Records)
    → any p records ≡ false
    → any p (delete_where q records) ≡ false
unfolding delete_where
none_after p q [] h = refl
none_after p q (entry ∷ entries) h = ground (arith, none_after p q entries)

-- Issuing a code leaves no other code for the same session and Workspace: the new record is at the
-- head, and no record behind it is for both.
pub issue-latest :
    (hash : ℕ → ℕ) (ttl_ms token user workspace now code : ℕ) (records : Records)
    → (new : ℕ × ExchangeRecord) × (others : Records) × (issue hash ttl_ms token user workspace now
          code records
        ≡ new ∷ others)
      × (new.0 ≡ hash code)
      × (any (is_for token workspace) others ≡ false)
unfolding issue
issue-latest hash ttl_ms token user workspace now code records = (
  _,
  _,
  refl,
  refl,
  none_after (is_for token workspace) (has_key (hash code)) _ (none_kept token workspace _),
)
