-- ===== src/SessionExchange.antt =====
-- apps/control-plane/src/session-exchange.ts: one-time codes that hand a session to a Workspace's origin.
-- Tokens, users and Workspaces are numbers, since they are only compared; `hashOpaqueToken` is a
-- parameter, and the code that `generateOpaqueToken` draws is an argument.
pub mod Codes
mod Tests
use pi_container.Prelude.{
  ℕ, ◌+◌, Bool, ◌&&◌, ◌||◌, not, Option, none, some, List, [], ◌∷◌, ◌==◌, leb, ltb, if◌then◌else◌,
}
use pi_container.Prelude.Table.{delete_where}

pub record ExchangeRecord : Type 0 where
  pub raw_session_token : ℕ
  pub user_id : ℕ
  pub workspace_id : ℕ
  pub expires_at : ℕ

-- `#records`, each key at most once.
abbrev pub Records : Type 0
Records = List (ℕ × ExchangeRecord)

-- The constructor's test of the time to live.
abbrev pub is_valid_ttl : ℕ → Bool
is_valid_ttl ttl_ms = not (ltb ttl_ms 1000 || ltb 300000 ttl_ms)

abbrev pub has_key : ℕ → ℕ × ExchangeRecord → Bool
has_key key entry = entry.0 == key

pub lookup : ℕ → Records → Option ExchangeRecord
lookup key [] = none
lookup key (entry ∷ entries) = if has_key key entry then some entry.1 else lookup key entries

abbrev is_expired : ℕ → ℕ × ExchangeRecord → Bool
is_expired now entry = leb entry.1.expires_at now

prune : ℕ → Records → Records
unfolding delete_where
prune now records = delete_where (is_expired now) records

abbrev pub is_for : ℕ → ℕ → ℕ × ExchangeRecord → Bool
is_for token workspace entry =
    entry.1.raw_session_token == token && entry.1.workspace_id == workspace

-- The only code of a session and a Workspace is the one that was issued last.
unfoldable pub issue : (ℕ → ℕ) → ℕ → ℕ → ℕ → ℕ → ℕ → ℕ → Records → Records
unfolding prune
issue hash ttl_ms token user workspace now code records =
    (
      hash code,
      record {
        raw_session_token = token;
        user_id = user;
        workspace_id = workspace;
        expires_at = now + ttl_ms;
      },
    )
    ∷ delete_where (has_key (hash code)) (delete_where (is_for token workspace) (prune now records))

abbrev accepted : Option ExchangeRecord → ℕ → ℕ → Option ExchangeRecord
accepted none workspace now = none
accepted (some exchange) workspace now =
    if leb exchange.expires_at now || not (exchange.workspace_id == workspace)
    then none
    else some exchange

pub consume : (ℕ → ℕ) → ℕ → ℕ → ℕ → Records → Option ExchangeRecord × Records
unfolding lookup delete_where
consume hash code workspace now records = (
  accepted (lookup (hash code) records) workspace now,
  delete_where (has_key (hash code)) records,
)
