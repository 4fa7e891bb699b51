-- ===== src/Store/SshKeys.antt =====
-- internal/store/ssh_keys.go: the public key that is bound to an agent.
use portloom.Domain.Agent.{AgentSshKey, Time}
use portloom.Prelude.{
  Bool, List, Option, Text, [], any, if◌then◌else◌, keep, map, none, not, some, ◌&&◌, ◌==◌, ◌||◌,
}
use portloom.Store.Db.{
  AgentRow, Db, Result, agent_with_id, conflict, err, failed, invalid_input, not_found, ok,
  update_where,
}
use portloom.Strings.{trim_space}

-- WHERE id = ? AND (ssh_public_key = '' OR ssh_public_key = ?)
abbrev pub can_bind : Text → Text → AgentRow → Bool
can_bind id key a = a.id == id && (a.ssh_public_key == [] || a.ssh_public_key == key)

abbrev pub bind_key : Text → Time → AgentRow → AgentRow
bind_key key now a = record a { ssh_public_key = key; updated_at = now }

-- The read that tells a missing agent from one that has another key.
abbrev pub refused : Text → Option AgentRow → Db → Result Db
refused key none db = err not_found
refused key (some a) db = if a.ssh_public_key == key then ok db else err conflict

unfoldable pub set_agent_ssh_key : Time → Text → Text → Db → Result Db
unfolding trim_space ◌==◌
set_agent_ssh_key now raw_id raw_key db =
    let id = trim_space raw_id in
    let key = trim_space raw_key in
    if id == [] || key == []
    then err invalid_input
    else if any (can_bind id key) db.agents
    then ok (record db { agents = update_where (can_bind id key) (bind_key key now) db.agents })
    else refused key (agent_with_id id db.agents) db

-- ListAgentSSHKeys, but for the order of the rows.
unfoldable pub list_agent_ssh_keys : Db → List AgentSshKey
unfolding ◌==◌
list_agent_ssh_keys db =
    map (λ a. record { agent_id = a.id; public_key = a.ssh_public_key })
      (keep (λ a. not (a.ssh_public_key == [])) db.agents)

-- `syncKeys` writes a file from the list of keys: `none` is a callback that is nil, and its own
-- result tells whether it failed. What it is called with comes back beside the database; the
-- binding is committed before the callback runs.
unfoldable pub sync_agent_ssh_keys :
    Option (List AgentSshKey → Bool) → Db → Result (List AgentSshKey)
unfolding list_agent_ssh_keys
sync_agent_ssh_keys none db = err invalid_input
sync_agent_ssh_keys (some sync_keys) db =
    let keys = list_agent_ssh_keys db in if sync_keys keys then ok keys else err failed

-- The end of BindAgentSSHKeyAndSync, for the result of SetAgentSSHKey: the key stays bound where the
-- callback fails.
unfoldable pub synced_after :
    (List AgentSshKey → Bool) → Db → Result Db → Result (List AgentSshKey) × Db
unfolding sync_agent_ssh_keys
synced_after sync_keys db (err e) = (err e, db)
synced_after sync_keys db (ok db') = (sync_agent_ssh_keys (some sync_keys) db', db')

unfoldable pub bind_agent_ssh_key_and_sync :
    Time → Text → Text → Option (List AgentSshKey → Bool) → Db → Result (List AgentSshKey) × Db
unfolding set_agent_ssh_key synced_after
bind_agent_ssh_key_and_sync now id key none db = (err invalid_input, db)
bind_agent_ssh_key_and_sync now id key (some sync_keys) db =
    synced_after sync_keys db (set_agent_ssh_key now id key db)
