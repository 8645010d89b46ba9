-- ===== src/Access/Tokens/Stored.antt =====
-- src/mentorapp/access/tokens.py: `StoredTokenActionStore`, over the rows of `actionToken` and
-- `tokenAuditEvent`. A row is found by its primary key. A save that another process overtakes is
-- not modelled.
use cbm_mentoring_app.Base.{
  ℕ, String, ◌≡◌, refl, ap, Option, none, some, List, [], ◌∷◌, ◌++◌, map, nat_eq, ◌==◌,
  if◌then◌else◌, arith,
}
use cbm_mentoring_app.Access.Tokens.Store.{
  TokenActionRecord, EventName, TokenAuditEvent, TokenActionStore,
}

pub record ActionToken : Type 0 where
  pub action_token_id : ℕ
  pub token_action : String
  pub token_identity : String
  pub user_id : Option ℕ
  pub token_expires_at : ℕ
  pub token_max_uses : ℕ
  pub token_use_count : ℕ
  pub token_revoked_at : Option ℕ

pub record TokenAuditEventRow : Type 0 where
  pub action_token_id : ℕ
  pub token_event_name : EventName
  pub token_event_occurred_at : ℕ

pub record Tables : Type 0 where
  pub tokens : List ActionToken
  pub events : List TokenAuditEventRow

-- `session.get(ActionToken, id)`
unfoldable pub get_row : List ActionToken → ℕ → Option ActionToken
get_row [] id = none
get_row (row ∷ rows) id = if id == row.action_token_id then some row else get_row rows id

abbrev pub record_of : ActionToken → TokenActionRecord
record_of row = record {
  token_action_id = row.action_token_id;
  token_identity = row.token_identity;
  action_name = row.token_action;
  expires_at = row.token_expires_at;
  max_uses = row.token_max_uses;
  user_id = row.user_id;
  use_count = row.token_use_count;
  revoked_at = row.token_revoked_at;
}

abbrev pub loaded : Option ActionToken → Option TokenActionRecord
loaded none = none
loaded (some row) = some (record_of row)

abbrev pub load_token : Tables → ℕ → Option TokenActionRecord
load_token s id = loaded (get_row s.tokens id)

-- What `save` writes into the row of a key.
abbrev pub row_of : ℕ → TokenActionRecord → ActionToken
row_of id r = record {
  action_token_id = id;
  token_action = r.action_name;
  token_identity = r.token_identity;
  user_id = r.user_id;
  token_expires_at = r.expires_at;
  token_max_uses = r.max_uses;
  token_use_count = r.use_count;
  token_revoked_at = r.revoked_at;
}

-- The row of the record's key is written over, or a new one is added.
unfoldable pub write_row : List ActionToken → TokenActionRecord → List ActionToken
write_row [] r = row_of r.token_action_id r ∷ []
write_row (row ∷ rows) r =
    let rest = write_row rows r in
    if r.token_action_id == row.action_token_id
    then row_of row.action_token_id r ∷ rows
    else row ∷ rest

abbrev pub save_token : Tables → TokenActionRecord → Tables
save_token s r = record s { tokens = write_row s.tokens r }

abbrev pub audit_row : TokenAuditEvent → TokenAuditEventRow
audit_row e = record {
  action_token_id = e.token_action_id;
  token_event_name = e.event_name;
  token_event_occurred_at = e.occurred_at;
}

abbrev pub add_event : Tables → TokenAuditEvent → Tables
add_event s e = record s { events = s.events ++ audit_row e ∷ [] }

abbrev pub event_of : TokenAuditEventRow → TokenAuditEvent
event_of row = record {
  token_action_id = row.action_token_id;
  event_name = row.token_event_name;
  occurred_at = row.token_event_occurred_at;
}

pub get_row-write_row :
    (rows : List ActionToken) (r : TokenActionRecord) (id : ℕ)
    → loaded (get_row (write_row rows r) id)
      ≡ (if id == r.token_action_id then some r else loaded (get_row rows id))
unfolding get_row write_row
get_row-write_row [] r id = ground arith
get_row-write_row (row ∷ rows) r id = ground (arith, get_row-write_row rows r id)

pub map-append_event :
    (rows : List TokenAuditEventRow) (e : TokenAuditEvent)
    → map event_of (rows ++ audit_row e ∷ []) ≡ map event_of rows ++ e ∷ []
map-append_event [] e = refl
map-append_event (row ∷ rows) e = ap (λ es. event_of row ∷ es) (map-append_event rows e)

-- `StoredTokenActionStore`; the trail is read back in the order in which it was added.
abbrev pub stored : TokenActionStore
stored = record {
  State = Tables;
  load = load_token;
  save = save_token;
  append_audit = add_event;
  audit = λ s. map event_of s.events;
  load-save = λ s r id. get_row-write_row s.tokens r id;
  load-append_audit = λ s e id. refl;
  audit-save = λ s r. refl;
  audit-append_audit = λ s e. map-append_event s.events e;
}
