-- ===== src/Audit.antt =====
-- src/audit: each request that may change state starts the write of an entry of the audit log. Nobody
-- waits for the write: writes end in any order, and the rejection of one that the database refuses is
-- handled by nobody.
pub mod Log
mod Tests
use ops_flow_ms.Metrics.Interceptor.{HttpRequest, path_of}
use ops_flow_ms.Shared.{
  Bool, List, Option, String, [], concat, if◌then◌else◌, includes, none, or_else, some, ℕ, ◌++◌,
  ◌∷◌, suc, zero,
}
use ops_flow_ms.Guards.{Header, header_value}

-- The columns of src/prisma/schema.prisma that the interceptor fills; it leaves the entity out.
pub record AuditEntry : Type 0 where
  pub actor_user_id : Option String
  pub action : String
  pub method : String
  pub path : String
  pub ip : Option String
  pub user_agent : Option String
  pub status_code : Option ℕ
  pub request_id : Option String
  pub metadata_error : Option String

-- What a handler throws, as far as it is read: no object, or the fields `status` and `message` where they
-- are a number and a text.
pub data Raised : Type 0 where
  no_object : Raised
  fields : Option ℕ → Option String → Raised

-- How a handler ends: with the status of the response, or by throwing.
pub data Handled : Type 0 where
  completed : ℕ → Handled
  failed : Raised → Handled

-- `req.requestId ?? ...`, with the header x-request-id.
abbrev request_id_of : Option String → Header → Option String
request_id_of (some id) header = some id
request_id_of none header = header_value header

abbrev pub should_log : String → Bool
should_log method = includes ("POST" ∷ "PUT" ∷ "PATCH" ∷ "DELETE" ∷ []) method

abbrev raised_status : Raised → ℕ
raised_status no_object = 500
raised_status (fields status message) = or_else status 500

abbrev raised_message : Raised → String
raised_message no_object = "Unknown error"
raised_message (fields status message) = or_else message "Unknown error"

abbrev handled_status : Handled → ℕ
handled_status (completed status) = status
handled_status (failed e) = raised_status e

abbrev handled_error : Handled → Option String
handled_error (completed status) = none
handled_error (failed e) = some (raised_message e)

-- What the interceptor hands to `AuditService.log`.
abbrev pub entry_of : HttpRequest → Header → Option String → Handled → AuditEntry
entry_of req header sub handled = record {
  actor_user_id = sub;
  action = concat req.method (concat " " (path_of req));
  method = req.method;
  path = path_of req;
  ip = req.ip;
  user_agent = req.user_agent;
  status_code = some (handled_status handled);
  request_id = request_id_of req.request_id header;
  metadata_error = handled_error handled;
}

-- The writes that have been started, the rows that are stored, and the entries that the database refused.
pub record AuditState : Type 0 where
  pub pending : List AuditEntry
  pub table : List AuditEntry
  pub refused : List AuditEntry

-- `AuditService.log` up to its `await`: the write is started.
unfoldable pub log : AuditEntry → AuditState → AuditState
log entry a = record a { pending = a.pending ++ entry ∷ [] }

unfoldable pub intercept : HttpRequest → Header → Option String → Handled → AuditState → AuditState
unfolding log
intercept req header sub handled a =
    if should_log req.method then log (entry_of req header sub handled) a else a

abbrev pub in_front :
    AuditEntry → Option (AuditEntry × List AuditEntry) → Option (AuditEntry × List AuditEntry)
in_front x none = none
in_front x (some (y, others)) = some (y, x ∷ others)

-- The element at an index, and the others.
abbrev pub pick : ℕ → List AuditEntry → Option (AuditEntry × List AuditEntry)
pick n [] = none
pick zero (x ∷ xs) = some (x, xs)
pick (suc n) (x ∷ xs) = in_front x (pick n xs)

-- A write that was started ends: the database stores the row, or refuses it.
abbrev pub ended : Bool → AuditState → Option (AuditEntry × List AuditEntry) → AuditState
ended stores a none = a
ended stores a (some (entry, others)) =
    if stores
    then record a { pending = others; table = a.table ++ entry ∷ [] }
    else record a { pending = others; refused = a.refused ++ entry ∷ [] }

unfoldable pub settle : Bool → ℕ → AuditState → AuditState
settle stores n a = ended stores a (pick n a.pending)
