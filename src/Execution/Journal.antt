-- ===== src/Execution/Journal.antt =====
-- src/caqrs/execution/live_broker_journal.py: the journal of the live broker. A table is the list of
-- its rows, oldest first; an INSERT keeps the key that the schema declares, and no two NULLs are equal
-- under UNIQUE. Row numbers and times, which no statement reads, are left out, and so are the lock
-- and the settings of the connection. A decimal is stored as its text.
pub mod Keys
use caqrs.Prelude.{
  ℕ, Bool, true, false, String, List, [], ◌∷◌, ◌++◌, Option, none, some, any, ltb, ◌==◌, ◌&&◌,
  str_eq, Reply, returned, raised, if◌then◌else◌,
}

pub record Submission : Type 0 where
  pub client_order_id : String
  pub cycle_id : String
  pub decision_run_id : String
  pub order_id : String
  pub idempotency_key : String
  pub symbol : String
  pub side : String
  pub qty : String

pub record FillRow : Type 0 where
  pub client_order_id : String
  pub fill_id : Option String
  pub qty : String
  pub fill_price_usd : String
  pub is_partial : Bool

pub record CancelRow : Type 0 where
  pub client_order_id : String
  pub reason : Option String

pub record LiveBrokerJournal : Type 0 where
  pub user_version : ℕ
  pub submissions : List Submission
  pub fills : List FillRow
  pub cancellations : List CancelRow

abbrev pub schema_version : ℕ
schema_version = 1

-- A file that is not there yet.
abbrev pub new_file : LiveBrokerJournal
new_file = record { user_version = 0; submissions = []; fills = []; cancellations = [] }

-- `__init__`: a newer schema is refused, and a new file gets the version.
unfoldable pub open_journal : LiveBrokerJournal → Reply (Unit {0}) × LiveBrokerJournal
open_journal j =
    if ltb schema_version j.user_version
    then (raised, j)
    else if j.user_version == 0
    then (returned tt, record j { user_version = schema_version })
    else (returned tt, j)

-- The primary key of `submissions`.
abbrev pub is_submission : String → Submission → Bool
is_submission client_order_id row = str_eq row.client_order_id client_order_id

-- `UNIQUE(client_order_id, fill_id)`: the row has the order and the fill; a NULL matches nothing.
abbrev pub same_fill_id : Option String → Option String → Bool
same_fill_id (some a) (some b) = str_eq a b
same_fill_id _ _ = false

abbrev pub is_fill : String → Option String → FillRow → Bool
is_fill client_order_id fill_id row =
    str_eq row.client_order_id client_order_id && same_fill_id row.fill_id fill_id

abbrev pub is_cancel : String → CancelRow → Bool
is_cancel client_order_id row = str_eq row.client_order_id client_order_id

-- An order that is registered is an `IntegrityError`.
unfoldable pub register_submission :
    LiveBrokerJournal → Submission → Reply (Unit {0}) × LiveBrokerJournal
register_submission j row =
    if any (is_submission row.client_order_id) j.submissions
    then (raised, j)
    else (returned tt, record j { submissions = j.submissions ++ row ∷ [] })

unfoldable pub record_fill : LiveBrokerJournal → FillRow → Bool × LiveBrokerJournal
record_fill j row =
    if any (is_fill row.client_order_id row.fill_id) j.fills
    then (false, j)
    else (true, record j { fills = j.fills ++ row ∷ [] })

unfoldable pub record_cancel : LiveBrokerJournal → CancelRow → Bool × LiveBrokerJournal
record_cancel j row =
    if any (is_cancel row.client_order_id) j.cancellations
    then (false, j)
    else (true, record j { cancellations = j.cancellations ++ row ∷ [] })

-- `SELECT … WHERE client_order_id = ?`
unfoldable pub attribution_in : String → List Submission → Option (String × String)
attribution_in client_order_id [] = none
attribution_in client_order_id (row ∷ rest) =
    if is_submission client_order_id row
    then some (row.cycle_id, row.decision_run_id)
    else attribution_in client_order_id rest

unfoldable pub attribution : LiveBrokerJournal → String → Option (String × String)
attribution j client_order_id = attribution_in client_order_id j.submissions

-- `make_resolvers`
unfoldable pub cycle_resolver : LiveBrokerJournal → String → Option String
cycle_resolver j client_order_id = elim (attribution j client_order_id) [
  | none ↦ none
  | some attr ↦ some attr.0
]

unfoldable pub decision_resolver : LiveBrokerJournal → String → Option String
decision_resolver j client_order_id = elim (attribution j client_order_id) [
  | none ↦ none
  | some attr ↦ some attr.1
]
