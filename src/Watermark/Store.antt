-- ===== src/Watermark/Store.antt =====
-- src/watermark/control_store.py: the SQLite control store. A table is the list of its rows in
-- rowid order; `UPDATE … WHERE` maps over the rows that match.
pub mod Commit
pub mod Laws
pub mod Atomic
pub mod Outcomes
pub mod Steps
pub mod Monotone
pub mod History
pub mod Recovery
use incremental_cdc_data_pla.Base.{
  update_where, find_where, ℕ, ◌+◌, String, Bool, true, false, ◌&&◌, Option, none, some, List, [],
  ◌∷◌, ◌++◌, keep, ◌==◌, eqb, text_lt, is_some, if◌then◌else◌,
}
use incremental_cdc_data_pla.Watermark.Models.{
  WatermarkRunStatus, running, failed, CompositeWatermark, initial, watermark_eq, watermark_gt,
}

-- What an operation raises, by class.
pub data Error : Type 0 where
  commit_error concurrency_error extraction_error watermark_error : Error
  runtime_error file_not_found : Error

-- `error_message`: the text of an error, or the note of `mark_superseded`.
pub data Message : Type 0 where
  of_error : Error → Message
  superseded_by : String → Message

pub record WatermarkState : Type 0 where
  pub table_name : String
  pub watermark_column : String
  pub tie_breaker_column : String
  pub last_watermark : CompositeWatermark
  pub version : ℕ
  pub last_success_run_id : Option String
  pub updated_at : String

pub record WatermarkRunAudit : Type 0 where
  pub run_id : String
  pub table_name : String
  pub expected_version : Option ℕ
  pub batch_id : Option String
  pub low_watermark : CompositeWatermark
  pub high_watermark : CompositeWatermark
  pub status : WatermarkRunStatus
  pub rows_extracted : ℕ
  pub landing_path : Option String
  pub started_at : String
  pub completed_at : Option String
  pub error_message : Option Message

-- The tables `watermark_state` and `watermark_run_audit`.
pub record ControlStore : Type 0 where
  pub states : List WatermarkState
  pub audits : List WatermarkRunAudit

pub data Result {ℓ} (A : Type ℓ) : Type ℓ where
  ok : A → Result A
  raise : Error → Result A

-- What was written before a raise stays written, so the store comes back beside the error too.
abbrev pub Action : Type 0 → Type 0
Action A = ControlStore → Result A × ControlStore

infixl 5 ◌>>=◌ ◌>>◌
abbrev pub ◌>>=◌ : {A B : Type 0} → Action A → (A → Action B) → Action B
◌>>=◌ m f s = let (r, s') = m s in elim r [ ok a ↦ f a s' | raise e ↦ (raise e, s') ]

abbrev pub ◌>>◌ : {A B : Type 0} → Action A → Action B → Action B
m >> k = m >>= λ _. k

-- `_transaction`: a raise inside rolls the store back.
abbrev pub transaction : {A : Type 0} → Action A → Action A
transaction m s = let (r, s') = m s in elim r [ ok a ↦ (ok a, s') | raise e ↦ (raise e, s) ]

-- `except Exception as e: raise WatermarkCommitError(…) from e`
abbrev pub or_commit_error : {A : Type 0} → Action A → Action A
or_commit_error m s =
    let (r, s') = m s in elim r [ ok a ↦ (ok a, s') | raise e ↦ (raise commit_error, s') ]

abbrev pub raise_if : Bool → Error → Action Unit
raise_if c e s = (if c then raise e else ok tt, s)

abbrev pub or_raise : {A : Type 0} → Option A → Error → Action A
or_raise none e s = (raise e, s)
or_raise (some a) e s = (ok a, s)

abbrev pub is_table : String → WatermarkState → Bool
is_table t s = s.table_name == t

abbrev pub is_run : String → WatermarkRunAudit → Bool
is_run r a = a.run_id == r

abbrev pub state_of : String → ControlStore → Option WatermarkState
state_of t s = find_where (is_table t) s.states

-- `SELECT … WHERE run_id = ?`
abbrev pub get_run_audit : String → ControlStore → Option WatermarkRunAudit
get_run_audit r s = find_where (is_run r) s.audits

unfoldable pub new_state : String → String → String → String → WatermarkState
new_state t wc tc now = record {
  table_name = t;
  watermark_column = wc;
  tie_breaker_column = tc;
  last_watermark = initial;
  version = 1;
  last_success_run_id = none;
  updated_at = now;
}

-- `INSERT OR IGNORE`
insert_or_ignore : WatermarkState → Action Unit
insert_or_ignore row s = (
  ok tt,
  if is_some (state_of row.table_name s) then s else record s { states = s.states ++ row ∷ [] },
)

unfoldable pub get_or_create_watermark_state :
    String → String → String → String → Action WatermarkState
unfolding new_state insert_or_ignore
get_or_create_watermark_state t wc tc now =
    transaction
      do insert_or_ignore (new_state t wc tc now); (λ s. or_raise (state_of t s) commit_error s)

-- `INSERT`; the primary key `run_id` refuses a second row.
unfoldable pub start_run_audit : WatermarkRunAudit → Action Unit
start_run_audit a = or_commit_error (
    transaction (λ s.
      if is_some (get_run_audit a.run_id s)
      then (raise commit_error, s)
      else (ok tt, record s { audits = s.audits ++ a ∷ [] })))

update_audits : (WatermarkRunAudit → Bool) → (WatermarkRunAudit → WatermarkRunAudit) → Action Unit
update_audits p f s = (ok tt, record s { audits = update_where p f s.audits })

unfoldable pub set_window :
    ℕ → CompositeWatermark → CompositeWatermark → String → WatermarkRunAudit → WatermarkRunAudit
set_window v low high batch a = record a {
  expected_version = some v;
  low_watermark = low;
  high_watermark = high;
  batch_id = some batch;
}

unfoldable pub update_run_audit_window :
    String → ℕ → CompositeWatermark → CompositeWatermark → String → Action Unit
unfolding update_audits set_window
update_run_audit_window r v low high batch =
    or_commit_error (transaction (update_audits (is_run r) (set_window v low high batch)))

abbrev is_open : WatermarkRunStatus → Bool
is_open failed = true
is_open running = true
is_open _ = false

-- The `WHERE` clause of `get_recoverable_window`.
unfoldable pub is_candidate : String → WatermarkRunAudit → Bool
is_candidate t a =
    a.table_name == t
    && (is_open a.status && (is_some a.expected_version && is_some a.high_watermark.timestamp))

-- `ORDER BY started_at DESC, rowid DESC` of rows in rowid order.
unfoldable pub insert_desc : WatermarkRunAudit → List WatermarkRunAudit → List WatermarkRunAudit
insert_desc a [] = a ∷ []
insert_desc a (b ∷ l) = if text_lt a.started_at b.started_at then b ∷ insert_desc a l else a ∷ b ∷ l

unfoldable pub order_from : List WatermarkRunAudit → List WatermarkRunAudit → List WatermarkRunAudit
order_from acc [] = acc
order_from acc (a ∷ l) = order_from (insert_desc a acc) l

unfoldable pub order_desc : List WatermarkRunAudit → List WatermarkRunAudit
unfolding insert_desc order_from
order_desc l = order_from [] l

unfoldable pub get_table_audit_history : String → ControlStore → List WatermarkRunAudit
get_table_audit_history t s = order_desc (keep (λ a. a.table_name == t) s.audits)

abbrev pub first : List WatermarkRunAudit → Option WatermarkRunAudit
first [] = none
first (a ∷ l) = some a

abbrev same_version : Option ℕ → ℕ → Bool
same_version none v = false
same_version (some u) v = eqb u v

-- The eligibility test of a candidate against the persisted state.
unfoldable pub is_eligible : WatermarkState → WatermarkRunAudit → Bool
is_eligible st a =
    same_version a.expected_version st.version
    && (watermark_eq a.low_watermark st.last_watermark
        && (watermark_gt a.high_watermark a.low_watermark && is_some a.batch_id))

unfoldable pub eligible_only : WatermarkState → Option WatermarkRunAudit → Option WatermarkRunAudit
eligible_only st none = none
eligible_only st (some a) = if is_eligible st a then some a else none

-- The columns of the call to `get_or_create_watermark_state` are its defaults.
unfoldable pub get_recoverable_window : String → String → Action (Option WatermarkRunAudit)
unfolding eligible_only
get_recoverable_window t now = do
  current ← get_or_create_watermark_state t "updated_at" "id" now
  (λ s. (ok (eligible_only current (first (order_desc (keep (is_candidate t) s.audits)))), s))
