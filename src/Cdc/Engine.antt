-- ===== src/Cdc/Engine.antt =====
-- src/source/mutation_engine.py: the golden state of the source, and the application of change
-- events to it. A per-table dictionary of the class is a function of the table. `none` is a raise.
pub mod Batch
pub mod Replay
pub mod Snapshot
use incremental_cdc_data_pla.Base.{
  ℕ, ◌+◌, String, Bool, true, false, not, ◌&&◌, ◌||◌, Option, none, some, List, [], ◌∷◌, ◌++◌, ◌==◌,
  Dict, lookup, insert, erase, if◌then◌else◌, text_lt, sort_by,
}
use incremental_cdc_data_pla.Cdc.{
  ℤ, pos, le_int, Value, text, Fields, no_fields, get, has, add_field, CdcOperation, insert_op,
  update_op, delete_op, operation_of, CdcEvent, Table, accounts, subscriptions, invoices, payments,
  table_of, primary_key,
}
use incremental_cdc_data_pla.Cdc.Validator.{Message, ValidationResult, Timestamps, validate}

-- What the engine uses of Python: timestamps, `str` of a value that is no text, and
-- `str(sorted(business_key.items()))`.
pub record External : Type 0 where
  pub timestamps : Timestamps
  pub str : Value → String
  pub key_text : Fields → String

-- `str(v)`
abbrev pub str_of : External → Value → String
str_of x (text s) = s
str_of x v = x.str v

pub record Engine : Type 0 where
  pub tables : Table → Dict Fields
  pub entity_sequences : Table → Dict ℤ
  pub seen_event_ids : List String

abbrev pub same_table : Table → Table → Bool
same_table accounts accounts = true
same_table subscriptions subscriptions = true
same_table invoices invoices = true
same_table payments payments = true
same_table _ _ = false

-- `d[t] = …` on the dictionaries of a table.
unfoldable pub set_table : {A : Type 0} → Table → A → (Table → A) → Table → A
set_table t a f u = if same_table t u then a else f u

-- `event_id in self._seen_event_ids`, and `add`.
unfoldable pub is_seen : String → List String → Bool
is_seen i [] = false
is_seen i (j ∷ l) = j == i || is_seen i l

unfoldable pub mark_seen : String → Engine → Engine
mark_seen i s = record s { seen_event_ids = i ∷ s.seen_event_ids }

abbrev pub or_zero : Option ℤ → ℤ
or_zero none = pos 0
or_zero (some n) = n

-- `current_max_seq`
unfoldable pub current_sequence : Table → String → Engine → ℤ
current_sequence t k s = or_zero (lookup k (s.entity_sequences t))

abbrev pub max_int : ℤ → ℤ → ℤ
max_int a b = if le_int b a then a else b

abbrev pub or_empty : Option Fields → Fields
or_empty none = no_fields
or_empty (some d) = d

-- `record_payload["updated_at"]` is filled in where it lacks.
unfoldable pub with_updated_at : String → Fields → Fields
with_updated_at ts d = if has "updated_at" d then d else add_field "updated_at" (text ts) d

-- The four branches on the operation.
unfoldable pub mutate : Option CdcOperation → CdcEvent → String → Dict Fields → Dict Fields
mutate none e k rows = rows
mutate (some insert_op) e k rows = insert k (or_empty e.payload) rows
mutate (some update_op) e k rows =
    insert k (with_updated_at e.event_timestamp (or_empty e.payload)) rows
mutate (some delete_op) e k rows = erase k rows

-- Steps 4 of `apply_event`: the table, the sequence of the entity and the identity of the event.
unfoldable pub write_event : CdcEvent → Table → String → Engine → Engine
unfolding mutate
write_event e t k s = record {
  tables = set_table t (mutate (operation_of e.operation) e k (s.tables t)) s.tables;
  entity_sequences =
      set_table t
        (insert k (max_int (current_sequence t k s) e.sequence_number) (s.entity_sequences t))
        s.entity_sequences;
  seen_event_ids = e.event_id ∷ s.seen_event_ids;
}

abbrev pub key_in : External → Fields → Option Table → Option (Table × String)
key_in x d none = none
key_in x d (some t) =
    if has (primary_key t) d then some (t, str_of x (get (primary_key t) d)) else none

-- `table_name`, `pk_val`: a missing table or key would raise.
unfoldable pub entity_of : External → CdcEvent → Option (Table × String)
entity_of x e = key_in x e.business_key (table_of e.table_name)

-- Steps 3 and 4 for an event of a known entity.
unfoldable pub apply_to : Bool → CdcEvent → Table × String → Engine → Bool × Engine
apply_to enforce e (t, k) s =
    if enforce && le_int e.sequence_number (current_sequence t k s)
    then (false, mark_seen e.event_id s)
    else (true, write_event e t k s)

abbrev pub apply_found : Bool → CdcEvent → Option (Table × String) → Engine → Option (Bool × Engine)
apply_found enforce e none s = none
apply_found enforce e (some at) s = some (apply_to enforce e at s)

abbrev pub apply_checked :
    External → Bool → CdcEvent → Option ValidationResult → Engine → Option (Bool × Engine)
apply_checked x enforce e none s = none
apply_checked x enforce e (some r) s =
    if not r.is_valid
    then some (false, s)
    else if is_seen e.event_id s.seen_event_ids
    then some (false, s)
    else apply_found enforce e (entity_of x e) s

unfoldable pub apply_event : External → Bool → CdcEvent → Engine → Option (Bool × Engine)
apply_event x enforce e s = apply_checked x enforce e (validate x.timestamps e) s

pub record MutationResult : Type 0 where
  pub applied_count : ℕ
  pub duplicate_count : ℕ
  pub stale_sequence_count : ℕ
  pub invalid_count : ℕ
  pub errors : List Message

abbrev pub no_result : MutationResult
no_result = record {
  applied_count = 0;
  duplicate_count = 0;
  stale_sequence_count = 0;
  invalid_count = 0;
  errors = [];
}

-- `if applied: result.applied_count += 1`
abbrev pub count_applied :
    MutationResult → Option (Bool × Engine) → Option (MutationResult × Engine)
count_applied m none = none
count_applied m (some (true, s)) = some (record m { applied_count = m.applied_count + 1 }, s)
count_applied m (some (false, s)) = some (m, s)

abbrev pub batch_found :
    External
    → CdcEvent
    → Option (Table × String)
    → MutationResult
    → Engine
    → Option (MutationResult × Engine)
batch_found x e none m s = none
batch_found x e (some (t, k)) m s =
    if le_int e.sequence_number (current_sequence t k s)
    then some
        (record m { stale_sequence_count = m.stale_sequence_count + 1 }, mark_seen e.event_id s)
    else count_applied m (apply_event x true e s)

abbrev pub batch_checked :
    External
    → CdcEvent
    → Option ValidationResult
    → MutationResult
    → Engine
    → Option (MutationResult × Engine)
batch_checked x e none m s = none
batch_checked x e (some r) m s =
    if not r.is_valid
    then some (record m { invalid_count = m.invalid_count + 1; errors = m.errors ++ r.errors }, s)
    else if is_seen e.event_id s.seen_event_ids
    then some (record m { duplicate_count = m.duplicate_count + 1 }, s)
    else batch_found x e (entity_of x e) m s

-- The body of the loop of `apply_batch`.
unfoldable pub batch_step :
    External → CdcEvent → MutationResult → Engine → Option (MutationResult × Engine)
batch_step x e m s = batch_checked x e (validate x.timestamps e) m s

unfoldable pub apply_all :
    External → List CdcEvent → MutationResult → Engine → Option (MutationResult × Engine)
apply_all x [] m s = some (m, s)
apply_all x (e ∷ es) m s = elim (batch_step x e m s) [
  | none ↦ none
  | some (m', s') ↦ apply_all x es m' s'
]

-- The key of the sort: table, business key, sequence number.
unfoldable pub event_lt : External → CdcEvent → CdcEvent → Bool
event_lt x a b =
    if text_lt a.table_name b.table_name
    then true
    else if a.table_name == b.table_name
    then (if text_lt (x.key_text a.business_key) (x.key_text b.business_key)
        then true
        else if x.key_text a.business_key == x.key_text b.business_key
        then not (le_int b.sequence_number a.sequence_number)
        else false)
    else false

unfoldable pub apply_batch :
    External → Bool → List CdcEvent → Engine → Option (MutationResult × Engine)
apply_batch x sorts es s = apply_all x (if sorts then sort_by (event_lt x) es else es) no_result s
