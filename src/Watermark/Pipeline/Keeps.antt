-- ===== src/Watermark/Pipeline/Keeps.antt =====
-- Which programs of src/watermark/pipeline.py keep the rows of the checkpoint table.
use incremental_cdc_data_pla.Base.{
  find_where-append, ℕ, String, ◌≡◌, inl, inr, Bool, true, false, Option-cases, Option, some, [],
  ◌∷◌, arith, if◌then◌else◌,
}
use incremental_cdc_data_pla.Watermark.Models.{WatermarkRunStatus, running, CompositeWatermark}
use incremental_cdc_data_pla.Watermark.Store.{
  Error, Message, WatermarkState, WatermarkRunAudit, ControlStore, Result, ok, raise, state_of,
  get_or_create_watermark_state, start_run_audit, update_run_audit_window, get_recoverable_window,
  get_run_audit, is_table, new_state,
}
use incremental_cdc_data_pla.Watermark.Store.Commit.{
  mark_superseded, complete_run_audit, commit_successful_run,
}
use incremental_cdc_data_pla.Watermark.Store.Outcomes.{
  create_known, create_new, start_known, start_new,
}
use incremental_cdc_data_pla.Watermark.Source.{SourceAdapter}
use incremental_cdc_data_pla.Watermark.Pipeline.{
  World, Program, continue, ◌>>=◌, pure, on_store, from_source, raise_when, require_file,
  supersede_if_running,
}

-- Every row of `watermark_state` stands as it did.
abbrev pub Kept : ControlStore → ControlStore → Type 0
Kept s s' = (t : String) (st : WatermarkState) → state_of t s ≡ some st → state_of t s' ≡ some st

-- The program keeps the rows, however it ends.
pub record Keeps {A : Type 0} (m : Program A) : Type 0 where
  pub at : (w : World) → Kept w.store (m w).1.store

abbrev pub KeptIfRaised : {A : Type 0} → ControlStore → Result A × World → Type 0
KeptIfRaised s (ok a, w) = Unit
KeptIfRaised s (raise e, w) = Kept s w.store

-- The program keeps the rows if it raises.
pub record KeepsIfRaised {A : Type 0} (m : Program A) : Type 0 where
  pub at : (w : World) → KeptIfRaised w.store (m w)

module _ {A B : Type 0} (f : A → Program B) (s : ControlStore) where
  continue-Kept :
      (r : Result A) (u : World)
      → Kept s u.store
      → ((a : A) → Keeps (f a))
      → Kept s (continue r f u).1.store
  continue-Kept (ok a) u k kf = λ t st e. (kf a).at u t st (k t st e)
  continue-Kept (raise x) u k kf = k

  raised_later :
      (r : Result B) (u w : World)
      → Kept s u.store
      → KeptIfRaised u.store (r, w)
      → KeptIfRaised s (r, w)
  raised_later (ok b) u w k h = tt
  raised_later (raise x) u w k h = λ t st e. h t st (k t st e)

  continue-KeptIfRaised :
      (r : Result A) (u : World)
      → Kept s u.store
      → ((a : A) → KeepsIfRaised (f a))
      → KeptIfRaised s (continue r f u)
  continue-KeptIfRaised (ok a) u k kf = raised_later (f a u).0 u (f a u).1 k ((kf a).at u)
  continue-KeptIfRaised (raise x) u k kf = k

module _ {A B : Type 0} where
  pub Keeps-bind :
      (m : Program A) (f : A → Program B) → Keeps m → ((a : A) → Keeps (f a)) → Keeps (m >>= f)
  unfolding ◌>>=◌
  Keeps-bind m f km kf = record { at = λ w. continue-Kept f w.store (m w).0 (m w).1 (km.at w) kf }

  pub KeepsIfRaised-bind :
      (m : Program A) (f : A → Program B)
      → Keeps m
      → ((a : A) → KeepsIfRaised (f a))
      → KeepsIfRaised (m >>= f)
  unfolding ◌>>=◌
  KeepsIfRaised-bind m f km kf = record {
    at = λ w. continue-KeptIfRaised f w.store (m w).0 (m w).1 (km.at w) kf;
  }

module _ {A B : Type 0} where
  pure_last :
      (r : Result A) (g : A → B) (s : ControlStore) (u : World)
      → KeptIfRaised s (r, u)
      → KeptIfRaised s (continue r (λ a. pure (g a)) u)
  unfolding pure
  pure_last (ok a) g s u h = tt
  pure_last (raise x) g s u h = h

  pub KeepsIfRaised-bind_pure :
      (m : Program A) (g : A → B) → KeepsIfRaised m → KeepsIfRaised (m >>= λ a. pure (g a))
  unfolding ◌>>=◌
  KeepsIfRaised-bind_pure m g km = record {
    at = λ w. pure_last (m w).0 g w.store (m w).1 (km.at w);
  }

module _ {A : Type 0} where
  pub Keeps-pure : (a : A) → Keeps (pure a)
  unfolding pure
  Keeps-pure a = record { at = λ w t st e. e }

  pub Keeps-from_source : (f : SourceAdapter → Result A) → Keeps (from_source f)
  unfolding from_source
  Keeps-from_source f = record { at = λ w t st e. e }

  weaken : (r : Result A) (s : ControlStore) (u : World) → Kept s u.store → KeptIfRaised s (r, u)
  weaken (ok a) s u k = tt
  weaken (raise x) s u k = k

  pub KeepsIfRaised-if :
      (b : Bool) (m n : Program A)
      → KeepsIfRaised m
      → KeepsIfRaised n
      → KeepsIfRaised (if b then m else n)
  KeepsIfRaised-if true m n km kn = km
  KeepsIfRaised-if false m n km kn = kn

  pub KeepsIfRaised-Keeps : (m : Program A) → Keeps m → KeepsIfRaised m
  KeepsIfRaised-Keeps m k = record { at = λ w. weaken (m w).0 w.store (m w).1 (k.at w) }

pub Keeps-raise_when : (b : Bool) (e : Error) → Keeps (raise_when b e)
unfolding raise_when
Keeps-raise_when b e = record { at = λ w t st h. h }

pub Keeps-require_file : (path : String) → Keeps (require_file path)
unfolding require_file
Keeps-require_file path = record { at = λ w t st h. h }

create-Kept :
    (t wc tc now : String) (s : ControlStore)
    → Kept s (get_or_create_watermark_state t wc tc now s).1
create-Kept t wc tc now s = elim (Option-cases (state_of t s)) [
  | inl e ↦ rw (create_new t wc tc now s e) (λ u st found.
      ground (arith, find_where-append (is_table u) s.states (new_state t wc tc now ∷ [])))
  | inr (st, e) ↦ rw (create_known t wc tc now s st e) (λ u st found. found)
]

start-Kept : (a : WatermarkRunAudit) (s : ControlStore) → Kept s (start_run_audit a s).1
start-Kept a s = elim (Option-cases (get_run_audit a.run_id s)) [
  | inl e ↦ rw (start_new a s e) (λ u st found. found)
  | inr (b, e) ↦ rw (start_known a b s e) (λ u st found. found)
]

recoverable-store :
    (t now : String) (s : ControlStore)
    → (get_recoverable_window t now s).1
      ≡ (get_or_create_watermark_state t "updated_at" "id" now s).1
unfolding get_recoverable_window
recoverable-store t now s = ground arith

pub Keeps-create :
    (t wc tc now : String) → Keeps (on_store (get_or_create_watermark_state t wc tc now))
unfolding on_store
Keeps-create t wc tc now = record { at = λ w. create-Kept t wc tc now w.store }

pub Keeps-recoverable : (t now : String) → Keeps (on_store (get_recoverable_window t now))
unfolding on_store
Keeps-recoverable t now = record {
  at = λ w. rw (recoverable-store t now w.store) (create-Kept t "updated_at" "id" now w.store);
}

pub Keeps-start : (a : WatermarkRunAudit) → Keeps (on_store (start_run_audit a))
unfolding on_store
Keeps-start a = record { at = λ w. start-Kept a w.store }

pub Keeps-window :
    (r : String) (v : ℕ) (low high : CompositeWatermark) (batch : String)
    → Keeps (on_store (update_run_audit_window r v low high batch))
unfolding on_store update_run_audit_window
Keeps-window r v low high batch = record { at = λ w t st e. e }

pub Keeps-complete :
    (r : String) (status : WatermarkRunStatus) (rows : ℕ) (path : Option String)
    (message : Option Message) (done : String)
    → Keeps (on_store (complete_run_audit r status rows path message done))
unfolding on_store complete_run_audit
Keeps-complete r status rows path message done = record { at = λ w t st e. e }

pub Keeps-supersede :
    (status : WatermarkRunStatus) (r new_run now : String)
    → Keeps (on_store (supersede_if_running status r new_run now))
unfolding on_store mark_superseded
Keeps-supersede running r new_run now = record { at = λ w t st e. e }
Keeps-supersede _ r new_run now = record { at = λ w t st e. e }

abbrev RolledBack : {A : Type 0} → ControlStore → Result A × ControlStore → Type 0
RolledBack s (ok a, s') = Unit
RolledBack s (raise e, s') = s' ≡ s

commit-RolledBack :
    (t : String) (v : ℕ) (high : CompositeWatermark) (run : String) (rows : ℕ)
    (path done now : String) (s : ControlStore)
    → RolledBack s (commit_successful_run t v high run rows path done now s)
unfolding commit_successful_run
commit-RolledBack t v high run rows path done now s = ground arith

rolled_back-Kept :
    {A : Type 0} (r : Result A) (s' : ControlStore) (w : World)
    → RolledBack w.store (r, s')
    → KeptIfRaised w.store (r, record w { store = s' })
rolled_back-Kept (ok a) s' w h = tt
rolled_back-Kept (raise x) s' w h = λ t st e. rw h e

-- A refused commit is rolled back.
pub KeepsIfRaised-commit :
    (t : String) (v : ℕ) (high : CompositeWatermark) (run : String) (rows : ℕ)
    (path done now : String)
    → KeepsIfRaised (on_store (commit_successful_run t v high run rows path done now))
unfolding on_store
KeepsIfRaised-commit t v high run rows path done now = record {
  at = λ w.
      let m = commit_successful_run t v high run rows path done now w.store in
      rolled_back-Kept m.0 m.1 w (commit-RolledBack t v high run rows path done now w.store);
}

pub ruleset keeps_rules = (
  Keeps-bind, Keeps-pure, Keeps-from_source, Keeps-raise_when, Keeps-create, Keeps-recoverable,
  Keeps-start, Keeps-require_file, Keeps-window, Keeps-complete, Keeps-supersede,
)
