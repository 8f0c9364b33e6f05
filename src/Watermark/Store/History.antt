-- ===== src/Watermark/Store/History.antt =====
-- The order of audits in `get_table_audit_history` and in the query of `get_recoverable_window`
-- (src/watermark/control_store.py).
use mathlib.Core.List.{Perm, append-nil, perm_middle}
use mathlib.Core.List.Perm
use incremental_cdc_data_pla.Base.{
  String, ◌≡◌, inl, inr, Bool, true, false, Bool-cases, some, List, [], ◌∷◌, arith, text_lt,
  text_lt_irrefl, text_lt_asym, text_lt_weak, subst, ◌++◌, ◌==◌, keep, All,
}
use incremental_cdc_data_pla.Watermark.Store.{
  WatermarkRunAudit, ControlStore, is_candidate, order_desc, order_from, insert_desc, first,
  get_table_audit_history,
}

-- `a` is listed before `b` in `started_at DESC`.
abbrev pub NotBefore : WatermarkRunAudit → WatermarkRunAudit → Type 0
NotBefore a b = text_lt a.started_at b.started_at ≡ false

abbrev pub IsDescending : List WatermarkRunAudit → Type 0
IsDescending [] = Unit
IsDescending (a ∷ l) = All (NotBefore a) l × IsDescending l

module _ (P : WatermarkRunAudit → Type 0) where
  insert_desc-All :
      (a : WatermarkRunAudit) (l : List WatermarkRunAudit) → P a → All P l → All P (insert_desc a l)
  unfolding insert_desc
  insert_desc-All a [] h k = (h, tt)
  insert_desc-All a (b ∷ l) h k = ground (arith, insert_desc-All a l h k.1)

  order_from-All : (acc l : List WatermarkRunAudit) → All P acc → All P l → All P (order_from acc l)
  unfolding order_from
  order_from-All acc [] h k = h
  order_from-All acc (a ∷ l) h k =
      order_from-All (insert_desc a acc) l (insert_desc-All a acc k.0 h) k.1

  All-mono :
      (Q : WatermarkRunAudit → Type 0) (l : List WatermarkRunAudit)
      → ((a : WatermarkRunAudit) → P a → Q a)
      → All P l
      → All Q l
  All-mono Q [] f h = tt
  All-mono Q (a ∷ l) f h = (f a h.0, All-mono Q l f h.1)

module _ (P : WatermarkRunAudit → Type 0) where
  All-insert_desc :
      (a : WatermarkRunAudit) (l : List WatermarkRunAudit) → All P (insert_desc a l) → P a × All P l
  unfolding insert_desc
  All-insert_desc a [] h = h
  All-insert_desc a (b ∷ l) h = elim (Bool-cases (text_lt a.started_at b.started_at)) [
    | inl older ↦
        let k : All P (b ∷ insert_desc a l) = rw older at h in
        let (pa, pl) = All-insert_desc a l k.1 in (pa, (k.0, pl))
    | inr newer ↦ rw newer at h
  ]

  All-order_from : (acc l : List WatermarkRunAudit) → All P (order_from acc l) → All P acc × All P l
  unfolding order_from
  All-order_from acc [] h = (h, tt)
  All-order_from acc (a ∷ l) h =
      let (kept, rest) = All-order_from (insert_desc a acc) l h in
      let (pa, old) = All-insert_desc a acc kept in (old, (pa, rest))

pub keep_sound :
    (p : WatermarkRunAudit → Bool) (l : List WatermarkRunAudit) → All (λ a. p a ≡ true) (keep p l)
keep_sound p [] = tt
keep_sound p (a ∷ l) = elim (Bool-cases (p a)) [
  | inl in_p ↦ rw in_p (in_p, keep_sound p l)
  | inr out_p ↦ rw out_p (keep_sound p l)
]

insert_desc-IsDescending :
    (a : WatermarkRunAudit) (l : List WatermarkRunAudit)
    → IsDescending l
    → IsDescending (insert_desc a l)
unfolding insert_desc
insert_desc-IsDescending a [] h = (tt, tt)
insert_desc-IsDescending a (b ∷ l) h = elim (Bool-cases (text_lt a.started_at b.started_at)) [
  | inl older ↦ rw older (
    insert_desc-All (NotBefore b) a l (text_lt_asym a.started_at b.started_at older) h.0,
    insert_desc-IsDescending a l h.1,
  )
  | inr newer ↦ rw newer (
    (
      newer,
      All-mono (NotBefore b) (NotBefore a) l
          (λ c. text_lt_weak a.started_at b.started_at c.started_at newer) h.0,
    ),
    h,
  )
]

order_from-IsDescending :
    (acc l : List WatermarkRunAudit) → IsDescending acc → IsDescending (order_from acc l)
unfolding order_from
order_from-IsDescending acc [] h = h
order_from-IsDescending acc (a ∷ l) h =
    order_from-IsDescending (insert_desc a acc) l (insert_desc-IsDescending a acc h)

insert_desc-perm :
    (a : WatermarkRunAudit) (l : List WatermarkRunAudit) → Perm (insert_desc a l) (a ∷ l)
unfolding insert_desc
insert_desc-perm a [] = Perm.refl (a ∷ [])
insert_desc-perm a (b ∷ l) = elim (Bool-cases (text_lt a.started_at b.started_at)) [
  | inl older ↦ rw older (Perm.trans (Perm.cons b (insert_desc-perm a l)) (Perm.swap a b l))
  | inr newer ↦ rw newer (Perm.refl (a ∷ b ∷ l))
]

order_from-perm : (acc l : List WatermarkRunAudit) → Perm (order_from acc l) (l ++ acc)
unfolding order_from
order_from-perm acc [] = Perm.refl acc
order_from-perm acc (a ∷ l) =
    Perm.trans (order_from-perm (insert_desc a acc) l)
      (Perm.trans (Perm.append (Perm.refl l) (insert_desc-perm a acc)) (perm_middle l acc))

-- The audit history of a table has exactly the table's audits, the latest start first.
pub history_ordered :
    (t : String) (s : ControlStore)
    → Perm (get_table_audit_history t s) (keep (λ a. a.table_name == t) s.audits)
      × IsDescending (get_table_audit_history t s)
unfolding get_table_audit_history order_desc
history_ordered t s = (
  rw (append-nil (keep (λ a. a.table_name == t) s.audits)) at
      (order_from-perm [] (keep (λ a. a.table_name == t) s.audits)),
  order_from-IsDescending [] (keep (λ a. a.table_name == t) s.audits) tt,
)

first-newest :
    (l : List WatermarkRunAudit) (a : WatermarkRunAudit)
    → IsDescending l
    → first l ≡ some a
    → All (NotBefore a) l
first-newest [] a h e = tt
first-newest (b ∷ l) a h e =
    let same : b ≡ a = ground arith in
    subst (λ c. All (NotBefore c) (b ∷ l)) same (text_lt_irrefl b.started_at, h.0)

first-All :
    (P : WatermarkRunAudit → Type 0) (l : List WatermarkRunAudit) (a : WatermarkRunAudit)
    → All P l
    → first l ≡ some a
    → P a
first-All P [] a h e = cc
first-All P (b ∷ l) a h e = let same : b ≡ a = ground arith in subst P same h.0

-- The candidate that the query returns fits its condition, and none that fits started later.
pub candidate_lem :
    (t : String) (l : List WatermarkRunAudit) (a : WatermarkRunAudit)
    → first (order_desc (keep (is_candidate t) l)) ≡ some a
    → (is_candidate t a ≡ true) × All (NotBefore a) (keep (is_candidate t) l)
unfolding order_desc
candidate_lem t l a e =
    let k = keep (is_candidate t) l in
    (
      first-All (λ b. is_candidate t b ≡ true) (order_from [] k) a
          (order_from-All (λ b. is_candidate t b ≡ true) [] k tt (keep_sound (is_candidate t) l)) e,
      (All-order_from (NotBefore a) [] k
          (first-newest (order_from [] k) a (order_from-IsDescending [] k tt) e)).1,
    )
