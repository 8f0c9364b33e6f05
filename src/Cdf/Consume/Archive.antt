-- ===== src/Cdf/Consume/Archive.antt =====
-- The archive of src/cdf/archive.py takes each change once.
use incremental_cdc_data_pla.Base.{
  String, ◌≡◌, refl, ap, true, ◌||◌, Option, none, some, List, [], ◌∷◌, ◌++◌, arith, Dict, lookup,
  insert, lookup-insert, eq_refl, All, All-map,
}
use incremental_cdc_data_pla.Cdf.Consume.{Change, has_change, unmatched, archived, write_changes}

has_change-append :
    (i : String) (xs ys : List Change)
    → has_change i (xs ++ ys) ≡ (has_change i xs || has_change i ys)
has_change-append i [] ys = refl
has_change-append i (x ∷ xs) ys = ground (arith, has_change-append i xs ys)

covered :
    (old new : List Change)
    → All
        (λ c. (has_change c.change_id old || has_change c.change_id (unmatched old new)) ≡ true)
        new
unfolding unmatched
covered old [] = tt
covered old (c ∷ new) =
    (ground (arith, eq_refl c.change_id), All-map _ _ new (λ b h. ground arith) (covered old new))

itself : (new : List Change) → All (λ c. has_change c.change_id new ≡ true) new
itself [] = tt
itself (c ∷ new) =
    (ground (arith, eq_refl c.change_id), All-map _ _ new (λ b h. ground arith) (itself new))

archived-covers :
    (old : Option (List Change)) (new : List Change)
    → All (λ c. has_change c.change_id (archived old new) ≡ true) new
archived-covers none new = itself new
archived-covers (some old) new =
    All-map _ _ new (λ b h. ground (arith, has_change-append b.change_id old (unmatched old new)))
      (covered old new)

unmatched-none :
    (old new : List Change)
    → All (λ c. has_change c.change_id old ≡ true) new
    → unmatched old new ≡ []
unfolding unmatched
unmatched-none old [] h = refl
unmatched-none old (c ∷ new) h = ground (arith, h.0, unmatched-none old new h.1)

append_nil : (l : List Change) → l ++ [] ≡ l
append_nil [] = refl
append_nil (c ∷ l) = ap (c ∷◌) (append_nil l)

-- Changes that are written a second time are not inserted again, and leave the archive of every
-- table as it is.
pub write_changes_replay :
    (t : String) (changes : List Change) (a : Dict (List Change))
    → let (n, once) = write_changes t changes a in
      let (m, twice) = write_changes t changes once in
      (m ≡ 0) × ((u : String) → lookup u twice ≡ lookup u once)
unfolding write_changes
write_changes_replay t [] a = (refl, λ u. refl)
write_changes_replay t (c ∷ cs) a =
    let new = c ∷ cs in
    let kept = archived (lookup t a) new in
    let there : lookup t (insert t kept a) ≡ some kept =
      ground (arith, lookup-insert t t kept a, eq_refl t) in
    let none_left = unmatched-none kept new (archived-covers (lookup t a) new) in
    rw (there, none_left, append_nil kept)
      (
        omega arith,
        λ u. ground (arith, lookup-insert t u kept (insert t kept a), lookup-insert t u kept a),
      )
