-- ===== src/Base/Rows.antt =====
-- Tables as lists of rows: `UPDATE … WHERE`, `SELECT … WHERE`, and what one leaves for the other.
use Prim.Native.Nat.{ℕ}
use mathlib.Core.Path.{◌≡◌, refl, ap}
use mathlib.Core.Bool.{Bool, true, false}
use mathlib.Core.Option.{Option, none, some}
use mathlib.Core.List.{List, [], ◌∷◌, ◌++◌, map}
use native.Mathlib.Omega.{arith}
use incremental_cdc_data_pla.Base.Tests.{eqb, leb, is_some, if◌then◌else◌}
use incremental_cdc_data_pla.Base.Lists.{length, keep}

-- `UPDATE … SET … WHERE`, and its `rowcount`.
module _ {A : Type 0} where
  unfoldable pub update_where : (A → Bool) → (A → A) → List A → List A
  update_where p f [] = []
  update_where p f (x ∷ xs) = (if p x then f x else x) ∷ update_where p f xs

  unfoldable pub count_where : (A → Bool) → List A → ℕ
  count_where p xs = length (keep p xs)

  -- `fetchone` of a `SELECT … WHERE`.
  unfoldable pub find_where : (A → Bool) → List A → Option A
  find_where p [] = none
  find_where p (x ∷ xs) = if p x then some x else find_where p xs

abbrev pub map_option : {A B : Type 0} → (A → B) → Option A → Option B
map_option f none = none
map_option f (some a) = some (f a)

abbrev value_or {ℓ} : {A : Type ℓ} → A → Option A → A
value_or a none = a
value_or a (some b) = b

pub some_injective {ℓ} : {A : Type ℓ} {a b : A} → some a ≡ some b → a ≡ b
some_injective {a} h = ap (value_or a) h

-- The value, if it passes a test.
abbrev pub select : {A : Type 0} → (A → Bool) → Option A → Option A
select q none = none
select q (some a) = if q a then some a else none

module _ {A : Type 0} where
  -- A later `SELECT … WHERE q` sees the rows of `q` updated where `p` matched, if the update does
  -- not change what `q` reads.
  pub find_where-update_where :
      (p q : A → Bool) (f : A → A) (xs : List A)
      → ((a : A) → q (f a) ≡ q a)
      → find_where q (update_where p f xs)
        ≡ map_option (λ a. if p a then f a else a) (find_where q xs)
  unfolding find_where update_where
  find_where-update_where p q f [] h = refl
  find_where-update_where p q f (x ∷ xs) h = ground (arith, h x, find_where-update_where p q f xs h)

  pub find_where-append :
      (p : A → Bool) (xs ys : List A)
      → find_where p (xs ++ ys)
        ≡ (if is_some (find_where p xs) then find_where p xs else find_where p ys)
  unfolding find_where
  find_where-append p [] ys = refl
  find_where-append p (x ∷ xs) ys = ground (arith, find_where-append p xs ys)

  -- What a `SELECT` returns satisfies its condition.
  pub find_where_sound :
      (p : A → Bool) (xs : List A) (a : A) → find_where p xs ≡ some a → p a ≡ true
  unfolding find_where
  find_where_sound p [] a h = cc
  find_where_sound p (x ∷ xs) a h = ground (arith, find_where_sound p xs a)

  -- No row matches exactly when a `SELECT` finds none.
  pub count_where-zero :
      (p : A → Bool) (xs : List A)
      → eqb (count_where p xs) 0 ≡ (if is_some (find_where p xs) then false else true)
  unfolding find_where count_where
  count_where-zero p [] = refl
  count_where-zero p (x ∷ xs) = ground (arith, count_where-zero p xs)

  pub find_where-map :
      {B : Type 0} (p : A → Bool) (f : B → A) (ys : List B)
      → find_where p (map f ys) ≡ map_option f (find_where (λ y. p (f y)) ys)
  unfolding find_where
  find_where-map p f [] = refl
  find_where-map p f (y ∷ ys) = ground (arith, find_where-map p f ys)

  find_where-keep-none :
      (p q : A → Bool) (xs : List A) → find_where p xs ≡ none → find_where p (keep q xs) ≡ none
  unfolding find_where
  find_where-keep-none p q [] h = refl
  find_where-keep-none p q (x ∷ xs) h = ground (arith, find_where-keep-none p q xs)

  -- The row that two conditions select, where the first selects one row at most.
  pub find_where-keep :
      (p q : A → Bool) (xs : List A)
      → leb (length (keep p xs)) 1 ≡ true
      → find_where p (keep q xs) ≡ select q (find_where p xs)
  unfolding find_where count_where
  find_where-keep p q [] h = refl
  find_where-keep p q (x ∷ xs) h =
      ground (arith, find_where-keep p q xs, find_where-keep-none p q xs, count_where-zero p xs)
