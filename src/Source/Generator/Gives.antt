-- ===== src/Source/Generator/Gives.antt =====
-- What the loops and the draws of src/source/generator.py give.
use mathlib.Core.List.Memᴰ
use mathlib.Core.List.{Memᴰ}
use incremental_cdc_data_pla.Base.{
  ℕ, zero, suc, ◌+◌, ◌-◌, ◌<◌, ◌≤◌, String, ◌≡◌, refl, sym, ◌∙◌, ap, Option, some, some_injective,
  List, [], ◌∷◌, map, length, All, arith, ◌==◌, eq_iff, Dict, lookup, insert, lookup-insert, eqb,
  ◌⊎◌, inl, inr, Bool-cases, subst,
}
use incremental_cdc_data_pla.Source.{Runtime, ◌>>=◌}
use incremental_cdc_data_pla.Source.Generator.{Random, item_at, cycled, SnapshotConfig, pick, each}
use incremental_cdc_data_pla.Source.Generator.Snapshot.{index_by, keys}

-- There is a result, and it meets a condition.
abbrev pub Gives {ℓ κ} : {A : Type ℓ} → (A → Type κ) → Option A → Type (ℓ ⊔ κ)
Gives {A = A} P o = (a : A) × (o ≡ some a) × P a

pub Gives-bind {ℓ κ μ ν} :
    {A : Type ℓ} {B : Type κ} (P : A → Type μ) (Q : B → Type ν) (o : Option A) (f : A → Option B)
    → Gives P o
    → ((a : A) → P a → Gives Q (f a))
    → Gives Q (o >>= f)
Gives-bind P Q o f (a, e, p) h = rw e (h a p)

-- `randint(a, b)` is between `a` and `b`.
pub record IsRandom (r : Random) : Type 0 where
  pub at_least : (a b : ℕ) (s : r.State) → a ≤ b → a ≤ (r.randint a b s).0
  pub at_most : (a b : ℕ) (s : r.State) → a ≤ b → (r.randint a b s).0 ≤ b

-- The names of `n` rows from the round `i`.
abbrev pub numbered : (ℕ → String) → ℕ → ℕ → List String
numbered name zero i = []
numbered name (suc n) i = name i ∷ numbered name n (suc i)

pub length-map : {A B : Type 0} (f : A → B) (xs : List A) → length (map f xs) ≡ length xs
length-map f [] = refl
length-map f (x ∷ xs) = ap suc (length-map f xs)

length-numbered : (name : ℕ → String) (n i : ℕ) → length (numbered name n i) ≡ n
length-numbered name zero i = refl
length-numbered name (suc n) i = ap suc (length-numbered name n (suc i))

pub numbered-length :
    {A : Type 0} (id : A → String) (name : ℕ → String) (n i : ℕ) (xs : List A)
    → map id xs ≡ numbered name n i
    → length xs ≡ n
numbered-length id name n i xs h = sym (length-map id xs) ∙ ap length h ∙ length-numbered name n i

item_at-Gives :
    {A : Type 0} (i : ℕ) (xs : List A) → i < length xs → Gives (λ x. Memᴰ x xs) (item_at i xs)
unfolding item_at
item_at-Gives i [] h = absurd (omega (arith, h))
item_at-Gives zero (x ∷ xs) h = (x, refl, Memᴰ.head refl)
item_at-Gives (suc i) (x ∷ xs) h =
    let (y, e, m) = item_at-Gives i xs (omega (arith, h)) in (y, e, Memᴰ.tail m)

pub cycled-Gives :
    {A : Type 0} (i : ℕ) (xs : List A) → 0 < length xs → Gives (λ x. Memᴰ x xs) (cycled i xs)
unfolding cycled
cycled-Gives i xs h = elim (Bool-cases (eqb (length xs) 0)) [
  | inl none_there ↦ absurd (ground (arith, h, none_there))
  | inr there ↦ rw there (item_at-Gives _ xs (omega (arith, h)))
]

-- The rows of a list and their id; what is found for an id.
index_by-insert : {A : Type 0} (k : String) (v : A) (d : Dict A) → 0 < length (keys (insert k v d))
unfolding insert
index_by-insert k v [] = omega arith
index_by-insert k v ((j, w) ∷ d) = ground arith

index_by-nonempty :
    {A : Type 0} (id : A → String) (xs : List A) (d : Dict A)
    → 0 < length (keys d)
    → 0 < length (keys (index_by id xs d))
unfolding index_by
index_by-nonempty id [] d h = h
index_by-nonempty id (x ∷ xs) d h =
    index_by-nonempty id xs (insert (id x) x d) (index_by-insert (id x) x d)

pub length-index_by :
    {A : Type 0} (id : A → String) (xs : List A)
    → 0 < length xs
    → 0 < length (keys (index_by id xs []))
unfolding index_by
length-index_by id [] h = absurd (omega (arith, h))
length-index_by id (x ∷ xs) h =
    index_by-nonempty id xs (insert (id x) x []) (index_by-insert (id x) x [])

pub index_by-lookup :
    {A : Type 0} (id : A → String) (xs : List A) (d : Dict A) (k : String) (x : A)
    → lookup k (index_by id xs d) ≡ some x
    → (Memᴰ x xs × (id x ≡ k)) ⊎ (lookup k d ≡ some x)
unfolding index_by
index_by-lookup id [] d k x h = inr h
index_by-lookup id (y ∷ xs) d k x h = elim (index_by-lookup id xs (insert (id y) y d) k x h) [
  | inl (there, same) ↦ inl (Memᴰ.tail there, same)
  | inr before ↦ elim (Bool-cases (id y == k)) [
    | inl here ↦
        let is : y ≡ x = some_injective (rw (lookup-insert (id y) k y d, here) at before) in
        inl
          (subst (λ z. Memᴰ z (y ∷ xs) × (id z ≡ k)) is (Memᴰ.head refl, (eq_iff (id y) k).0 here))
    | inr other ↦ inr (rw (lookup-insert (id y) k y d, other) at before)
  ]
]

pub keys-lookup :
    {A : Type 0} (k : String) (d : Dict A)
    → Memᴰ k (keys d)
    → Gives (λ v. lookup k d ≡ some v) (lookup k d)
unfolding lookup
keys-lookup k [] m = absurd (Memᴰ.not-nil m)
keys-lookup k ((j, v) ∷ d) m = elim (Bool-cases (j == k)) [
  | inl here ↦ rw here (v, refl, refl)
  | inr other ↦ elim (Memᴰ.cases_cons m) [
    | inl same ↦ absurd (cc (sym other ∙ (eq_iff j k).1 (sym same)))
    | inr later ↦ rw other (keys-lookup k d later)
  ]
]

module _ (y : Runtime) (r : Random) (c : SnapshotConfig y) where
  pub pick-Gives :
      {A : Type 0} (xs : List A) (s : r.State)
      → IsRandom r
      → 0 < length xs
      → Gives (λ q. Memᴰ q.0 xs) (pick y r c xs s)
  pick-Gives xs s random h =
      let (x, e, m) =
        item_at-Gives (r.randint 0 (length xs - 1) s).0 xs
          (omega (arith, random.at_most 0 (length xs - 1) s (omega arith), h)) in
      rw e ((x, (r.randint 0 (length xs - 1) s).1), refl, m)

  -- The loop gives as many rows as it has rounds, named by the round.
  pub each-Gives :
      {A : Type 0} (P : A → Type 0) (id : A → String) (name : ℕ → String)
      (row : ℕ → r.State → Option (A × r.State)) (bound : ℕ)
      → ((i : ℕ) (s : r.State) → i < bound → Gives (λ q. P q.0 × (id q.0 ≡ name i)) (row i s))
      → (n i : ℕ) (s : r.State) → n + i ≤ bound
      → Gives (λ q. (map id q.0 ≡ numbered name n i) × All P q.0) (each y r c row n i s)
  unfolding each
  each-Gives P id name row bound h zero i s below = (([], s), refl, (refl, tt))
  each-Gives P id name row bound h (suc n) i s below =
      Gives-bind (λ q. P q.0 × (id q.0 ≡ name i))
        (λ q. (map id q.0 ≡ numbered name (suc n) i) × All P q.0) (row i s) _
        (h i s (omega (arith, below)))
        λ q p.
          Gives-bind (λ q. (map id q.0 ≡ numbered name n (suc i)) × All P q.0)
            (λ q. (map id q.0 ≡ numbered name (suc n) i) × All P q.0) (each y r c row n (suc i) q.1)
            _ (each-Gives P id name row bound h n (suc i) q.1 (omega (arith, below)))
            λ t ps. ((q.0 ∷ t.0, t.1), refl, (rw (p.1, ps.0) refl, (p.0, ps.1)))
