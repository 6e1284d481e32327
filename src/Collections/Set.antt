-- ===== src/Collections/Set.antt =====
-- `HashSet<T>`: `contains`, `insert`, `remove`, `is_empty` and the iterator with a filter.
use vtnet.Base.{
  Eq, eq?, ◌≡◌, refl, ◌≢◌, ite, Bool, true, false, List, [], ◌∷◌, arith, if◌then◌else◌, ℕ, ◌+◌,
}

module _ {A : Type 0} ⦃e : Eq A⦄ where
  unfoldable pub contains : A → List A → Bool
  contains a [] = false
  contains a (x ∷ xs) = ite (eq? a x) true (contains a xs)

  unfoldable pub insert : A → List A → List A
  insert a s = if contains a s then s else a ∷ s

  -- A set holds an element once; every copy goes.
  unfoldable pub remove : A → List A → List A
  remove a [] = []
  remove a (x ∷ xs) = let rest = remove a xs in ite (eq? a x) rest (x ∷ rest)

  -- `.iter().filter(|x| *x != a)`
  unfoldable pub without : A → List A → List A
  without a [] = []
  without a (x ∷ xs) = let rest = without a xs in ite (eq? x a) rest (x ∷ rest)

  unfoldable pub count : A → List A → ℕ
  count a [] = 0
  count a (x ∷ xs) = ite (eq? a x) 1 0 + count a xs

  -- The list holds no element twice, as the elements of a set.
  abbrev pub Distinct : List A → Type 0
  Distinct [] = Unit {0}
  Distinct (x ∷ xs) = (contains x xs ≡ false) × Distinct xs

  pub contains-insert :
      (b a : A) (s : List A) → contains b (insert a s) ≡ ite (eq? b a) true (contains b s)
  unfolding contains insert
  contains-insert b a s = ground arith

  pub contains-remove :
      (b a : A) (s : List A) → contains b (remove a s) ≡ ite (eq? b a) false (contains b s)
  unfolding contains remove
  contains-remove b a [] = ground arith
  contains-remove b a (x ∷ s) = ground (arith, contains-remove b a s)

  pub contains-without :
      (b a : A) (s : List A) → contains b (without a s) ≡ ite (eq? b a) false (contains b s)
  unfolding contains without
  contains-without b a [] = ground arith
  contains-without b a (x ∷ s) = ground (arith, contains-without b a s)

  pub insert-Distinct : (a : A) (s : List A) → Distinct s → Distinct (insert a s)
  unfolding insert
  insert-Distinct a s d = ground arith

  pub insert-ne-nil : (a : A) (s : List A) → insert a s ≢ []
  unfolding insert contains
  insert-ne-nil a [] h = cc
  insert-ne-nil a (x ∷ s) h = ground arith

  pub remove-Distinct : (a : A) (s : List A) → Distinct s → Distinct (remove a s)
  unfolding remove
  remove-Distinct a [] d = tt
  remove-Distinct a (x ∷ s) d = ground (arith, remove-Distinct a s d.1, contains-remove x a s)

  pub without-Distinct : (a : A) (s : List A) → Distinct s → Distinct (without a s)
  unfolding without
  without-Distinct a [] d = tt
  without-Distinct a (x ∷ s) d = ground (arith, without-Distinct a s d.1, contains-without x a s)

  -- An element of a set is met once by its iterator, and any other never.
  pub count-Distinct :
      (a : A) (s : List A) → Distinct s → count a s ≡ (if contains a s then 1 else 0)
  unfolding contains count
  count-Distinct a [] d = refl
  count-Distinct a (x ∷ s) d = ground (arith, count-Distinct a s d.1)
