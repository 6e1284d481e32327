-- ===== src/Collections/Map.antt =====
-- `HashMap<K, V>`: `get`, `contains_key`, `insert`, `remove`, and what `entry().or_default()` and
-- `get_mut` amount to, a read followed by a write under the same key.
use vtnet.Base.{
  Eq, eq?, ◌≡◌, ite, Bool, Option, none, some, List, [], ◌∷◌, arith, is_some, ◌≢◌, ◌∙◌, if_neg,
}

abbrev pub HashMap : Type 0 → Type 0 → Type 0
HashMap K V = List (K × V)

module _ {K V : Type 0} ⦃e : Eq K⦄ where
  unfoldable pub get : K → HashMap K V → Option V
  get k [] = none
  get k ((j, v) ∷ m) = ite (eq? k j) (some v) (get k m)

  abbrev pub contains_key : K → HashMap K V → Bool
  contains_key k m = is_some (get k m)

  -- A map holds a key once; every entry of the key goes.
  unfoldable pub remove : K → HashMap K V → HashMap K V
  remove k [] = []
  remove k ((j, v) ∷ m) = let rest = remove k m in ite (eq? k j) rest ((j, v) ∷ rest)

  unfoldable pub insert : K → V → HashMap K V → HashMap K V
  insert k v m = (k, v) ∷ remove k m

  pub get-remove : (j k : K) (m : HashMap K V) → get j (remove k m) ≡ ite (eq? j k) none (get j m)
  unfolding get remove
  get-remove j k [] = ground arith
  get-remove j k ((i, v) ∷ m) = ground (arith, get-remove j k m)

  pub get-insert :
      (j k : K) (v : V) (m : HashMap K V) → get j (insert k v m) ≡ ite (eq? j k) (some v) (get j m)
  unfolding get insert
  get-insert j k v m = ground (arith, get-remove j k m)

  pub get-remove_ne : (j k : K) (m : HashMap K V) → j ≢ k → get j (remove k m) ≡ get j m
  get-remove_ne j k m n = get-remove j k m ∙ if_neg (eq? j k) n none (get j m)

  pub get-insert_ne : (j k : K) (v : V) (m : HashMap K V) → j ≢ k → get j (insert k v m) ≡ get j m
  get-insert_ne j k v m n = get-insert j k v m ∙ if_neg (eq? j k) n (some v) (get j m)
