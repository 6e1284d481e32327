-- ===== src/Base/Tests.antt =====
-- Rust's `==` on types that derive `Eq`, tests on the native numbers, and `Result`.
use Prim.Native.Nat.{ℕ, ◌≤◌, ◌<◌, compare, Ordering}
use mathlib.Core.Path.{◌≡◌, refl, ap₂, subst}
use mathlib.Core.Logic.{◌⊎◌, inl, inr, ite, dite}
use mathlib.Core.Bool.{Bool, true, false}
use mathlib.Core.Option.{Option, none, some}
use mathlib.Core.List.{List, [], ◌∷◌}
use native.Mathlib.Decide.{ℕ_discrete}
use native.Mathlib.Omega.{arith}

pub record Eq {ℓ} (A : Type ℓ) : Type ℓ where
  pub dec : Discrete A

-- The decision of `a == b`.
abbrev pub eq? {ℓ} : {A : Type ℓ} ⦃e : Eq A⦄ → (a b : A) → Dec (a ≡ b)
eq? ⦃e⦄ = e.dec

pub cons_inj {ℓ} : {A : Type ℓ} {x y : A} {xs ys : List A} → x ∷ xs ≡ y ∷ ys → (x ≡ y) × (xs ≡ ys)
cons_inj p = (cc, cc)

unfoldable pub List-discrete {ℓ} : {A : Type ℓ} → Discrete A → Discrete (List A)
List-discrete d [] [] = yes refl
List-discrete d [] (y ∷ ys) = no (λ p. cc)
List-discrete d (x ∷ xs) [] = no (λ p. cc)
List-discrete d (x ∷ xs) (y ∷ ys) =
    let rest = List-discrete d xs ys in
    dite (d x y) (λ p. dite rest (λ q. yes (ap₂ ◌∷◌ p q)) (λ n. no (λ q. n (cons_inj q).1)))
      (λ n. no (λ q. n (cons_inj q).0))

infix 50 ◌==◌
abbrev pub ◌==◌ {ℓ} : {A : Type ℓ} ⦃e : Eq A⦄ → A → A → Bool
◌==◌ ⦃e⦄ a b = ite (e.dec a b) true false

instance unfoldable pub nat_eq : Eq ℕ
unfolding ℕ_discrete
nat_eq = record { dec = ℕ_discrete }

instance unfoldable pub text_eq : Eq (List ℕ)
unfolding List-discrete ℕ_discrete
text_eq = record { dec = List-discrete ℕ_discrete }

abbrev pub ltb : ℕ → ℕ → Bool
ltb a b = elim (compare a b) [ Ordering.lt ↦ true | _ ↦ false ]

abbrev pub leb : ℕ → ℕ → Bool
leb a b = elim (compare a b) [ Ordering.gt ↦ false | _ ↦ true ]

pub leb→le : (a b : ℕ) → leb a b ≡ true → a ≤ b
leb→le a b h = ground arith

pub ltb→lt : (a b : ℕ) → ltb a b ≡ true → a < b
ltb→lt a b h = ground arith

infix 1 if◌then◌else◌
abbrev pub if◌then◌else◌ {ℓ} : {A : Type ℓ} → Bool → A → A → A
if true then x else y = x
if false then x else y = y

pub Bool-cases : (b : Bool) → (b ≡ true) ⊎ (b ≡ false)
Bool-cases true = inl refl
Bool-cases false = inr refl

pub Option-cases {ℓ} : {A : Type ℓ} (o : Option A) → (o ≡ none) ⊎ ((a : A) × (o ≡ some a))
Option-cases none = inl refl
Option-cases (some a) = inr (a, refl)

abbrev pub is_some {ℓ} : {A : Type ℓ} → Option A → Bool
is_some none = false
is_some (some a) = true

-- Rust's `Result<A, E>`, with the `?` operator as its bind.
pub data Result {ℓ κ} (A : Type ℓ) (E : Type κ) : Type (ℓ ⊔ κ) where
  ok : A → Result A E
  err : E → Result A E

infixl 5 ◌>>=◌ ◌>>◌
abbrev pub ◌>>=◌ {ℓ κ μ} :
    {A : Type ℓ} {B : Type κ} {E : Type μ} → Result A E → (A → Result B E) → Result B E
ok a >>= f = f a
err e >>= f = err e

abbrev pub ◌>>◌ {ℓ κ μ} :
    {A : Type ℓ} {B : Type κ} {E : Type μ} → Result A E → Result B E → Result B E
m >> k = m >>= λ _. k

-- `map_err` of a fallible call that tells no more than that it failed.
abbrev pub ok_or {ℓ κ} : {A : Type ℓ} {E : Type κ} → Option A → E → Result A E
ok_or none e = err e
ok_or (some a) e = ok a

pub ok_inj {ℓ κ} : {A : Type ℓ} {E : Type κ} {a b : A} → ◌≡◌ {A = Result A E} (ok a) (ok b) → a ≡ b
ok_inj e = cc

-- `Result::map_err`
abbrev pub map_err {ℓ κ μ} :
    {A : Type ℓ} {E : Type κ} {F : Type μ} → (E → F) → Result A E → Result A F
map_err f (ok a) = ok a
map_err f (err e) = err (f e)

pub Result-cases {ℓ κ} :
    {A : Type ℓ} {E : Type κ} (r : Result A E) → ((a : A) × (r ≡ ok a)) ⊎ ((e : E) × (r ≡ err e))
Result-cases (ok a) = inl (a, refl)
Result-cases (err e) = inr (e, refl)

-- A step that cannot fail after one that can: what it makes of every success holds of the result.
pub >>=-ok_elim {ℓ κ μ ν} :
    {A : Type ℓ} {B : Type κ} {E : Type μ} (P : B → Type ν) (r : Result A E) (g : A → B)
    → ((a : A) → r ≡ ok a → P (g a))
    → {b : B} → (r >>= λ a. ok (g a)) ≡ ok b
    → P b
>>=-ok_elim P (ok a) g h {b} e = subst P {x = g a} {y = b} (cc) (h a refl)
>>=-ok_elim P (err f) g h e = cc

-- A chain that goes on from a present value: where it succeeds, the value was there.
pub ok_or->>= {ℓ κ μ} :
    {A : Type ℓ} {B : Type κ} {E : Type μ} (o : Option A) (x : E) (f : A → Result B E) {b : B}
    → (ok_or o x >>= f) ≡ ok b
    → (a : A) × (o ≡ some a) × (f a ≡ ok b)
ok_or->>= none x f h = cc
ok_or->>= (some a) x f h = (a, refl, h)
