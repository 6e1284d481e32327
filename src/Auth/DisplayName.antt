-- ===== src/Auth/DisplayName.antt =====
-- The name that a new session is given: what it shows of the uid.
use vtnet.Base.{
  ℕ, ◌<◌, ◌/◌, ◌%◌, ◌≡◌, refl, ap, ◌↔◌, List, [], ◌∷◌, ◌++◌, arith, length, take, append_inj,
  IsByte, All, cons_inj, ◌∙◌, sym, ◌≤◌,
}
use vtnet.Shared.Uid.{UserUid, IsUid}
use vtnet.Auth.{hex_digit, hex_byte, hex_of_four, guest, default_display_name}

hex_digit_inj : (m n : ℕ) → m < 16 → n < 16 → hex_digit m ≡ hex_digit n → m ≡ n
unfolding hex_digit
hex_digit_inj m n hm hn e = ground arith

hex_byte_inj : (m n : ℕ) → m < 256 → n < 256 → hex_byte m ≡ hex_byte n → m ≡ n
unfolding hex_byte
hex_byte_inj m n hm hn e =
    let (hi, rest) = cons_inj e in
    let (lo, _) = cons_inj rest in
    omega (
      arith,
      hex_digit_inj (m / 16) (n / 16) (omega arith) (omega arith) hi,
      hex_digit_inj (m % 16) (n % 16) (omega arith) (omega arith) lo,
    )

-- The first four bytes, as the list pattern of the source takes them.
hex_of_four_inj :
    (xs ys : List ℕ)
    → 4 ≤ length xs
    → 4 ≤ length ys
    → All IsByte xs
    → All IsByte ys
    → hex_of_four xs ≡ hex_of_four ys
    → take 4 xs ≡ take 4 ys
unfolding hex_of_four hex_byte
hex_of_four_inj (a ∷ b ∷ c ∷ d ∷ xs) (a' ∷ b' ∷ c' ∷ d' ∷ ys) hx hy px py e =
    let (p, e1) = append_inj (hex_byte a) (hex_byte a') _ _ 2 refl refl e in
    let (q, e2) = append_inj (hex_byte b) (hex_byte b') _ _ 2 refl refl e1 in
    let (r, s) = append_inj (hex_byte c) (hex_byte c') _ _ 2 refl refl e2 in
    cc (
      hex_byte_inj a a' px.0 py.0 p,
      hex_byte_inj b b' px.1.0 py.1.0 q,
      hex_byte_inj c c' px.1.1.0 py.1.1.0 r,
      hex_byte_inj d d' px.1.1.1.0 py.1.1.1.0 s,
    )
hex_of_four_inj _ _ hx hy px py e = absurd (omega arith)

hex_of_four-take : (xs : List ℕ) → hex_of_four (take 4 xs) ≡ hex_of_four xs
unfolding hex_of_four
hex_of_four-take (a ∷ b ∷ c ∷ d ∷ xs) = refl
hex_of_four-take (a ∷ b ∷ c ∷ []) = refl
hex_of_four-take (a ∷ b ∷ []) = refl
hex_of_four-take (a ∷ []) = refl
hex_of_four-take [] = refl

-- Two users with keys of 32 bytes are given one name exactly when their keys begin with the same four bytes.
pub display_name-eq_iff :
    (u v : UserUid)
    → IsUid u
    → IsUid v
    → (default_display_name u ≡ default_display_name v) ↔ (take 4 u.bytes ≡ take 4 v.bytes)
unfolding default_display_name
display_name-eq_iff u v hu hv = (
  λ e.
      hex_of_four_inj u.bytes v.bytes (omega arith) (omega arith) hu.1 hv.1
        (append_inj guest guest _ _ 6 refl refl e).1,
  λ e.
      ap (◌++◌ guest)
        (sym (hex_of_four-take u.bytes) ∙ ap hex_of_four e ∙ hex_of_four-take v.bytes),
)
