-- ===== src/Text/Laws.antt =====
-- When nothing is left of a text after `trim`, and how its length in bytes grows.
use vtnet.Base.{ℕ, ◌+◌, ◌≤◌, ◌*◌, ◌≡◌, refl, ◌↔◌, true, [], ◌∷◌, arith, All, length, ◌++◌}
use vtnet.Text.{Text, len_utf8, len, is_whitespace, trim_start, trim_end, trim, is_empty}

abbrev pub IsBlank : Text → Type 0
IsBlank = All (λ c. is_whitespace c ≡ true)

trim_end-IsBlank : (s : Text) → (is_empty (trim_end s) ≡ true) ↔ IsBlank s
unfolding trim_end
trim_end-IsBlank [] = (λ h. tt, λ h. refl)
trim_end-IsBlank (c ∷ s) = ground (arith, trim_end-IsBlank s)

trim_start-IsBlank : (s : Text) → IsBlank (trim_start s) ↔ IsBlank s
unfolding trim_start
trim_start-IsBlank [] = (λ h. h, λ h. h)
trim_start-IsBlank (c ∷ s) = ground (arith, trim_start-IsBlank s)

pub trim-IsBlank : (s : Text) → (is_empty (trim s) ≡ true) ↔ IsBlank s
unfolding trim
trim-IsBlank s = ground (arith, trim_end-IsBlank (trim_start s), trim_start-IsBlank s)

len_utf8_bounds : (c : ℕ) → (1 ≤ len_utf8 c) × (len_utf8 c ≤ 4)
unfolding len_utf8
len_utf8_bounds c = ground arith

pub len_bounds : (s : Text) → (length s ≤ len s) × (len s ≤ 4 * length s)
unfolding len
len_bounds [] = omega arith
len_bounds (c ∷ s) = omega (arith, len_bounds s, len_utf8_bounds c)

pub len-append : (s t : Text) → len (s ++ t) ≡ len s + len t
unfolding len
len-append [] t = omega arith
len-append (c ∷ s) t = omega (arith, len-append s t)
