-- ===== src/Shared/Payload/Bytes.antt =====
-- Big-endian bytes of an unsigned integer: how many, how large, and that they determine it.
use native.Mathlib.Nat.{pow-suc}
use vtnet.Base.{
  ℕ, zero, suc, ◌+◌, ◌*◌, ◌/◌, ◌%◌, ◌^◌, ◌<◌, ◌≡◌, refl, ap, ◌∙◌, sym, List, [], ◌∷◌, ◌++◌, arith,
  length, length-append, All, All-append, IsByte,
}
use vtnet.Shared.Payload.{to_be_bytes}

-- The number that big-endian bytes stand for, read on from `acc`.
abbrev pub from_be_bytes : ℕ → List ℕ → ℕ
from_be_bytes acc [] = acc
from_be_bytes acc (b ∷ bs) = from_be_bytes (acc * 256 + b) bs

from_be_bytes-snoc :
    (acc b : ℕ) (bs : List ℕ) → from_be_bytes acc (bs ++ b ∷ []) ≡ from_be_bytes acc bs * 256 + b
from_be_bytes-snoc acc b [] = refl
from_be_bytes-snoc acc b (c ∷ bs) = from_be_bytes-snoc (acc * 256 + c) b bs

pub length-to_be_bytes : (n v : ℕ) → length (to_be_bytes n v) ≡ n
unfolding to_be_bytes
length-to_be_bytes zero v = refl
length-to_be_bytes (suc n) v = omega (
  arith,
  length-append (to_be_bytes n (v / 256)) ((v % 256) ∷ []),
  length-to_be_bytes n (v / 256),
)

pub to_be_bytes-bytes : (n v : ℕ) → All IsByte (to_be_bytes n v)
unfolding to_be_bytes
to_be_bytes-bytes zero v = tt
to_be_bytes-bytes (suc n) v =
    All-append IsByte (to_be_bytes n (v / 256)) _ (to_be_bytes-bytes n (v / 256)) (omega arith, tt)

-- Bytes read back give the number, if it fits its width.
pub from_be_bytes-to_be_bytes : (n v : ℕ) → v < 256 ^ n → from_be_bytes 0 (to_be_bytes n v) ≡ v
unfolding to_be_bytes
from_be_bytes-to_be_bytes zero v h = omega arith
from_be_bytes-to_be_bytes (suc n) v h = omega (
  arith,
  from_be_bytes-snoc 0 (v % 256) (to_be_bytes n (v / 256)),
  from_be_bytes-to_be_bytes n (v / 256) (omega (arith, pow-suc 256 n)),
)

pub to_be_bytes_inj :
    (n v w : ℕ) → v < 256 ^ n → w < 256 ^ n → to_be_bytes n v ≡ to_be_bytes n w → v ≡ w
to_be_bytes_inj n v w hv hw e =
    sym (from_be_bytes-to_be_bytes n v hv)
    ∙ ap (from_be_bytes 0) e
    ∙ from_be_bytes-to_be_bytes n w hw
