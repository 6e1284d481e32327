-- ===== src/Shared/Content/Laws.antt =====
-- Which texts `RoomTextContent::new` accepts, and which error the others get.
use vtnet.Base.{◌<◌, ◌≤◌, ◌≡◌, ◌↔◌, ok, err, arith}
use vtnet.Text.{Text, len}
use vtnet.Text.Laws.{IsBlank, trim-IsBlank}
use vtnet.Shared.Content.{
  RoomTextContent, new, max_text_content_bytes, must_not_be_empty, exceeds_4_kib,
}

-- What a value of the type satisfies.
pub record IsContent (c : RoomTextContent) : Type 0 where
  pub not_blank : ¬ IsBlank c.value
  pub bounded : len c.value ≤ max_text_content_bytes

-- `new` accepts a text unchanged exactly when it has a character other than white space and at most
-- 4096 bytes; a blank text gets the first error, whatever its length, and only a longer one that is
-- not blank gets the second.
pub new-cases :
    (t : Text)
    → ((new t ≡ ok (record { value = t })) ↔ IsContent (record { value = t }))
      × ((new t ≡ err must_not_be_empty) ↔ IsBlank t)
      × ((new t ≡ err exceeds_4_kib) ↔ ((¬ IsBlank t) × (max_text_content_bytes < len t)))
unfolding new
new-cases t = ground (arith, trim-IsBlank t)

-- Whatever `new` returns is valid, and is the text that it was given.
pub new-IsContent : (t : Text) {c : RoomTextContent} → new t ≡ ok c → (c.value ≡ t) × IsContent c
unfolding new
new-IsContent t h = ground (arith, trim-IsBlank t)

pub new_of_IsContent : (c : RoomTextContent) → IsContent c → new c.value ≡ ok c
new_of_IsContent c h =
    (new-cases c.value).0.1 (record { not_blank = h.not_blank; bounded = h.bounded })
