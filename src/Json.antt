-- ===== src/Json.antt =====
-- The values that Python's json module reads and writes, with `null` for None. They stand for the
-- `Any` of the sources' payloads, arguments and messages.
use istos.Prelude.{
  zero, suc, Bool, true, false, not, Option, none, some, String, if◌then◌else◌, text_key, ◌==◌, ℤ,
  pos, negsuc,
}

mutual
  pub data Json : Type 0 where
    null : Json
    boolean : Bool → Json
    number : ℤ → Json
    text : String → Json
    array : Items → Json
    object : Fields → Json

  pub data Items : Type 0 where
    nil : Items
    cons : Json → Items → Items

  pub data Fields : Type 0 where
    end : Fields
    field : String → Json → Fields → Fields

-- `d.get(key)` with nothing for a missing key.
unfoldable pub find : String → Fields → Option Json
find key end = none
find key (field k v rest) = let later = find key rest in if k == key then some v else later

unfoldable pub get_or : String → Json → Fields → Json
get_or key default fields = elim (find key fields) [ none ↦ default | some v ↦ v ]

-- `bool(value)`
unfoldable pub truthy : Json → Bool
truthy null = false
truthy (boolean b) = b
truthy (number (pos zero)) = false
truthy (number (pos (suc n))) = true
truthy (number (negsuc n)) = true
truthy (text s) = not (s == "")
truthy (array nil) = false
truthy (array (cons j js)) = true
truthy (object end) = false
truthy (object (field k v rest)) = true
