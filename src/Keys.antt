-- ===== src/Keys.antt =====
-- internal/model/keys.go: the natural keys.
pub mod RoundTrip
mod Tests
use integrations_challenge.Prelude.{
  ℕ, Bool, true, false, List, [], ◌∷◌, ◌++◌, Bytes, if◌then◌else◌, ◌==◌,
}
use integrations_challenge.Text.{trim_space}

abbrev pub key_separator : ℕ
key_separator = 0x1f

abbrev pub trimmed : List Bytes → List Bytes
trimmed [] = []
trimmed (part ∷ parts) = trim_space part ∷ trimmed parts

-- strings.Join with the separator.
abbrev pub joined : List Bytes → Bytes
joined [] = []
joined (part ∷ []) = part
joined (part ∷ next ∷ parts) = part ++ key_separator ∷ joined (next ∷ parts)

-- joinKey
unfoldable pub join_key : List Bytes → Bytes
join_key [] = joined (trimmed [])
join_key (part ∷ []) = trim_space part
join_key (part ∷ next ∷ parts) = joined (trimmed (part ∷ next ∷ parts))

-- A rune before the first part.
abbrev pub before_first : ℕ → List Bytes → List Bytes
before_first c [] = (c ∷ []) ∷ []
before_first c (part ∷ parts) = (c ∷ part) ∷ parts

-- SplitKey
unfoldable pub split_key : Bytes → List Bytes
split_key [] = [] ∷ []
split_key (c ∷ s) =
    let parts = split_key s in if c == key_separator then [] ∷ parts else before_first c parts

abbrev pub supplier_key : Bytes → Bytes
supplier_key supplier_number = join_key (supplier_number ∷ [])

abbrev cost_center_key : Bytes → Bytes
cost_center_key code = join_key (code ∷ [])

abbrev po_key_of : Bytes → Bytes
po_key_of po_number = join_key (po_number ∷ [])

abbrev po_line_key : Bytes → Bytes → Bytes
po_line_key po_number line_no = join_key (po_number ∷ line_no ∷ [])

abbrev fx_rate_key : Bytes → Bytes → Bytes → Bytes → Bytes
fx_rate_key base quote valid_from rate_type = join_key (base ∷ quote ∷ valid_from ∷ rate_type ∷ [])

abbrev pub invoice_key : Bytes → Bytes → Bytes
invoice_key supplier_number supplier_invoice_number =
    join_key (supplier_number ∷ supplier_invoice_number ∷ [])

abbrev invoice_line_key : Bytes → Bytes → Bytes → Bytes
invoice_line_key supplier_number supplier_invoice_number line_no =
    join_key (supplier_number ∷ supplier_invoice_number ∷ line_no ∷ [])
