-- ===== src/Characters/Errors.antt =====
-- characters.py: the error labels of a character, joined by "+" in one string.
use cocotbext_spacewire.Base.{
  Bool, false, ◌||◌, Option, none, some, List, [], ◌∷◌, ◌++◌, Text, codes, text_eq, is_space, ◌==◌,
  if◌then◌else◌,
}
use mathlib.Core.List.{reverse}

abbrev pub parity_error : Text
parity_error = codes "parity_error"

abbrev pub escape_error : Text
escape_error = codes "escape_error"

abbrev pub reserved_escape_data_type : Text
reserved_escape_data_type = codes "reserved_escape_data_type"

unfoldable pub push_first : Text → List Text → List Text
push_first t [] = t ∷ []
push_first t (p ∷ ps) = (t ++ p) ∷ ps

-- `t.split("+")`
unfoldable pub split_plus : Text → List Text
split_plus [] = [] ∷ []
split_plus (c ∷ t) =
    let rest = split_plus t in if c == b'+' then [] ∷ rest else push_first (c ∷ []) rest

unfoldable pub drop_spaces : Text → Text
drop_spaces [] = []
drop_spaces (c ∷ t) = let rest = drop_spaces t in if is_space c then rest else c ∷ t

unfoldable pub strip : Text → Text
strip t = reverse (drop_spaces (reverse (drop_spaces t)))

-- `[part.strip() for part in parts if part.strip()]`
unfoldable pub strip_parts : List Text → List Text
strip_parts [] = []
strip_parts (p ∷ ps) = elim (strip p) [ [] ↦ strip_parts ps | c ∷ t ↦ (c ∷ t) ∷ strip_parts ps ]

unfoldable pub error_types : Option Text → List Text
error_types none = []
error_types (some error) = strip_parts (split_plus error)

-- `item in items`
unfoldable pub contains : Text → List Text → Bool
contains item [] = false
contains item (i ∷ items) = text_eq i item || contains item items

-- The inner loop of `_combine_errors`.
unfoldable pub append_new : List Text → List Text → List Text
append_new combined [] = combined
append_new combined (item ∷ items) =
    append_new (if contains item combined then combined else combined ++ item ∷ []) items

unfoldable pub combine_loop : List Text → List (Option Text) → List Text
combine_loop combined [] = combined
combine_loop combined (error ∷ errors) =
    combine_loop (append_new combined (error_types error)) errors

-- `"+".join(items)`
unfoldable pub join_plus : List Text → Text
join_plus [] = []
join_plus (item ∷ []) = item
join_plus (item ∷ next ∷ items) = item ++ b'+' ∷ join_plus (next ∷ items)

unfoldable pub join_errors : List Text → Option Text
join_errors [] = none
join_errors (item ∷ items) = some (join_plus (item ∷ items))

unfoldable pub combine_errors : List (Option Text) → Option Text
combine_errors errors = join_errors (combine_loop [] errors)
