-- ===== src/Link/HardErrors.antt =====
-- link.py: which error texts count as hard ones, `_is_hard_error`.
use cocotbext_spacewire.Base.{
  ◌≡◌, ◌⊎◌, inl, inr, refl, sym, ap, ◌∙◌, true, Bool-cases, Option, none, some, List, [], ◌∷◌, Text,
  text_eq, text_eq→eq, text_eq_self, arith,
}
use mathlib.Core.List.{Memᴰ}
use cocotbext_spacewire.Characters.Errors.{parity_error, escape_error, error_types, contains}
use cocotbext_spacewire.Link.Receive.{is_hard, is_hard_error}

-- An error that names a parity error or an escape error.
abbrev pub IsHard : Option Text → Type 0
IsHard none = ⊥
IsHard (some error) =
    Memᴰ parity_error (error_types (some error)) ⊎ Memᴰ escape_error (error_types (some error))

contains-Mem : (item : Text) (items : List Text) → contains item items ≡ true → Memᴰ item items
unfolding contains
contains-Mem item [] h = absurd cc
contains-Mem item (i ∷ items) h = elim (Bool-cases (text_eq i item)) [
  | inl e ↦ Memᴰ.head (sym (text_eq→eq i item e))
  | inr e ↦ Memᴰ.tail (contains-Mem item items (rw (e, contains) at h))
]

Mem-contains : (item : Text) (items : List Text) → Memᴰ item items → contains item items ≡ true
unfolding contains
Mem-contains item [] m = elim m [ ]
Mem-contains item (i ∷ items) (Memᴰ.head p) =
    rw (ap (λ i. text_eq i item) (sym p) ∙ text_eq_self item) refl
Mem-contains item (i ∷ items) (Memᴰ.tail m) = ground (arith, Mem-contains item items m)

pub is_hard-IsHard : (error : Option Text) → is_hard error ≡ true → IsHard error
unfolding is_hard_error
is_hard-IsHard none h = absurd cc
is_hard-IsHard (some error) h =
    elim (Bool-cases (contains parity_error (error_types (some error)))) [
      | inl e ↦ inl (contains-Mem parity_error (error_types (some error)) e)
      | inr e ↦ inr (contains-Mem escape_error (error_types (some error)) (rw e at h))
    ]

pub IsHard-is_hard : (error : Option Text) → IsHard error → is_hard error ≡ true
unfolding is_hard_error
IsHard-is_hard (some error) (inl m) =
    rw (Mem-contains parity_error (error_types (some error)) m) refl
IsHard-is_hard (some error) (inr m) =
    rw (Mem-contains escape_error (error_types (some error)) m) (ground arith)
IsHard-is_hard none h = elim h [ ]
