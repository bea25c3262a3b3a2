-- ===== src/Driver/Lines.antt =====
-- driver.py: the levels that the driver writes, read as ds_codec.py's encoding.
use cocotbext_spacewire.Base.{
  ◌≡◌, refl, ap, ap₂, ◌∙◌, true, List, [], ◌∷◌, ◌++◌, map, Bit, bit_eq, bit_xor, if◌then◌else◌,
  arith, ◌&&◌,
}
use cocotbext_spacewire.DsCodec.{encode_levels}

-- The strobe level of a bit.
abbrev pub strobe_of : Bit → Bit → Bit → Bit
strobe_of d s b = if bit_eq b d then bit_xor s true else s

-- The levels of the two lines, bit by bit, and those after the last bit.
abbrev pub level_pairs : Bit → Bit → List Bit → List (Bit × Bit)
level_pairs d s [] = []
level_pairs d s (b ∷ bs) = (b, strobe_of d s b) ∷ level_pairs b (strobe_of d s b) bs

abbrev pub last_pair : Bit → Bit → List (Bit × Bit) → Bit × Bit
last_pair d s [] = (d, s)
last_pair d s ((x, y) ∷ levels) = last_pair x y levels

-- The writes that change a line: what a receiver sees as edges.
abbrev pub changes : Bit → Bit → List (Bit × Bit) → List (Bit × Bit)
changes d s [] = []
changes d s ((x, y) ∷ levels) =
    let rest = changes x y levels in if bit_eq x d && bit_eq y s then rest else (x, y) ∷ rest

-- Two lists from a list of pairs.
abbrev pub unzip : List (Bit × Bit) → List Bit × List Bit
unzip levels = (map (λ (p : Bit × Bit). p.0) levels, map (λ (p : Bit × Bit). p.1) levels)

pub unzip-level_pairs :
    (d s : Bit) (bs : List Bit) → unzip (level_pairs d s bs) ≡ encode_levels d s bs
unfolding encode_levels
unzip-level_pairs d s [] = refl
unzip-level_pairs d s (b ∷ bs) =
    let e = unzip-level_pairs b (strobe_of d s b) bs in
    ap₂ (λ ds ss. (b ∷ ds, strobe_of d s b ∷ ss)) (ap (λ p. p.0) e) (ap (λ p. p.1) e)

level_pairs-snoc :
    (d s : Bit) (bs : List Bit) (b : Bit)
    → let (x, y) = last_pair d s (level_pairs d s bs) in
      level_pairs d s (bs ++ b ∷ []) ≡ level_pairs d s bs ++ (b, strobe_of x y b) ∷ []
level_pairs-snoc d s [] b = refl
level_pairs-snoc d s (c ∷ bs) b =
    ap (◌∷◌ (c, strobe_of d s c)) (level_pairs-snoc c (strobe_of d s c) bs b)

pub last_pair-snoc :
    (d s : Bit) (levels : List (Bit × Bit)) (p : Bit × Bit) → last_pair d s (levels ++ p ∷ []) ≡ p
last_pair-snoc d s [] p = refl
last_pair-snoc d s ((x, y) ∷ levels) p = last_pair-snoc x y levels p

changes-snoc :
    (d s : Bit) (levels : List (Bit × Bit)) (p : Bit × Bit)
    → let (x, y) = last_pair d s levels in
      changes d s (levels ++ p ∷ []) ≡ changes d s levels ++ changes x y (p ∷ [])
changes-snoc d s [] p = refl
changes-snoc d s ((x, y) ∷ levels) p = ground (arith, changes-snoc x y levels p)

-- A bit is an edge, and writing the levels again is none.
pub changes-bit :
    (d s b : Bit) → changes d s ((b, strobe_of d s b) ∷ []) ≡ (b, strobe_of d s b) ∷ []
changes-bit d s b = ground arith

pub changes-again : (d s : Bit) → changes d s ((d, s) ∷ []) ≡ []
changes-again d s = ground arith

-- The same, with the levels before given by an equation.
pub level_pairs_next :
    (d s : Bit) (bs : List Bit) (b : Bit) {x y : Bit}
    → last_pair d s (level_pairs d s bs) ≡ (x, y)
    → level_pairs d s (bs ++ b ∷ []) ≡ level_pairs d s bs ++ (b, strobe_of x y b) ∷ []
level_pairs_next d s bs b e =
    level_pairs-snoc d s bs b
    ∙ ap (λ (p : Bit × Bit). level_pairs d s bs ++ (b, strobe_of p.0 p.1 b) ∷ []) e

pub changes_next :
    (d s : Bit) (levels : List (Bit × Bit)) (p : Bit × Bit) {x y : Bit}
    → last_pair d s levels ≡ (x, y)
    → changes d s (levels ++ p ∷ []) ≡ changes d s levels ++ changes x y (p ∷ [])
changes_next d s levels p e =
    changes-snoc d s levels p
    ∙ ap (λ (q : Bit × Bit). changes d s levels ++ changes q.0 q.1 (p ∷ [])) e
