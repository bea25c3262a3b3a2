-- ===== src/Characters/Coverage.antt =====
-- characters.py: `stats` and `dump_coverage` of a decoder or a driver, from its two counters.
use cocotbext_spacewire.Base.{
  ℕ, zero, suc, ◌≤◌, ◌≡◌, refl, sym, ap, ◌∙◌, Bool-cases, inl, inr, arith, false, ◌+◌, ◌/◌, ◌%◌, [],
  ◌∷◌, ◌++◌, Text, codes, text_eq, ltb, if◌then◌else◌,
}
use cocotbext_spacewire.Characters.Types.{
  CharType, fct, eop, eep, esc, data_char, null, timecode, broadcast, Counter,
}
use cocotbext_spacewire.Characters.Decoder.{Decoder}
use cocotbext_spacewire.Characters.CharDriver.{CharDriver}
use cocotbext_spacewire.Characters.CharMonitor.{CharMonitor}

-- `key.name`
abbrev pub name : CharType → Text
name fct = codes "FCT"
name eop = codes "EOP"
name eep = codes "EEP"
name esc = codes "ESC"
name data_char = codes "DATA"
name null = codes "NULL"
name timecode = codes "TIMECODE"
name broadcast = codes "BROADCAST"

-- `result[key] = count`: a key that is there keeps its place.
unfoldable pub assign : Text → ℕ → Counter Text → Counter Text
assign key count [] = (key, count) ∷ []
assign key count ((k, n) ∷ result) =
    let rest = assign key count result in
    if text_eq k key then (k, count) ∷ result else (k, n) ∷ rest

-- The loop of `_coverage_dict`, with the name of a key.
unfoldable pub coverage_loop : {K : Type 0} → (K → Text) → Counter K → Counter Text → Counter Text
coverage_loop key_name [] result = result
coverage_loop key_name ((key, count) ∷ counter) result =
    coverage_loop key_name counter (assign (key_name key) count result)

unfoldable pub coverage_dict : {K : Type 0} → (K → Text) → Counter K → Counter Text
coverage_dict key_name counter = coverage_loop key_name counter []

-- The two dictionaries of `stats`.
pub record Stats : Type 0 where
  pub characters : Counter Text
  pub errors : Counter Text

unfoldable pub stats_of : Counter CharType → Counter Text → Stats
unfolding coverage_dict
stats_of type_counts error_counts = record {
  characters = coverage_dict name type_counts;
  errors = coverage_dict (λ key. key) error_counts;
}

-- `Decoder.stats`
unfoldable pub stats : Decoder → Stats
unfolding stats_of
stats d = stats_of d.type_counts d.error_counts

-- `CharDriver.stats`
unfoldable pub driver_stats : {K : Type 0} → CharDriver K → Stats
unfolding stats_of
driver_stats s = stats_of s.type_counts s.error_counts

-- `CharMonitor.stats`
unfoldable pub monitor_stats : {K : Type 0} → CharMonitor K → Stats
unfolding stats
monitor_stats m = stats m.decoder

-- `str(n)`; every round but the last divides by ten, so `n` rounds are enough.
unfoldable pub digits : ℕ → ℕ → Text
digits zero n = (n % 10 + 0x30) ∷ []
digits (suc fuel) n =
    let rest = digits fuel (n / 10) in
    if ltb n 10 then (n + 0x30) ∷ [] else rest ++ (n % 10 + 0x30) ∷ []

-- `", ".join(f"{key}={value}" ...)`
unfoldable pub join_items : Counter Text → Text
join_items [] = []
join_items ((key, value) ∷ []) = key ++ codes "=" ++ digits value value
join_items ((key, value) ∷ more) =
    key ++ codes "=" ++ digits value value ++ codes ", " ++ join_items more

-- `text or 'none'`
abbrev or_none : Text → Text
or_none [] = codes "none"
or_none text = text

unfoldable pub dump_coverage : Stats → Text
unfolding join_items
dump_coverage s =
    codes "characters: "
    ++ or_none (join_items s.characters)
    ++ codes "; errors: "
    ++ or_none (join_items s.errors)

tenth_shorter : (n fuel : ℕ) → n ≤ suc fuel → ltb n 10 ≡ false → n / 10 ≤ fuel
tenth_shorter n fuel l big = ground arith

digits-zero : (fuel : ℕ) → digits fuel 0 ≡ codes "0"
unfolding digits
digits-zero zero = refl
digits-zero (suc fuel) = refl

-- The digits that the code asks for are those of any greater fuel.
digits-fuel : (f g n : ℕ) → n ≤ f → n ≤ g → digits f n ≡ digits g n
unfolding digits
digits-fuel zero g n h k =
    let none : n ≡ 0 = omega arith in
    ap (digits 0) none ∙ digits-zero 0 ∙ sym (digits-zero g) ∙ ap (digits g) (sym none)
digits-fuel (suc f) zero n h k =
    let none : n ≡ 0 = omega arith in
    ap (digits (suc f)) none ∙ digits-zero (suc f) ∙ sym (digits-zero 0) ∙ ap (digits 0) (sym none)
digits-fuel (suc f) (suc g) n h k = elim (Bool-cases (ltb n 10)) [
  | inl small ↦ rw small refl
  | inr big ↦ rw big (
      ap (λ front. front ++ (n % 10 + 0x30) ∷ [])
        (digits-fuel f g (n / 10) (tenth_shorter n f h big) (tenth_shorter n g k big)))
]
