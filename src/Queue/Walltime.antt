-- ===== src/Queue/Walltime.antt =====
-- internal/queue/walltime.go: walltimes as the schedulers take them, and as they list them. An `int`
-- is its 64-bit pattern: a number below 2^64, negative from 2^63 on. The float64 of the shorthand is
-- a parameter.
use erdc_hpc_scripts.Base.{
  ℕ, zero, suc, ◌+◌, ◌-◌, ◌*◌, ◌/◌, ◌%◌, ◌^◌, Bool, true, false, not, ◌&&◌, ◌||◌, Option, none,
  some, List, [], ◌∷◌, ◌++◌, Text, leb, ltb, ◌==◌, length, if◌then◌else◌,
}
use mathlib.Core.List.{map}
use mathlib.Core.Option
use erdc_hpc_scripts.Base.GoStrings.{trim_space, split, cut}
use erdc_hpc_scripts.Base.Decimal.{is_digit, number, itoa}
pub mod Clock
pub mod Normal

abbrev pub int_bits : ℕ
int_bits = 2 ^ 64

abbrev pub int_limit : ℕ
int_limit = 2 ^ 63

abbrev pub is_negative : ℕ → Bool
is_negative n = leb int_limit n

-- What the code uses of float64: `strconv.ParseFloat`, sums and multiples, and `int(math.Round(x))`.
pub record FloatOps (F : Type 0) : Type 0 where
  pub parse_float : Text → Option F
  pub zero_float : F
  pub add_multiple : F → F → ℕ → F
  pub is_below_zero : F → Bool
  pub round_int : F → ℕ

-- `ToLower` on the letters A to Z; no other letter becomes one that the patterns read.
abbrev pub lower : ℕ → ℕ
lower c = if leb 65 c && leb c 90 then c + 32 else c

unfoldable pub to_lower : Text → Text
to_lower s = map lower s

abbrev pub is_sixtieth : ℕ → ℕ → Bool
is_sixtieth c d = leb 48 c && leb c 53 && is_digit d

-- `wallCanon`, `^\d+:[0-5]\d:[0-5]\d$`: behind the hours, behind a first digit, and whole.
unfoldable pub canon_tail : Text → Bool
canon_tail (a ∷ b ∷ c ∷ d ∷ e ∷ f ∷ []) = a == 58 && is_sixtieth b c && d == 58 && is_sixtieth e f
canon_tail _ = false

unfoldable pub canon_hours : Text → Bool
unfolding canon_tail
canon_hours [] = false
canon_hours (c ∷ s) = let rest = canon_hours s in if is_digit c then rest else canon_tail (c ∷ s)

unfoldable pub wall_canon : Text → Bool
unfolding canon_hours
wall_canon [] = false
wall_canon (c ∷ s) = is_digit c && canon_hours s

-- `Atoi` of digits with its error left aside: past the largest int it gives that.
abbrev pub clamp_int : ℕ → ℕ
clamp_int n = if ltb n int_limit then n else int_limit - 1

abbrev pub clock_seconds : List Text → ℕ
clock_seconds (h ∷ m ∷ s ∷ rest) =
    (clamp_int (number h) * 3600 + clamp_int (number m) * 60 + clamp_int (number s)) % int_bits
clock_seconds _ = 0

-- Where a scan of the shorthand stands: between parts, or in a part's number, before its point, on
-- it or behind it. `wallPart` is `(\d+(?:\.\d+)?)([dhms])`; parts that are not adjacent are refused,
-- so the text is read from part to part.
pub data Phase : Type 0 where
  between whole point fraction : Phase

pub record Scan (F : Type 0) : Type 0 where
  pub phase : Phase
  pub digits_read : Text
  pub total : F

abbrev pub unit_seconds : ℕ → Option ℕ
unit_seconds c =
    if c == 100
    then some 86400
    else if c == 104
    then some 3600
    else if c == 109
    then some 60
    else if c == 115
    then some 1
    else none

module _ {F : Type 0} (float : FloatOps F) where
  abbrev pub add_part : F → Option F → Option ℕ → Option (Scan F)
  add_part total (some n) (some unit) =
      some (record { phase = between; digits_read = []; total = float.add_multiple total n unit })
  add_part total _ _ = none

  abbrev pub read_on : Scan F → ℕ → Phase → Option (Scan F)
  read_on st c phase = some (record st { phase = phase; digits_read = st.digits_read ++ c ∷ [] })

  abbrev pub end_part : Scan F → ℕ → Option (Scan F)
  end_part st c = add_part st.total (float.parse_float st.digits_read) (unit_seconds c)

  -- One character of the shorthand.
  unfoldable pub scan_step : Phase → Scan F → ℕ → Option (Scan F)
  scan_step between st c = if is_digit c then read_on st c whole else none
  scan_step whole st c =
      if is_digit c
      then read_on st c whole
      else if c == 46
      then read_on st c point
      else end_part st c
  scan_step point st c = if is_digit c then read_on st c fraction else none
  scan_step fraction st c = if is_digit c then read_on st c fraction else end_part st c

  unfoldable pub scan : Text → Option (Scan F) → Option (Scan F)
  unfolding scan_step
  scan s none = none
  scan [] (some st) = some st
  scan (c ∷ s) (some st) = scan s (scan_step st.phase st c)

  abbrev pub scanned : Option (Scan F) → Option ℕ
  scanned none = none
  scanned (some st) = elim st.phase [
    | between ↦ if float.is_below_zero st.total then none else some (float.round_int st.total)
    | _ ↦ none
  ]

  abbrev pub parse_trimmed : Text → Option ℕ
  parse_trimmed [] = none
  parse_trimmed (c ∷ s) =
      let shorthand = scanned (
        scan (c ∷ s)
          (some (record { phase = between; digits_read = []; total = float.zero_float }))) in
      if wall_canon (c ∷ s) then some (clock_seconds (split (c ∷ s) 58)) else shorthand

  -- `ParseWalltime`
  unfoldable pub parse_walltime : Text → Option ℕ
  unfolding to_lower wall_canon scan trim_space split
  parse_walltime s = parse_trimmed (to_lower (trim_space s))

-- `%02d`
unfoldable pub two_digits : ℕ → Text
unfolding itoa
two_digits n = if ltb n 10 then 48 ∷ itoa n else itoa n

-- `FormatWalltime`
unfoldable pub format_walltime : ℕ → Text
unfolding two_digits
format_walltime sec =
    let s = if is_negative sec then 0 else sec in
    two_digits (s / 3600) ++ (58 ∷ (two_digits (s % 3600 / 60) ++ (58 ∷ two_digits (s % 60))))

abbrev pub is_blank : Text → Bool
is_blank [] = true
is_blank (c ∷ s) = false

-- `NormalizeWalltime`
unfoldable pub normalize_walltime : {F : Type 0} → FloatOps F → Text → Option Text
unfolding parse_walltime format_walltime
normalize_walltime float s =
    let text = Option.map format_walltime (parse_walltime float s) in
    if is_blank (trim_space s) then some [] else text
