-- ===== src/Queue/Select.antt =====
-- internal/queue/select.go: which jobs the tokens of a command pick. The patterns `reSingle`,
-- `reRange` and `reList` are tests by hand; the regexps of the name masks are a parameter, which
-- gives a matcher for a text that compiles.
use erdc_hpc_scripts.Base.{
  ℕ, zero, suc, ◌+◌, ◌-◌, ◌^◌, Bool, true, false, not, ◌&&◌, ◌||◌, Option, none, some, List, [],
  ◌∷◌, ◌++◌, Text, text_eq, leb, ltb, ◌==◌, if◌then◌else◌,
}
use mathlib.Core.Option
use erdc_hpc_scripts.Base.GoStrings.{contains_text, split, cut}
use erdc_hpc_scripts.Base.Decimal.{is_digit, number, itoa}
use erdc_hpc_scripts.Queue.Job.{Job}
pub mod Union
pub mod Shapes

-- `regexp.Compile` with `MatchString`.
abbrev pub Regexps : Type 0
Regexps = Text → Option (Text → Bool)

unfoldable pub all_digits : Text → Bool
all_digits [] = true
all_digits (c ∷ s) = is_digit c && all_digits s

-- `reSingle`, `^[0-9]+$`
unfoldable pub is_single : Text → Bool
unfolding all_digits
is_single [] = false
is_single (c ∷ s) = all_digits (c ∷ s)

-- `reRange`, `^([0-9]+)-([0-9]+)$`, and its two groups.
abbrev pub both_single : Option (Text × Text) → Option (Text × Text)
both_single none = none
both_single (some (lo, hi)) = if is_single lo && is_single hi then some (lo, hi) else none

unfoldable pub range_groups : Text → Option (Text × Text)
unfolding is_single cut
range_groups s = both_single (cut s 45)

unfoldable pub all_single : List Text → Bool
unfolding is_single
all_single [] = true
all_single (p ∷ ps) = is_single p && all_single ps

-- `reList`, `^[0-9]+(,[0-9]+)+$`: at least two parts, all of digits.
abbrev pub is_several : List Text → Bool
is_several [] = false
is_several (p ∷ []) = false
is_several (p ∷ q ∷ ps) = true

unfoldable pub is_id_list : Text → Bool
unfolding all_single split
is_id_list s = is_several (split s 44) && all_single (split s 44)

abbrev pub int_limit : ℕ
int_limit = 2 ^ 63

-- `Atoi` of digits with its error left aside.
abbrev pub clamp_int : ℕ → ℕ
clamp_int n = if ltb n int_limit then n else int_limit - 1

-- The digits in front, `reLead`.
unfoldable pub leading_digits : Text → Text
leading_digits [] = []
leading_digits (c ∷ s) = let rest = leading_digits s in if is_digit c then c ∷ rest else []

abbrev pub lead_value : Text → Option ℕ
lead_value [] = none
lead_value (c ∷ s) = if ltb (number (c ∷ s)) int_limit then some (number (c ∷ s)) else none

-- `leadNum`
unfoldable pub lead_num : Text → Option ℕ
unfolding leading_digits
lead_num s = lead_value (leading_digits s)

abbrev pub is_printed : Option ℕ → Text → Bool
is_printed none token = false
is_printed (some n) token = text_eq (itoa n) token

-- `idMatches`
unfoldable pub id_matches : Job → Text → Bool
unfolding lead_num itoa
id_matches j token =
    text_eq j.short_id token || text_eq j.id token || is_printed (lead_num j.short_id) token

-- `matchID`
unfoldable pub match_id : (Job → Bool) → List Job → List Job
match_id pred [] = []
match_id pred (j ∷ jobs) = let rest = match_id pred jobs in if pred j then j ∷ rest else rest

abbrev pub is_hit : Option (Text → Bool) → Text → Text → Bool
is_hit none pat name = contains_text name pat
is_hit (some matches) pat name = matches name

abbrev pub is_within : ℕ → ℕ → Option ℕ → Bool
is_within lo hi none = false
is_within lo hi (some n) = leb lo n && leb n hi

-- The range's bounds, the smaller one first.
abbrev pub in_range : ℕ → ℕ → Job → Bool
in_range lo hi j =
    let n = lead_num j.short_id in if ltb hi lo then is_within hi lo n else is_within lo hi n

unfoldable pub matches_any : List Text → Job → Bool
unfolding id_matches
matches_any [] j = false
matches_any (t ∷ tokens) j = id_matches j t || matches_any tokens j

abbrev pub or_else : List Job → List Job → List Job
or_else [] jobs = jobs
or_else (j ∷ found) jobs = j ∷ found

-- Without the mark `~` in front.
abbrev pub unmarked : Text → Option Text
unmarked [] = none
unmarked (c ∷ s) = if c == 126 then some s else none

-- The ids of the jobs that are out, `seen`.
unfoldable pub has_id : Text → List Job → Bool
has_id i [] = false
has_id i (j ∷ jobs) = text_eq j.id i || has_id i jobs

-- The inner loop of `MatchAll`.
unfoldable pub add_new : List Job → List Job → List Job
unfolding has_id
add_new out [] = out
add_new out (j ∷ jobs) = add_new (if has_id j.id out then out else out ++ j ∷ []) jobs

module _ (regexps : Regexps) where
  -- `matchMask`
  unfoldable pub match_mask : Text → List Job → List Job
  unfolding match_id contains_text
  match_mask pat = match_id (λ (j : Job). is_hit (regexps pat) pat j.name)

  -- The `switch` on the shape of a token.
  unfoldable pub match_shape : Text → Option (Text × Text) → List Job → List Job
  unfolding match_id match_mask matches_any is_id_list
  match_shape token (some (lo, hi)) jobs =
      match_id (in_range (clamp_int (number lo)) (clamp_int (number hi))) jobs
  match_shape token none jobs =
      if is_single token
      then match_id (λ j. id_matches j token) jobs
      else if is_id_list token
      then match_id (matches_any (split token 44)) jobs
      else or_else (match_id (λ (j : Job). text_eq j.id token) jobs) (match_mask token jobs)

  abbrev pub match_token : Option Text → Text → List Job → List Job
  match_token none token = match_shape token (range_groups token)
  match_token (some mask) token = match_mask mask

  -- `Match`
  unfoldable pub match : List Job → Text → Bool → List Job
  unfolding match_shape range_groups
  match jobs token force_pattern =
      if force_pattern then match_mask token jobs else match_token (unmarked token) token jobs

  unfoldable pub match_from : List Job → List Text → Bool → List Job → List Job
  unfolding match add_new
  match_from jobs [] force_pattern out = out
  match_from jobs (t ∷ tokens) force_pattern out =
      match_from jobs tokens force_pattern (add_new out (match jobs t force_pattern))

  -- `MatchAll`
  unfoldable pub match_all : List Job → List Text → Bool → List Job
  unfolding match_from
  match_all jobs tokens force_pattern = match_from jobs tokens force_pattern []
