-- ===== src/Queue/Walltime/Clock.antt =====
-- internal/queue/walltime.go: the canonical form H+:MM:SS under the functions that read it.
use erdc_hpc_scripts.Base.{
  ℕ, zero, suc, ◌+◌, ◌-◌, ◌*◌, ◌/◌, ◌%◌, ◌≤◌, ◌<◌, ◌≡◌, ◌≢◌, refl, sym, ◌∙◌, ap, subst, true, false,
  [], ◌∷◌, ◌++◌, arith, Text, ltb, ◌==◌, All, All-append, All-map, lt→ltb, dec_lt,
}
use erdc_hpc_scripts.Base.GoStrings.{
  is_space, trim_left, trim_onto, trim_right, trim_space, split, onto_first,
}
use erdc_hpc_scripts.Base.Decimal.{
  AreDigits, number, number_from, digits, digits_one, digits_more, itoa, number-itoa,
  itoa-AreDigits,
}
use erdc_hpc_scripts.Queue.Walltime.{
  lower, to_lower, canon_tail, canon_hours, wall_canon, two_digits, format_walltime, is_negative,
  int_limit, clock_seconds,
}

-- The characters of a clock: the digits and the colon.
abbrev pub IsClock : ℕ → Type 0
IsClock c = (48 ≤ c) × (c ≤ 58)

clock_not_space : (c : ℕ) → IsClock c → is_space c ≡ false
unfolding is_space
clock_not_space c h = ground arith

trim_right_none : (s : Text) → All IsClock s → trim_right is_space s ≡ s
unfolding trim_right trim_onto
trim_right_none [] h = refl
trim_right_none (c ∷ s) h = rw (clock_not_space c h.0, trim_right_none s h.1) refl

pub trim_space_none : (s : Text) → All IsClock s → trim_space s ≡ s
unfolding trim_space trim_left
trim_space_none [] h = refl
trim_space_none (c ∷ s) h = rw (clock_not_space c h.0) (trim_right_none (c ∷ s) h)

pub to_lower_none : (s : Text) → All IsClock s → to_lower s ≡ s
unfolding to_lower
to_lower_none [] h = refl
to_lower_none (c ∷ s) h =
    let same : lower c ≡ c = ground arith in rw (same, to_lower_none s h.1) refl

canon_hours-append :
    (s t : Text) → AreDigits s → canon_tail (58 ∷ t) ≡ true → canon_hours (s ++ 58 ∷ t) ≡ true
unfolding canon_hours
canon_hours-append [] t h e = e
canon_hours-append (c ∷ s) t h e = rw h.0 (canon_hours-append s t h.1 e)

pub split-append : (s t : Text) → AreDigits s → split (s ++ 58 ∷ t) 58 ≡ s ∷ split t 58
unfolding split onto_first
split-append [] t h = refl
split-append (c ∷ s) t h =
    let e : (c == 58) ≡ false = ground arith in rw (e, split-append s t h.1) refl

pub split-digits : (s : Text) → AreDigits s → split s 58 ≡ s ∷ []
unfolding split onto_first
split-digits [] h = refl
split-digits (c ∷ s) h = let e : (c == 58) ≡ false = ground arith in rw (e, split-digits s h.1) refl

pub two_digits_small : (n : ℕ) → n < 60 → two_digits n ≡ (48 + n / 10) ∷ (48 + n % 10) ∷ []
unfolding two_digits itoa digits
two_digits_small n h = elim (dec_lt n 10) [
  | yes small ↦
      let tens : n / 10 ≡ 0 = omega arith in
      let ones : n % 10 ≡ n = omega arith in
      rw (lt→ltb n 10 small, digits_one n n small, tens, ones) refl
  | no large ↦ long n (omega arith) h
]
  where
    long : (n : ℕ) → 10 ≤ n → n < 60 → two_digits n ≡ (48 + n / 10) ∷ (48 + n % 10) ∷ []
    long zero l h = absurd (omega arith)
    long (suc k) l h =
        let e : ltb (suc k) 10 ≡ false = ground arith in
        rw (e, digits_more (suc k) (suc k) l, digits_one k (suc k / 10) (omega arith)) refl

pub two_digits-AreDigits : (n : ℕ) → AreDigits (two_digits n)
unfolding two_digits
two_digits-AreDigits n = elim (dec_lt n 10) [
  | yes small ↦ rw (lt→ltb n 10 small) (refl, itoa-AreDigits n)
  | no large ↦ let e : ltb n 10 ≡ false = ground arith in rw e (itoa-AreDigits n)
]

pub number-two_digits : (n : ℕ) → number (two_digits n) ≡ n
unfolding two_digits number_from
number-two_digits n = elim (dec_lt n 10) [
  | yes small ↦ rw (lt→ltb n 10 small) (number-itoa n)
  | no large ↦ let e : ltb n 10 ≡ false = ground arith in rw e (number-itoa n)
]

-- A clock whose minutes and seconds have two digits.
abbrev pub clock : Text → ℕ → ℕ → Text
clock hours m s =
    hours ++ 58 ∷ (48 + m / 10) ∷ (48 + m % 10) ∷ 58 ∷ (48 + s / 10) ∷ (48 + s % 10) ∷ []

pub format_walltime-clock :
    (sec : ℕ)
    → sec < int_limit
    → format_walltime sec ≡ clock (two_digits (sec / 3600)) (sec % 3600 / 60) (sec % 60)
unfolding format_walltime
format_walltime-clock sec h =
    let e : is_negative sec ≡ false = ground arith in
    let minutes = two_digits_small (sec % 3600 / 60) (omega arith) in
    let seconds = two_digits_small (sec % 60) (omega arith) in rw (e, minutes, seconds) refl

pub clock-IsClock :
    (hours : Text) (m s : ℕ) → AreDigits hours → m < 60 → s < 60 → All IsClock (clock hours m s)
clock-IsClock hours m s h hm hs =
    All-append IsClock hours _ (All-map (λ c d. ground arith) hours h) (ground arith)

canon_tail_lem :
    (m s : ℕ)
    → m < 60
    → s < 60
    → canon_tail (58 ∷ (48 + m / 10) ∷ (48 + m % 10) ∷ 58 ∷ (48 + s / 10) ∷ (48 + s % 10) ∷ [])
      ≡ true
unfolding canon_tail
canon_tail_lem m s hm hs = ground arith

pub clock_seconds_lem :
    (h m s : ℕ)
    → h * 3600 + m * 60 + s < int_limit
    → m < 60
    → s < 60
    → clock_seconds (
        two_digits h
        ∷ ((48 + m / 10) ∷ (48 + m % 10) ∷ [])
        ∷ ((48 + s / 10) ∷ (48 + s % 10) ∷ [])
        ∷ [])
      ≡ h * 3600 + m * 60 + s
unfolding number_from
clock_seconds_lem h m s l hm hs =
    let hours : ltb h int_limit ≡ true = ground arith in
    let minutes : (0 + (48 + m / 10 - 48)) * 10 + (48 + m % 10 - 48) ≡ m = omega arith in
    let seconds : (0 + (48 + s / 10 - 48)) * 10 + (48 + s % 10 - 48) ≡ s = omega arith in
    let m_small : ltb m int_limit ≡ true = ground arith in
    let s_small : ltb s int_limit ≡ true = ground arith in
    rw (number-two_digits h, hours, minutes, seconds, m_small, s_small) (omega arith)

pub wall_canon-clock :
    (hours : Text) (m s : ℕ)
    → AreDigits hours
    → hours ≢ []
    → m < 60
    → s < 60
    → wall_canon (clock hours m s) ≡ true
unfolding wall_canon
wall_canon-clock [] m s h full hm hs = absurd (full refl)
wall_canon-clock (c ∷ hours) m s h full hm hs =
    rw h.0 (canon_hours-append hours _ h.1 (canon_tail_lem m s hm hs))

pub split-clock :
    (hours : Text) (m s : ℕ)
    → AreDigits hours
    → m < 60
    → s < 60
    → split (clock hours m s) 58
      ≡ hours ∷ ((48 + m / 10) ∷ (48 + m % 10) ∷ []) ∷ ((48 + s / 10) ∷ (48 + s % 10) ∷ []) ∷ []
split-clock hours m s h hm hs = split-append hours _ h ∙ ap (λ ps. hours ∷ ps) minutes
  where
    minutes :
        split ((48 + m / 10) ∷ (48 + m % 10) ∷ 58 ∷ (48 + s / 10) ∷ (48 + s % 10) ∷ []) 58
        ≡ ((48 + m / 10) ∷ (48 + m % 10) ∷ []) ∷ ((48 + s / 10) ∷ (48 + s % 10) ∷ []) ∷ []
    minutes =
        split-append ((48 + m / 10) ∷ (48 + m % 10) ∷ []) _ (ground arith)
        ∙ ap (λ ps. ((48 + m / 10) ∷ (48 + m % 10) ∷ []) ∷ ps)
            (split-digits ((48 + s / 10) ∷ (48 + s % 10) ∷ []) (ground arith))

pub two_digits_some : (n : ℕ) → two_digits n ≢ []
unfolding two_digits number_from
two_digits_some n e = none_at_zero (subst (λ k. two_digits k ≡ []) at_zero e)
  where
    at_zero : n ≡ 0
    at_zero = sym (number-two_digits n) ∙ ap number e

    none_at_zero : two_digits 0 ≢ []
    none_at_zero h = cc
