-- ===== src/Queue/Walltime/Normal.antt =====
-- internal/queue/walltime.go: `ParseWalltime` reads what `FormatWalltime` writes, `NormalizeWalltime`
-- gives a normal form, and a bare number is refused.
use erdc_hpc_scripts.Base.{
  ℕ, ◌/◌, ◌%◌, ◌<◌, ◌≡◌, refl, sym, ◌⊎◌, inl, inr, ◌∙◌, ap, subst, Bool, true, false, Option, none,
  some, List, [], ◌∷◌, ◌++◌, arith, Text, All-map, if◌then◌else◌, dec_lt,
}
use mathlib.Core.Option
use erdc_hpc_scripts.Base.GoStrings.{trim_space, split}
use erdc_hpc_scripts.Base.Decimal.{AreDigits}
use erdc_hpc_scripts.Queue.Walltime.{
  FloatOps, Scan, Phase, between, whole, point, fraction, scanned, scan, to_lower, canon_hours,
  wall_canon, parse_trimmed, parse_walltime, two_digits, format_walltime, normalize_walltime,
  is_negative, int_limit, int_bits, is_blank, clock_seconds,
}
use erdc_hpc_scripts.Queue.Walltime.Clock.{
  clock, trim_space_none, to_lower_none, two_digits-AreDigits, format_walltime-clock, clock-IsClock,
  wall_canon-clock, split-clock, two_digits_some, clock_seconds_lem,
}

module _ {F : Type 0} (float : FloatOps F) where
  parse_trimmed-canon :
      (s : Text) → wall_canon s ≡ true → parse_trimmed float s ≡ some (clock_seconds (split s 58))
  unfolding wall_canon
  parse_trimmed-canon [] h = cc
  parse_trimmed-canon (c ∷ s) h = rw h refl

  -- Every number of seconds that an int holds and that is not negative is read back from its
  -- walltime.
  pub parse_walltime-format_walltime :
      (sec : ℕ) → sec < int_limit → parse_walltime float (format_walltime sec) ≡ some sec
  unfolding parse_walltime
  parse_walltime-format_walltime sec h =
      let hours = two_digits (sec / 3600) in
      let digits = two_digits-AreDigits (sec / 3600) in
      let m : sec % 3600 / 60 < 60 = omega arith in
      let s : sec % 60 < 60 = omega arith in
      let plain = clock-IsClock hours (sec % 3600 / 60) (sec % 60) digits m s in
      let text : Text = clock hours (sec % 3600 / 60) (sec % 60) in
      let canon =
        wall_canon-clock hours (sec % 3600 / 60) (sec % 60) digits (two_digits_some _) m s in
      rw (format_walltime-clock sec h, trim_space_none text plain, to_lower_none text plain)
        (parse_trimmed-canon text canon
          ∙ ap some (
              ap clock_seconds (split-clock hours (sec % 3600 / 60) (sec % 60) digits m s)
              ∙ clock_seconds_lem (sec / 3600) (sec % 3600 / 60) (sec % 60) (omega arith) m s
              ∙ omega arith))

  blank-clock : (hours : Text) (m s : ℕ) → is_blank (clock hours m s) ≡ false
  blank-clock [] m s = refl
  blank-clock (c ∷ hours) m s = refl

  format_walltime_full :
      (sec : ℕ) → sec < int_limit → is_blank (trim_space (format_walltime sec)) ≡ false
  format_walltime_full sec h =
      let hours = two_digits (sec / 3600) in
      let plain =
        clock-IsClock hours (sec % 3600 / 60) (sec % 60) (two_digits-AreDigits (sec / 3600))
          (omega arith) (omega arith) in
      rw
        (
          format_walltime-clock sec h,
          trim_space_none (clock hours (sec % 3600 / 60) (sec % 60)) plain,
        )
        (blank-clock hours (sec % 3600 / 60) (sec % 60))

  format_walltime-int :
      (sec : ℕ)
      → sec < int_bits
      → (sec' : ℕ) × (sec' < int_limit) × (format_walltime sec ≡ format_walltime sec')
  unfolding format_walltime
  format_walltime-int sec h = elim (dec_lt sec int_limit) [
    | yes small ↦ (sec, small, refl)
    | no large ↦ let e : is_negative sec ≡ true = ground arith in (0, omega arith, rw e refl)
  ]

  -- A number that fits in 64 bits, if there is one.
  abbrev Fits : Option ℕ → Type 0
  Fits none = Unit
  Fits (some n) = n < int_bits

  if-Fits : (b : Bool) (o o' : Option ℕ) → Fits o → Fits o' → Fits (if b then o else o')
  if-Fits true o o' h h' = h
  if-Fits false o o' h h' = h'

  clock_seconds-Fits : (ps : List Text) → Fits (some (clock_seconds ps))
  clock_seconds-Fits [] = omega arith
  clock_seconds-Fits (h ∷ []) = omega arith
  clock_seconds-Fits (h ∷ m ∷ []) = omega arith
  clock_seconds-Fits (h ∷ m ∷ s ∷ rest) = omega arith

  module _ (ints : (x : F) → float.round_int x < int_bits) where
    scanned-Fits : (o : Option (Scan F)) → Fits (scanned float o)
    scanned-Fits none = tt
    scanned-Fits (some st) = by_phase st.phase
      where
        by_phase :
            (p : Phase)
            → Fits (elim p [
              | between ↦
                  if float.is_below_zero st.total then none else some (float.round_int st.total)
              | _ ↦ none
            ])
        by_phase between = if-Fits (float.is_below_zero st.total) none _ tt (ints st.total)
        by_phase whole = tt
        by_phase point = tt
        by_phase fraction = tt

    parse_trimmed-Fits : (s : Text) → Fits (parse_trimmed float s)
    parse_trimmed-Fits [] = tt
    parse_trimmed-Fits (c ∷ s) =
        if-Fits (wall_canon (c ∷ s)) _ _ (clock_seconds-Fits _) (scanned-Fits _)

    -- What a walltime is normalized to.
    abbrev IsNormal : Option Text → Type 0
    IsNormal none = Unit
    IsNormal (some t) = (t ≡ []) ⊎ ((sec : ℕ) × (sec < int_limit) × (t ≡ format_walltime sec))

    normalize_walltime-IsNormal : (s : Text) → IsNormal (normalize_walltime float s)
    unfolding normalize_walltime parse_walltime
    normalize_walltime-IsNormal s =
        by_blank (is_blank (trim_space s)) (parse_walltime float s)
          (parse_trimmed-Fits (to_lower (trim_space s)))
      where
        by_blank :
            (b : Bool) (o : Option ℕ)
            → Fits o
            → IsNormal (if b then some [] else Option.map format_walltime o)
        by_blank true o h = inl refl
        by_blank false none h = tt
        by_blank false (some n) h = inr (format_walltime-int n h)

    normalize_walltime_full :
        (s : Text)
        → is_blank (trim_space s) ≡ false
        → normalize_walltime float s ≡ Option.map format_walltime (parse_walltime float s)
    unfolding normalize_walltime
    normalize_walltime_full s h =
        ap
          (λ (b : Bool). if b then some [] else Option.map format_walltime (parse_walltime float s))
          h

    normalize_walltime_normal : (t : Text) → IsNormal (some t) → normalize_walltime float t ≡ some t
    unfolding normalize_walltime
    normalize_walltime_normal t (inl e) =
        subst (λ u. normalize_walltime float u ≡ some u) (sym e) refl
    normalize_walltime_normal t (inr (sec, l, e)) =
        subst (λ u. normalize_walltime float u ≡ some u) (sym e)
          (normalize_walltime_full (format_walltime sec) (format_walltime_full sec l)
            ∙ ap (Option.map format_walltime) (parse_walltime-format_walltime sec l))

    -- Normalizing a normalized walltime changes nothing, if the rounding of a float gives a
    -- 64-bit int.
    pub normalize_walltime_idem :
        (s t : Text) → normalize_walltime float s ≡ some t → normalize_walltime float t ≡ some t
    normalize_walltime_idem s t h =
        normalize_walltime_normal t (subst IsNormal h (normalize_walltime-IsNormal s))

  wall_canon-digits : (s : Text) → AreDigits s → canon_hours s ≡ false
  unfolding canon_hours
  wall_canon-digits [] h = refl
  wall_canon-digits (c ∷ s) h = rw h.0 (wall_canon-digits s h.1)

  -- A scan that is in a number, with what it has read of it and the sum before.
  abbrev in_number : Text → F → Option (Scan F)
  in_number ds total = some (record { phase = whole; digits_read = ds; total = total })

  scan-digits :
      (s ds : Text) (total : F)
      → AreDigits s
      → scanned float (scan float s (in_number ds total)) ≡ none
  unfolding scan
  scan-digits [] ds total h = refl
  scan-digits (c ∷ s) ds total h = rw (h.0, scan) (scan-digits s (ds ++ c ∷ []) total h.1)

  parse_trimmed-digits : (s : Text) → AreDigits s → parse_trimmed float s ≡ none
  unfolding wall_canon scan
  parse_trimmed-digits [] h = refl
  parse_trimmed-digits (c ∷ s) h =
      rw (h.0, wall_canon-digits s h.1, scan) (scan-digits s (c ∷ []) float.zero_float h.1)

  -- A bare number, a text of digits alone, is no walltime.
  pub parse_walltime-digits : (s : Text) → AreDigits s → parse_walltime float s ≡ none
  unfolding parse_walltime
  parse_walltime-digits s h =
      let plain = All-map (λ c d. ground arith) s h in
      rw (trim_space_none s plain, to_lower_none s plain) (parse_trimmed-digits s h)
