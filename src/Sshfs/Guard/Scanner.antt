-- ===== src/Sshfs/Guard/Scanner.antt =====
-- internal/sshfs/guard.go over many ticks: the count of hot samples, and what every run keeps.
use erdc_hpc_scripts.Base.{
  ℕ, ◌+◌, ◌≤◌, ◌<◌, ◌≡◌, refl, ◌↔◌, Bool, true, ◌⊎◌, inl, inr, List, [], ◌∷◌, ◌++◌, arith, All,
  length, All-append, All-append_inv,
}
use erdc_hpc_scripts.Sshfs.Guard.{GuardTuning, GuardState, Observation, decide, tick_of, count_hot}

-- The inputs of one tick.
pub record Sample : Type 0 where
  pub scanner_cpu : ℕ
  pub obs : List Observation
  pub now : ℕ
  pub ticket_ok : Bool

unfoldable pub run : GuardTuning → List Sample → GuardState → GuardState
run tun [] st = st
run tun (s ∷ samples) st = run tun samples (decide st s.scanner_cpu s.obs s.now tun s.ticket_ok).0

abbrev pub AllHot : GuardTuning → List Sample → Type 0
AllHot tun = All (λ s. tun.scanner_hot ≤ s.scanner_cpu)

run-append :
    (tun : GuardTuning) (xs ys : List Sample) (st : GuardState)
    → run tun (xs ++ ys) st ≡ run tun ys (run tun xs st)
unfolding run
run-append tun [] ys st = refl
run-append tun (s ∷ xs) ys st = run-append tun xs ys _

decide_ticks :
    (st : GuardState) (cpu : ℕ) (obs : List Observation) (now : ℕ) (tun : GuardTuning) (ok : Bool)
    → (decide st cpu obs now tun ok).0.scanner_hot_ticks ≡ count_hot st.scanner_hot_ticks cpu tun
unfolding decide
decide_ticks st cpu obs now tun ok = refl

count_hot_cases :
    (ticks cpu : ℕ) (tun : GuardTuning)
    → ((tun.scanner_hot ≤ cpu) × (count_hot ticks cpu tun ≡ ticks + 1))
      ⊎ ((cpu < tun.scanner_hot) × (count_hot ticks cpu tun ≡ 0))
unfolding count_hot
count_hot_cases ticks cpu tun = ground arith

-- A run adds at most one to the count for each sample.
run-le :
    (tun : GuardTuning) (ys : List Sample) (st : GuardState)
    → (run tun ys st).scanner_hot_ticks ≤ st.scanner_hot_ticks + length ys
unfolding run
run-le tun [] st = omega arith
run-le tun (s ∷ ys) st = ground (
  arith,
  run-le tun ys (decide st s.scanner_cpu s.obs s.now tun s.ticket_ok).0,
  decide_ticks st s.scanner_cpu s.obs s.now tun s.ticket_ok,
  count_hot_cases st.scanner_hot_ticks s.scanner_cpu tun,
)

-- It adds exactly one for each sample while they are all hot, and after a cold one less than the
-- number of samples is left.
run-cases :
    (tun : GuardTuning) (ys : List Sample) (st : GuardState)
    → (AllHot tun ys × ((run tun ys st).scanner_hot_ticks ≡ st.scanner_hot_ticks + length ys))
      ⊎ ((AllHot tun ys → ⊥) × ((run tun ys st).scanner_hot_ticks < length ys))
unfolding run
run-cases tun [] st = inl (tt, omega arith)
run-cases tun (s ∷ ys) st =
    let st' = (decide st s.scanner_cpu s.obs s.now tun s.ticket_ok).0 in
    let step = decide_ticks st s.scanner_cpu s.obs s.now tun s.ticket_ok in
    elim (count_hot_cases st.scanner_hot_ticks s.scanner_cpu tun) [
      | inl (hot, c) ↦ elim (run-cases tun ys st') [
        | inl (all, e) ↦ inl ((hot, all), omega arith)
        | inr (some_cold, lt) ↦ inr ((λ h. some_cold h.1), omega arith)
      ]
      | inr (cold, c) ↦ inr ((λ h. omega arith), omega (arith, run-le tun ys st'))
    ]

-- Whatever came before, the count of hot ticks reaches the number of the last samples exactly when
-- these were all hot.
pub run-AllHot_iff :
    (tun : GuardTuning) (st : GuardState) (xs ys : List Sample)
    → (length ys ≤ (run tun (xs ++ ys) st).scanner_hot_ticks) ↔ AllHot tun ys
run-AllHot_iff tun st xs ys =
    rw (run-append tun xs ys st) (elim (run-cases tun ys (run tun xs st)) [
      | inl (all, e) ↦ ((λ _. all), (λ _. omega arith))
      | inr (some_cold, lt) ↦ ((λ h. absurd (omega arith)), (λ h. absurd (some_cold h)))
    ])

-- A tick counts the scanner as hot exactly when as many samples as SustainTicks asks for were hot
-- up to and with its own, whatever came before.
pub run-scanner_hot_iff :
    (tun : GuardTuning) (st : GuardState) (xs ys : List Sample) (s : Sample)
    → tun.sustain_ticks ≡ length ys + 1
    → ((tick_of (run tun (xs ++ ys) st) s.scanner_cpu s.now tun s.ticket_ok).scanner_hot ≡ true)
      ↔ AllHot tun (ys ++ s ∷ [])
unfolding tick_of
run-scanner_hot_iff tun st xs ys s e =
    let before = (run tun (xs ++ ys) st).scanner_hot_ticks in
    let counted = count_hot_cases before s.scanner_cpu tun in
    let earlier = run-AllHot_iff tun st xs ys in
    (
      (λ h.
          All-append _ ys (s ∷ []) (earlier.0 (ground (arith, counted)))
            (ground (arith, counted), tt)),
      (λ h.
          let (all, (hot, _)) = All-append_inv _ ys (s ∷ []) h in
          ground (arith, counted, earlier.1 all)),
    )
