-- ===== src/Job/Watch/Stall.antt =====
-- internal/job/watch.go: the stall judgement against the history of the percentages.
use erdc_hpc_scripts.Base.{
  ℕ, suc, ◌<◌, ◌≡◌, refl, sym, ◌∙◌, inl, inr, Bool, true, false, Option, none, some, List, [], ◌∷◌,
  arith, leb, if◌then◌else◌, Option-cases,
}
use erdc_hpc_scripts.Job.Watch.{
  HookResult, WatchState, initial, judge, judge?, watch_tick, watch_from, watch, is_last,
}

-- What `==` does on the numbers of a JSON text, which are never NaN.
pub record IsEquality {F : Type 0} (eq : F → F → Bool) : Type 0 where
  pub eq_refl : (a : F) → eq a a ≡ true
  pub eq_sym : (a b : F) → eq a b ≡ eq b a
  pub eq_left : (a b c : F) → eq a b ≡ true → eq a c ≡ eq b c

module _ {F : Type 0} (eq : F → F → Bool) where
  -- How many of the latest values, newest first, equal a given one.
  pub leading : F → List F → ℕ
  leading p [] = 0
  leading p (q ∷ older) = let rest = leading p older in if eq p q then suc rest else 0

  -- How many ticks the newest value has stood still for.
  abbrev pub quiet : List F → ℕ
  quiet [] = 0
  quiet (p ∷ older) = leading p older

-- The values of a history before some older ones, newest first.
abbrev push : {F : Type 0} → Option F → List F → List F
push none older = older
push (some p) older = p ∷ older

abbrev pub pcts : {F D : Type 0} → (D → Option F) → List (HookResult D) → List F → List F
pcts pct_of [] older = older
pcts pct_of (r ∷ results) older = pcts pct_of results (push (pct_of r.payload) older)

module _ {F : Type 0} {D : Type 0} (eq : F → F → Bool) (law : IsEquality eq) (pct_of : D → Option F)
    (limit : ℕ) (positive : 0 < limit) where
  -- The state agrees with the values seen so far, newest first.
  abbrev Agrees : WatchState F → List F → Type 0
  Agrees s [] = (s.last_pct ≡ none) × (s.unchanged ≡ 0) × (s.stalled ≡ false)
  Agrees s (p ∷ older) =
      (is_last eq pct_of limit p s.last_pct ≡ true)
      × (s.unchanged ≡ leading eq p older)
      × (s.stalled ≡ leb limit (leading eq p older))

  leading-eq : (a b : F) (older : List F) → eq a b ≡ true → leading eq a older ≡ leading eq b older
  unfolding leading
  leading-eq a b [] h = refl
  leading-eq a b (q ∷ older) h = rw (leading-eq a b older h, law.eq_left a b q h)

  same_class : (p q l : F) → eq q l ≡ true → eq p l ≡ eq p q
  same_class p q l h = law.eq_sym p l ∙ sym (law.eq_left q l p h) ∙ law.eq_sym q p

  judge-Agrees :
      (p : F) (s : WatchState F) (seen : List F)
      → Agrees s seen
      → Agrees (judge eq pct_of limit p s).0 (p ∷ seen)
  unfolding judge leading
  judge-Agrees p s [] h = ground (arith, law.eq_refl p)
  judge-Agrees p s (q ∷ older) h = elim (Option-cases s.last_pct) [
    | inl e ↦ absurd (ground arith)
    | inr (l, e) ↦ ground (arith, same_class p q l, leading-eq p q older, law.eq_refl p)
  ]

  tick-Agrees :
      (r : HookResult D) (s : WatchState F) (seen : List F)
      → Agrees s seen
      → Agrees (watch_tick eq pct_of limit r s).0 (push (pct_of r.payload) seen)
  unfolding watch_tick
  tick-Agrees r s seen h = by_value (pct_of r.payload)
    where
      by_value : (v : Option F) → Agrees (judge? eq pct_of limit v s).0 (push v seen)
      by_value none = h
      by_value (some p) = judge-Agrees p s seen h

  watch_from-Agrees :
      (results : List (HookResult D)) (s : WatchState F) (seen : List F)
      → Agrees s seen
      → Agrees (watch_from eq pct_of limit results s).0 (pcts pct_of results seen)
  unfolding watch_from
  watch_from-Agrees [] s seen h = h
  watch_from-Agrees (r ∷ results) s seen h = watch_from-Agrees results _ _ (tick-Agrees r s seen h)

  Agrees-quiet :
      (s : WatchState F) (seen : List F)
      → Agrees s seen
      → (s.unchanged ≡ quiet eq seen) × (s.stalled ≡ leb limit (quiet eq seen))
  Agrees-quiet s [] h = ground arith
  Agrees-quiet s (p ∷ older) h = (h.1, h.2)

  -- Through any history of hook results the counter of the loop is the number of ticks for which
  -- the latest percentage has stood still, results without a percentage left out, and the loop is
  -- in a stall exactly when that number has reached the limit, if the limit is positive and the
  -- test of percentages is an equality.
  pub watch_judges :
      (results : List (HookResult D))
      → let s = (watch eq pct_of limit results).0 in
        let n = quiet eq (pcts pct_of results []) in (s.unchanged ≡ n) × (s.stalled ≡ leb limit n)
  unfolding watch
  watch_judges results =
      Agrees-quiet _ (pcts pct_of results [])
        (watch_from-Agrees results initial [] (refl, refl, refl))
