-- ===== src/Queue/Select/Union.antt =====
-- internal/queue/select.go: `MatchAll` is the union of what its tokens match, each job once.
use erdc_hpc_scripts.Base.{
  ◌≡◌, refl, ◌∙◌, subst, ◌⊎◌, inl, inr, Bool, true, false, ◌||◌, List, [], ◌∷◌, ◌++◌, arith, Text,
  text_eq, text_eq_sym, text_eq_refl, text_eq_sound, if◌then◌else◌, Bool-cases, Any,
}
use erdc_hpc_scripts.Queue.Job.{Job}
use erdc_hpc_scripts.Queue.Select.{Regexps, match_id, match, has_id, add_new, match_from, match_all}

abbrev pub IsIn : Job → List Job → Type 0
IsIn j jobs = Any (λ k. k ≡ j) jobs

-- No two of the jobs have one id.
abbrev pub AreDistinct : List Job → Type 0
AreDistinct [] = Unit
AreDistinct (j ∷ jobs) = (has_id j.id jobs ≡ false) × AreDistinct jobs

has_id-append :
    (i : Text) (out : List Job) (j : Job)
    → has_id i (out ++ j ∷ []) ≡ (has_id i out || text_eq j.id i)
unfolding has_id
has_id-append i [] j = ground arith
has_id-append i (k ∷ out) j = ground (arith, has_id-append i out j)

append-AreDistinct :
    (out : List Job) (j : Job)
    → has_id j.id out ≡ false
    → AreDistinct out
    → AreDistinct (out ++ j ∷ [])
unfolding has_id
append-AreDistinct [] j h d = (refl, tt)
append-AreDistinct (k ∷ out) j h d = (
  ground (arith, has_id-append k.id out j, text_eq_sym j.id k.id, d.0),
  append-AreDistinct out j (ground arith) d.1,
)

add_new-AreDistinct : (jobs out : List Job) → AreDistinct out → AreDistinct (add_new out jobs)
unfolding add_new
add_new-AreDistinct [] out d = d
add_new-AreDistinct (j ∷ jobs) out d =
    add_new-AreDistinct jobs _ (elim (Bool-cases (has_id j.id out)) [
      | inl e ↦ rw e d
      | inr e ↦ rw e (append-AreDistinct out j e d)
    ])

-- The ids that are out after a loop: those from before and those of the new jobs.
add_new-has_id :
    (i : Text) (jobs out : List Job) → has_id i (add_new out jobs) ≡ (has_id i out || has_id i jobs)
unfolding add_new has_id
add_new-has_id i [] out = ground arith
add_new-has_id i (j ∷ jobs) out = add_new-has_id i jobs _ ∙ elim (Bool-cases (has_id j.id out)) [
  | inl e ↦ rw e (ground (arith, known e))
  | inr e ↦ rw e (ground (arith, has_id-append i out j))
]
  where
    known : has_id j.id out ≡ true → (text_eq j.id i ≡ false) ⊎ (has_id i out ≡ true)
    known e = elim (Bool-cases (text_eq j.id i)) [
      | inl same ↦ inr (subst (λ k. has_id k out ≡ true) (text_eq_sound j.id i same) e)
      | inr other ↦ inl other
    ]

Any-append : (P : Job → Type 0) (out : List Job) (j : Job) → Any P (out ++ j ∷ []) → Any P out ⊎ P j
Any-append P [] j (inl h) = inr h
Any-append P [] j (inr h) = absurd h
Any-append P (k ∷ out) j (inl h) = inl (inl h)
Any-append P (k ∷ out) j (inr h) = elim (Any-append P out j h) [
  | inl k ↦ inl (inr k)
  | inr k ↦ inr k
]

add_new-IsIn :
    (j : Job) (jobs out : List Job) → IsIn j (add_new out jobs) → IsIn j out ⊎ IsIn j jobs
unfolding add_new
add_new-IsIn j [] out h = inl h
add_new-IsIn j (k ∷ jobs) out h = elim (add_new-IsIn j jobs _ h) [
  | inr a ↦ inr (inr a)
  | inl a ↦ before (has_id k.id out) a
]
  where
    before : (b : Bool) → IsIn j (if b then out else out ++ k ∷ []) → IsIn j out ⊎ IsIn j (k ∷ jobs)
    before true a = inl a
    before false a = elim (Any-append _ out k a) [ inl c ↦ inl c | inr c ↦ inr (inl c) ]

has_id-IsIn : (j : Job) (jobs : List Job) → IsIn j jobs → has_id j.id jobs ≡ true
unfolding has_id
has_id-IsIn j [] h = absurd h
has_id-IsIn j (k ∷ jobs) (inl e) =
    let same : text_eq k.id j.id ≡ true = rw e (text_eq_refl j.id) in ground arith
has_id-IsIn j (k ∷ jobs) (inr h) = ground (arith, has_id-IsIn j jobs h)

pub match_id-IsIn :
    (f : Job → Bool) (j : Job) (jobs : List Job) → IsIn j (match_id f jobs) → IsIn j jobs
unfolding match_id
match_id-IsIn f j [] h = h
match_id-IsIn f j (k ∷ jobs) h = by_test (f k) h (match_id-IsIn f j jobs)
  where
    by_test :
        (b : Bool)
        → IsIn j (if b then k ∷ match_id f jobs else match_id f jobs)
        → (IsIn j (match_id f jobs) → IsIn j jobs)
        → IsIn j (k ∷ jobs)
    by_test true (inl e) ih = inl e
    by_test true (inr a) ih = inr (ih a)
    by_test false a ih = inr (ih a)

module _ (regexps : Regexps) (jobs : List Job) (force_pattern : Bool) where
  -- A token that picks a job.
  abbrev pub PickedBy : Job → List Text → Type 0
  PickedBy j tokens = Any (λ t. IsIn j (match regexps jobs t force_pattern)) tokens

  match_from-AreDistinct :
      (tokens : List Text) (out : List Job)
      → AreDistinct out
      → AreDistinct (match_from regexps jobs tokens force_pattern out)
  unfolding match_from
  match_from-AreDistinct [] out d = d
  match_from-AreDistinct (t ∷ tokens) out d =
      match_from-AreDistinct tokens _
        (add_new-AreDistinct (match regexps jobs t force_pattern) out d)

  match_from-PickedBy :
      (j : Job) (tokens : List Text) (out : List Job)
      → IsIn j (match_from regexps jobs tokens force_pattern out)
      → IsIn j out ⊎ PickedBy j tokens
  unfolding match_from
  match_from-PickedBy j [] out h = inl h
  match_from-PickedBy j (t ∷ tokens) out h = elim (match_from-PickedBy j tokens _ h) [
    | inr p ↦ inr (inr p)
    | inl a ↦ elim (add_new-IsIn j (match regexps jobs t force_pattern) out a) [
      | inl b ↦ inl b
      | inr b ↦ inr (inl b)
    ]
  ]

  match_from-has_id :
      (i : Text) (tokens : List Text) (out : List Job)
      → has_id i out ≡ true
      → has_id i (match_from regexps jobs tokens force_pattern out) ≡ true
  unfolding match_from
  match_from-has_id i [] out h = h
  match_from-has_id i (t ∷ tokens) out h =
      match_from-has_id i tokens _
        (ground (arith, h, add_new-has_id i (match regexps jobs t force_pattern) out))

  match_from-covers :
      (j : Job) (tokens : List Text) (out : List Job)
      → PickedBy j tokens
      → has_id j.id (match_from regexps jobs tokens force_pattern out) ≡ true
  unfolding match_from
  match_from-covers j [] out p = absurd p
  match_from-covers j (t ∷ tokens) out (inl h) = match_from-has_id j.id tokens _ (
      ground
        (arith, has_id-IsIn j _ h, add_new-has_id j.id (match regexps jobs t force_pattern) out))
  match_from-covers j (t ∷ tokens) out (inr p) = match_from-covers j tokens _ p

  -- A list of jobs is the union of what tokens pick.
  pub record IsUnion (tokens : List Text) (picked : List Job) : Type 0 where
    pub distinct : AreDistinct picked
    pub sound : (j : Job) → IsIn j picked → PickedBy j tokens
    pub covers : (j : Job) → PickedBy j tokens → has_id j.id picked ≡ true

  -- MatchAll gives the union of what its tokens match: no id twice, no job that no token matched,
  -- and the id of every job that one of them matched.
  pub match_all-IsUnion :
      (tokens : List Text) → IsUnion tokens (match_all regexps jobs tokens force_pattern)
  unfolding match_all
  match_all-IsUnion tokens = record {
    distinct = match_from-AreDistinct tokens [] tt;
    sound = λ j h. elim (match_from-PickedBy j tokens [] h) [ inl a ↦ absurd a | inr p ↦ p ];
    covers = λ j p. match_from-covers j tokens [] p;
  }
