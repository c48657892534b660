-- ===== src/Render/Literal/Pairs.antt =====
-- internal/render/collection.go: a map that is written is read back.
use erdc_hpc_scripts.Base.{
  ℕ, ◌≡◌, refl, sym, ◌∙◌, ap, subst, inl, inr, true, false, some, List, [], ◌∷◌, ◌++◌, arith, Text,
  ◌==◌, All, All-append, append_assoc,
}
use mathlib.Core.List.{map}
use erdc_hpc_scripts.Base.GoStrings.{is_space, trim_right, trim_space, split, cut, join_with}
use erdc_hpc_scripts.Base.Trim.{
  IsFree, trim_space-append, trim_space-cons, split-append, split_whole, trim_space-All, Trimmed,
  trim_space-cases, trim_space_blank, trim_space_behind, is_space-blank,
}
use erdc_hpc_scripts.Render.Literal.{
  unquote_lit, quote_lit, parts_of, onto_pair, onto_assigned, map_pairs, parse_map, comma,
  in_brackets, onto_entry, quoted_pairs, format_map,
}
use erdc_hpc_scripts.Render.Literal.Items.{item-blank, quote_lit-IsFree, parts_of-brackets}

-- The pairs of a map whose keys are not blank, trimmed.
pub trimmed_pairs : List (Text × Text) → List (Text × Text)
trimmed_pairs [] = []
trimmed_pairs ((k, v) ∷ pairs) = onto_pair (trim_space k) (trim_space v) (trimmed_pairs pairs)

cut-append : (q : ℕ) (s t : Text) → IsFree q s → cut (s ++ q ∷ t) q ≡ some (s, t)
unfolding cut
cut-append q [] t h = let e : (q == q) ≡ true = ground arith in rw e refl
cut-append q (c ∷ s) t (e, h) = rw (e, cut-append q s t h) refl

-- A trimmed key, a full one, in front of its value.
abbrev entry : Text → Text → Text
entry k v = k ++ (32 ∷ 61 ∷ 32 ∷ quote_lit v)

-- One part of a map is read as its pair.
abbrev IsRead : Text → Text → Text → Type 0
IsRead part k v =
    (pairs : List (Text × Text)) → onto_assigned (cut (trim_space part) 61) pairs ≡ (k, v) ∷ pairs

cut-entry : (k v : Text) → IsFree 61 k → cut (entry k v) 61 ≡ some (k ++ 32 ∷ [], 32 ∷ quote_lit v)
cut-entry k v h =
    ap (λ s. cut s 61) (sym (append_assoc k (32 ∷ []) (61 ∷ 32 ∷ quote_lit v)))
    ∙ cut-append 61 (k ++ 32 ∷ []) (32 ∷ quote_lit v) (All-append _ k (32 ∷ []) h (refl, tt))

entry_append : (k v : Text) → entry k v ≡ (k ++ (32 ∷ 61 ∷ 32 ∷ 34 ∷ v)) ++ 34 ∷ []
entry_append k v = sym (append_assoc k (32 ∷ 61 ∷ 32 ∷ 34 ∷ v) (34 ∷ []))

trim_space-entry :
    (k v : Text) → Trimmed k → trim_space (entry (trim_space k) v) ≡ entry (trim_space k) v
unfolding is_space
trim_space-entry k v t =
    subst (λ s. trim_space (entry s v) ≡ entry s v) (sym t.shape)
      (subst (λ s. trim_space s ≡ s) (sym (entry_append (t.first ∷ trim_right is_space t.rest) v))
        (trim_space-append t.first (trim_right is_space t.rest ++ (32 ∷ 61 ∷ 32 ∷ 34 ∷ v)) 34
          t.no_space refl))

onto_pair-Trimmed :
    (k v : Text) (pairs : List (Text × Text))
    → Trimmed k
    → onto_pair (trim_space k) v pairs ≡ (trim_space k, v) ∷ pairs
onto_pair-Trimmed k v pairs t = subst (λ s. onto_pair s v pairs ≡ (s, v) ∷ pairs) (sym t.shape) refl

entry-IsRead :
    (k v : Text) → Trimmed k → IsFree 61 k → IsRead (entry (trim_space k) v) (trim_space k) v
entry-IsRead k v t h pairs =
    ap (λ s. onto_assigned (cut s 61) pairs) (trim_space-entry k v t)
    ∙ ap (λ o. onto_assigned o pairs) (cut-entry (trim_space k) v (trim_space-All _ k h))
    ∙ ap (λ s. onto_pair s (unquote_lit (trim_space (32 ∷ quote_lit v))) pairs)
        (trim_space_blank k t)
    ∙ ap (λ s. onto_pair (trim_space k) s pairs) (item-blank v)
    ∙ onto_pair-Trimmed k v pairs t

entry-IsFree : (k v : Text) → IsFree 44 k → IsFree 44 v → IsFree 44 (entry k v)
entry-IsFree k v hk hv = All-append _ k _ hk (refl, (refl, (refl, quote_lit-IsFree v hv)))

-- A pair whose entry holds no comma and is read as the pair.
abbrev IsPart : Text × Text → Type 0
IsPart (k, v) = IsRead (entry k v) k v × IsFree 44 (entry k v)

abbrev entry_of : Text × Text → Text
entry_of (k, v) = entry k v

-- What a map's pairs may not hold.
abbrev pub IsPlain : Text × Text → Type 0
IsPlain (k, v) = IsFree 44 k × IsFree 61 k × IsFree 44 v

trimmed_pairs-IsPart :
    (pairs : List (Text × Text)) → All IsPlain pairs → All IsPart (trimmed_pairs pairs)
unfolding trimmed_pairs
trimmed_pairs-IsPart [] h = tt
trimmed_pairs-IsPart ((k, v) ∷ pairs) h =
    let ih = trimmed_pairs-IsPart pairs h.1 in
    elim (trim_space-cases k) [
      | inl e ↦
          subst (λ s. All IsPart (onto_pair s (trim_space v) (trimmed_pairs pairs))) (sym e) ih
      | inr t ↦
          subst (All IsPart) (sym (onto_pair-Trimmed k (trim_space v) (trimmed_pairs pairs) t)) (
            (
              entry-IsRead k (trim_space v) t h.0.1,
              entry-IsFree (trim_space k) (trim_space v) (trim_space-All _ k h.0.0)
                  (trim_space-All _ v h.0.2),
            ),
            ih,
          )
    ]

quoted_pairs-trimmed_pairs :
    (pairs : List (Text × Text)) → quoted_pairs pairs ≡ map entry_of (trimmed_pairs pairs)
unfolding quoted_pairs trimmed_pairs
quoted_pairs-trimmed_pairs [] = refl
quoted_pairs-trimmed_pairs ((k, v) ∷ pairs) =
    by_key (trim_space k) (quoted_pairs-trimmed_pairs pairs)
  where
    by_key :
        (s : Text)
        → quoted_pairs pairs ≡ map entry_of (trimmed_pairs pairs)
        → onto_entry s (trim_space v) (quoted_pairs pairs)
          ≡ map entry_of (onto_pair s (trim_space v) (trimmed_pairs pairs))
    by_key [] ih = ih
    by_key (c ∷ s) ih = ap (λ xs. entry (c ∷ s) (trim_space v) ∷ xs) ih

-- The entries between blanks, as they stand between the braces.
map_pairs-split :
    (p : Text × Text) (ps : List (Text × Text))
    → All IsPart (p ∷ ps)
    → map_pairs (split (32 ∷ (join_with (map entry_of (p ∷ ps)) comma ++ 32 ∷ [])) 44) ≡ p ∷ ps
unfolding map_pairs join_with is_space
map_pairs-split p [] h =
    ap map_pairs (
      split_whole 44 (32 ∷ (entry_of p ++ 32 ∷ []))
        (refl, All-append _ (entry_of p) (32 ∷ []) h.0.1 (refl, tt)))
    ∙ ap (λ s. onto_assigned (cut s 61) [])
        (trim_space-cons 32 (entry_of p ++ 32 ∷ []) is_space-blank ∙ trim_space_behind (entry_of p))
    ∙ h.0.0 []
map_pairs-split p (q ∷ ps) h =
    let more : Text = join_with (map entry_of (q ∷ ps)) comma in
    ap (λ s. map_pairs (split (32 ∷ s) 44)) (append_assoc (entry_of p) (44 ∷ 32 ∷ more) (32 ∷ []))
    ∙ ap map_pairs (split-append 44 (32 ∷ entry_of p) (32 ∷ (more ++ 32 ∷ [])) (refl, h.0.1))
    ∙ ap (λ s. onto_assigned (cut s 61) (map_pairs (split (32 ∷ (more ++ 32 ∷ [])) 44)))
        (trim_space-cons 32 (entry_of p) is_space-blank)
    ∙ h.0.0 _
    ∙ ap (λ ps'. p ∷ ps') (map_pairs-split q ps h.1)

brace_no_space : (is_space 123 ≡ false) × (is_space 125 ≡ false)
unfolding is_space
brace_no_space = (refl, refl)

-- A map that is written and read again has its keys and values trimmed and without the blank
-- keys, if no key has a comma or an equals sign and no value has a comma.
pub parse_map-format_map :
    (pairs : List (Text × Text))
    → All IsPlain pairs
    → parse_map (format_map pairs) ≡ trimmed_pairs pairs
unfolding parse_map format_map
parse_map-format_map pairs h =
    ap (λ xs. map_pairs (parts_of (123 ∷ []) 125 (in_brackets (123 ∷ 32 ∷ []) (32 ∷ 125 ∷ []) xs)))
      (quoted_pairs-trimmed_pairs pairs)
    ∙ by_pairs (trimmed_pairs pairs) (trimmed_pairs-IsPart pairs h)
  where
    by_pairs :
        (ps : List (Text × Text))
        → All IsPart ps
        → map_pairs (
            parts_of (123 ∷ []) 125 (in_brackets (123 ∷ 32 ∷ []) (32 ∷ 125 ∷ []) (map entry_of ps)))
          ≡ ps
    by_pairs [] k = refl
    by_pairs (p ∷ ps) k =
        let inner : Text = join_with (map entry_of (p ∷ ps)) comma in
        ap (λ s. map_pairs (parts_of (123 ∷ []) 125 (123 ∷ 32 ∷ s)))
          (sym (append_assoc inner (32 ∷ []) (125 ∷ [])))
        ∙ ap map_pairs
            (parts_of-brackets 123 125 (32 ∷ (inner ++ 32 ∷ [])) brace_no_space.0 brace_no_space.1)
        ∙ map_pairs-split p ps k
