-- ===== src/Examples/Mirror.antt =====
-- internal/mirror/mirror.go on a home and a scratch root, with a group's share below the home.
use erdc_hpc_scripts.Base.{◌≡◌, refl, some, List, [], ◌∷◌, ◌++◌, text_eq, codes, All}
use erdc_hpc_scripts.Base.GoStrings.{join, cut_prefix}
use erdc_hpc_scripts.Mirror.Resolve.{
  MirrorSet, Match, locate, is_case, is_run_id, classify, staged_inputs, archived, Site, archive,
}
use erdc_hpc_scripts.Mirror.Resolve.Longest.{IsMatch, Covers, locate-IsLongest}
use erdc_hpc_scripts.Mirror.Resolve.Runs.{classify-append}
use erdc_hpc_scripts.Mirror.Resolve.Tiers.{IsAuthorised, archive-IsAuthorised}

abbrev sets : List MirrorSet
sets =
    record { name = codes "default"; roots = codes "/h" ∷ codes "/w" ∷ []; archive_rel = [] }
    ∷ record { name = codes "group"; roots = codes "/h/g" ∷ []; archive_rel = codes "grp" }
    ∷ []

abbrev site : Site
site = record {
  archive_home = codes "/a";
  sets = sets;
  data_dir = codes "data";
  glob = codes "case_*";
  join_path = λ ps. join ps 47;
}

group_wins :
    locate sets (codes "/h/g/x")
    ≡ some (record {
      set = record { name = codes "group"; roots = codes "/h/g" ∷ []; archive_rel = codes "grp" };
      root_idx = 0;
      root = codes "/h/g";
      rel = codes "x";
    })
unfolding locate text_eq cut_prefix
group_wins = refl

run_archived : archive site (codes "/w/p/case_b_12-3/o") ≡ archived (codes "/a//p/case_b/12-3/o")
unfolding archive text_eq cut_prefix
run_archived = refl

copy_refused : archive site (codes "/w/p/case_b") ≡ staged_inputs
unfolding archive text_eq cut_prefix
copy_refused = refl

locate-IsLongest_example :
    IsMatch (codes "/h/g/x") (locate sets (codes "/h/g/x"))
    × All (λ s. All (Covers (codes "/h/g/x") (locate sets (codes "/h/g/x"))) s.roots) sets
locate-IsLongest_example = locate-IsLongest sets (codes "/h/g/x")

classify-append_example :
    classify (codes "case_*") (codes "case_1_2" ++ 95 ∷ codes "34")
    ≡ some (codes "case_1_2", codes "34")
unfolding is_case is_run_id
classify-append_example = classify-append (codes "case_*") (codes "case_1_2") (codes "34") refl refl

archive-IsAuthorised_example :
    (m : Match) × (locate sets (codes "/w/p/case_b_12-3/o") ≡ some m) × IsAuthorised site m
archive-IsAuthorised_example =
    archive-IsAuthorised site (codes "/w/p/case_b_12-3/o") (codes "/a//p/case_b/12-3/o")
      run_archived
