-- ===== src/Queue/Listing.antt =====
-- internal/queue/queue.go: the listings of the schedulers, PBS's qstat and SLURM's squeue and sacct, as
-- jobs. `upper` and `lower` stand for `strings.ToUpper` and `strings.ToLower`.
use erdc_hpc_scripts.Base.{
  ℕ, zero, suc, ◌+◌, ◌-◌, Bool, true, false, not, ◌&&◌, ◌||◌, Option, none, some, List, [], ◌∷◌,
  Text, codes, text_eq, leb, ◌==◌, get_elem?, length, if◌then◌else◌,
}
use mathlib.Core.Option
use erdc_hpc_scripts.Base.GoStrings.{
  has_prefix, contains_text, split, fields, trim_space, trim_right, cut, cut_last,
}
use erdc_hpc_scripts.Queue.States.{pbs_state, slurm_state}
use erdc_hpc_scripts.Queue.Job.{
  State, unknown, running, queued, held, exiting, complete, waiting, suspended, Job, no_job,
}
pub mod Delim
pub mod Layout

-- `shortID`
abbrev pub cut_id : Text → Option (Text × Text) → Text
cut_id id none = id
cut_id id (some ([], rest)) = id
cut_id id (some (c ∷ head, rest)) = c ∷ head

unfoldable pub short_id_of : Text → Text
unfolding cut
short_id_of id = cut_id id (cut id 46)

-- `at`; past the end it is empty.
abbrev pub or_blank : Option Text → Text
or_blank none = []
or_blank (some s) = s

abbrev pub at : List Text → ℕ → Text
at f i = or_blank (get_elem? f i)

-- `PendingReason`
abbrev pub unquoted : Text → Option Text → Text
unquoted s none = []
unquoted s (some r) = r

abbrev pub bracketed : Text → Text
bracketed [] = []
bracketed (c ∷ s) = if c == 40 then or_blank (cut_last 41 s) else []

unfoldable pub pending_reason : Job → Text
unfolding trim_space cut_last
pending_reason j = bracketed (trim_space j.reason)

-- `strings.Count` of one character
unfoldable pub count : Text → ℕ → ℕ
count [] sep = 0
count (c ∷ s) sep = let rest = count s sep in if c == sep then suc rest else rest

-- The cutset " \t\r"
abbrev pub is_line_end : ℕ → Bool
is_line_end c = c == 32 || c == 9 || c == 13

-- What `ParsePBS` remembers of the lines before.
pub record PbsScan : Type 0 where
  pub wide : Bool
  pub seen_rule : Bool

abbrev pub onto_job : Option Job → List Job → List Job
onto_job none jobs = jobs
onto_job (some j) jobs = j ∷ jobs

abbrev pub is_rule : Text → Bool
is_rule t = has_prefix (trim_space t) (codes "---")

abbrev pub is_wide : Text → Bool
is_wide t = contains_text t (codes "NDS") || contains_text t (codes "Elap")

abbrev pub is_blank : Text → Bool
is_blank t = text_eq (trim_space t) []

abbrev pub first_word : Text → List Text → Text
first_word s [] = s
first_word s (w ∷ ws) = w

-- The loop of `ParseSLURMDelim` and that of `ParseSacct`, which differ in the job of a line.
unfoldable pub parse_lines : (List Text → Option Job) → List Text → List Job
unfolding trim_space split
parse_lines job [] = []
parse_lines job (line ∷ lines) =
    let t = trim_space line in
    let rest = parse_lines job lines in
    if text_eq t [] then rest else onto_job (job (split t 124)) rest

-- What `Parse` does without a header.
abbrev pub or_slurm : List Job → List Job → List Job
or_slurm [] slurm = slurm
or_slurm (j ∷ jobs) slurm = j ∷ jobs

module _ (lower : Text → Text) where
  -- The header of qstat, its rule, and the columns of the wide format.
  abbrev pub is_pbs_header : Text → Bool
  is_pbs_header t = has_prefix (lower (trim_space t)) (codes "job id")

module _ (upper : Text → Text) where
  -- A data line of the wide format of qstat, by its fields, and of the default one.
  unfoldable pub wide_job : List Text → Option Job
  unfolding pbs_state short_id_of
  wide_job (id ∷ user ∷ queue ∷ name ∷ sess ∷ nds ∷ tsk ∷ mem ∷ time ∷ s ∷ elap ∷ more) =
      some (record no_job {
        id = id;
        user = user;
        queue = queue;
        name = name;
        nodes = nds;
        req_wall = time;
        state = pbs_state upper s;
        raw_state = s;
        elapsed = elap;
        short_id = short_id_of id;
      })
  wide_job _ = none

  unfoldable pub default_job : List Text → Option Job
  unfolding pbs_state short_id_of
  default_job (id ∷ name ∷ user ∷ used ∷ s ∷ queue ∷ more) = some (record no_job {
    id = id;
    name = name;
    user = user;
    elapsed = used;
    state = pbs_state upper s;
    raw_state = s;
    queue = queue;
    short_id = short_id_of id;
  })
  default_job _ = none

  abbrev pub pbs_job : Bool → List Text → Option Job
  pbs_job true f = wide_job f
  pbs_job false f = default_job f

  -- A data line of squeue.
  unfoldable pub slurm_job : List Text → Option Job
  unfolding slurm_state
  slurm_job (id ∷ queue ∷ name ∷ user ∷ st ∷ time ∷ nodes ∷ reason ∷ more) = some (record no_job {
    id = id;
    short_id = id;
    queue = queue;
    name = name;
    user = user;
    state = slurm_state upper st;
    raw_state = st;
    elapsed = time;
    nodes = nodes;
    reason = reason;
  })
  slurm_job _ = none

  abbrev pub is_slurm_header : Text → Bool
  is_slurm_header t = has_prefix (upper t) (codes "JOBID")

  -- The loop of `ParseSLURM`, with the variable `seenHeader`.
  unfoldable pub parse_slurm_from : Bool → List Text → List Job
  unfolding slurm_job has_prefix trim_space fields
  parse_slurm_from seen [] = []
  parse_slurm_from seen (line ∷ lines) =
      let t = trim_space line in
      let skip = text_eq t [] in
      let rest = parse_slurm_from (seen || (not skip && is_slurm_header t)) lines in
      if skip || is_slurm_header t || not seen then rest else onto_job (slurm_job (fields t)) rest

  -- `ParseSLURM`
  unfoldable pub parse_slurm : Text → List Job
  unfolding parse_slurm_from split
  parse_slurm out = parse_slurm_from false (split out 10)

  -- A line of the delimited format.
  unfoldable pub delim_job : List Text → Option Job
  unfolding slurm_state
  delim_job (id ∷ queue ∷ name ∷ user ∷ st ∷ time ∷ limit ∷ nodes ∷ reason ∷ more) =
      some (record no_job {
        id = id;
        short_id = id;
        queue = queue;
        name = name;
        user = user;
        state = slurm_state upper st;
        raw_state = st;
        elapsed = time;
        req_wall = limit;
        nodes = nodes;
        reason = reason;
        start = at more 0;
      })
  delim_job _ = none

  -- A line of sacct.
  unfoldable pub sacct_job : List Text → Option Job
  unfolding slurm_state short_id_of fields
  sacct_job (id ∷ name ∷ user ∷ queue ∷ st ∷ time ∷ limit ∷ nodes ∷ more) = some (record no_job {
    id = id;
    short_id = short_id_of id;
    name = name;
    user = user;
    queue = queue;
    state = slurm_state upper (first_word st (fields st));
    raw_state = st;
    elapsed = time;
    req_wall = limit;
    nodes = nodes;
    submit = at more 0;
    start = at more 1;
    end = at more 2;
  })
  sacct_job _ = none

  -- `ParseSLURMDelim`
  unfoldable pub parse_slurm_delim : Text → List Job
  unfolding parse_lines delim_job
  parse_slurm_delim out = parse_lines delim_job (split out 10)

  -- `ParseSacct`
  unfoldable pub parse_sacct : Text → List Job
  unfolding parse_lines sacct_job
  parse_sacct out = parse_lines sacct_job (split out 10)

module _ (lower upper : Text → Text) where
  -- The loop of `ParsePBS`.
  unfoldable pub parse_pbs_from : PbsScan → List Text → List Job
  unfolding wide_job default_job has_prefix contains_text trim_space trim_right fields text_eq
  parse_pbs_from k [] = []
  parse_pbs_from k (line ∷ lines) =
      let t = trim_right is_line_end line in
      let header = is_pbs_header lower t in
      let rest =
        parse_pbs_from
          (if is_blank t
            then k
            else if header
            then record { wide = is_wide t; seen_rule = false }
            else if is_rule t
            then record { wide = k.wide; seen_rule = true }
            else k)
          lines in
      if is_blank t || header || is_rule t || not k.seen_rule
      then rest
      else onto_job (pbs_job upper k.wide (fields t)) rest

  -- `ParsePBS`
  unfoldable pub parse_pbs : Text → List Job
  unfolding parse_pbs_from split
  parse_pbs out = parse_pbs_from (record { wide = false; seen_rule = false }) (split out 10)

  -- The loop of `Parse`.
  unfoldable pub parse_from : Text → List Text → List Job
  unfolding parse_pbs parse_slurm parse_slurm_delim count
  parse_from out [] = or_slurm (parse_pbs out) (parse_slurm upper out)
  parse_from out (line ∷ lines) =
      let rest = parse_from out lines in
      let up = upper (trim_space line) in
      if text_eq (trim_space line) []
      then rest
      else if has_prefix up (codes "JOBID")
      then parse_slurm upper out
      else if has_prefix up (codes "JOB ID")
      then parse_pbs out
      else if leb 8 (count line 124)
      then parse_slurm_delim upper out
      else rest

  -- `Parse`
  unfoldable pub parse_listing : Text → List Job
  unfolding parse_from
  parse_listing out = parse_from out (split out 10)
