-- ===== src/Queue/Listing/Delim.antt =====
-- internal/queue/queue.go: the listing that squeue prints in the format "%i|%P|%j|%u|%t|%M|%l|%D|%R|%S".
use erdc_hpc_scripts.Base.{
  ℕ, suc, ◌≡◌, refl, ap, ◌∙◌, true, false, some, List, [], ◌∷◌, ◌++◌, arith, Text, codes, text_eq,
  ◌==◌, length, All,
}
use mathlib.Core.List.{map}
use erdc_hpc_scripts.Base.GoStrings.{has_prefix, split, join, trim_space, trim_right}
use erdc_hpc_scripts.Base.Trim.{IsFree, split-append, split_whole}
use erdc_hpc_scripts.Queue.Job.{Job, no_job}
use erdc_hpc_scripts.Queue.States.{slurm_state}
use erdc_hpc_scripts.Queue.Listing.{
  count, delim_job, parse_lines, parse_slurm_delim, parse_from, parse_listing, parse_pbs,
  parse_slurm, parse_pbs_from, parse_slurm_from,
}

-- What squeue prints of a job.
abbrev pub squeue_fields : Job → List Text
squeue_fields j =
    j.id ∷ j.queue ∷ j.name ∷ j.user ∷ j.raw_state ∷ j.elapsed ∷ j.req_wall ∷ j.nodes ∷ j.reason
    ∷ j.start ∷ []

abbrev pub squeue_line : Job → Text
squeue_line j = join (squeue_fields j) 124

pub split-join :
    (sep : ℕ) (f : Text) (fs : List Text)
    → All (IsFree sep) (f ∷ fs)
    → split (join (f ∷ fs) sep) sep ≡ f ∷ fs
unfolding join
split-join sep f [] h = split_whole sep f h.0
split-join sep f (g ∷ fs) h =
    split-append sep f (join (g ∷ fs) sep) h.0 ∙ ap (λ l. f ∷ l) (split-join sep g fs h.1)

count_free : (s : Text) (sep : ℕ) → IsFree sep s → count s sep ≡ 0
unfolding count
count_free [] sep h = refl
count_free (c ∷ s) sep (e, h) = rw (e, count_free s sep h) refl

count-append : (s t : Text) (sep : ℕ) → IsFree sep s → count (s ++ sep ∷ t) sep ≡ suc (count t sep)
unfolding count
count-append [] t sep h = let e : (sep == sep) ≡ true = ground arith in rw e refl
count-append (c ∷ s) t sep (e, h) = rw (e, count-append s t sep h) refl

count-join :
    (sep : ℕ) (f : Text) (fs : List Text)
    → All (IsFree sep) (f ∷ fs)
    → count (join (f ∷ fs) sep) sep ≡ length fs
unfolding join
count-join sep f [] h = count_free f sep h.0
count-join sep f (g ∷ fs) h =
    count-append f (join (g ∷ fs) sep) sep h.0 ∙ ap suc (count-join sep g fs h.1)

module _ (upper : Text → Text) where
  -- A job that squeue can print: no field has a bar, and the line is one line that has no space at its
  -- ends, is not empty and does not start like a header.
  pub record IsPrinted (j : Job) : Type 0 where
    pub no_bar : All (IsFree 124) (squeue_fields j)
    pub one_line : IsFree 10 (squeue_line j)
    pub no_space : trim_space (squeue_line j) ≡ squeue_line j
    pub not_empty : text_eq (squeue_line j) [] ≡ false
    pub no_jobid : has_prefix (upper (squeue_line j)) (codes "JOBID") ≡ false
    pub no_job_id : has_prefix (upper (squeue_line j)) (codes "JOB ID") ≡ false

  -- What the listing tells of a job.
  abbrev pub listed : Job → Job
  listed j = record no_job {
    id = j.id;
    short_id = j.id;
    queue = j.queue;
    name = j.name;
    user = j.user;
    state = slurm_state upper j.raw_state;
    raw_state = j.raw_state;
    elapsed = j.elapsed;
    req_wall = j.req_wall;
    nodes = j.nodes;
    reason = j.reason;
    start = j.start;
  }

  delim_job-squeue_line :
      (j : Job) → IsPrinted j → delim_job upper (split (squeue_line j) 124) ≡ some (listed j)
  unfolding delim_job
  delim_job-squeue_line j h = ap (delim_job upper) (
      split-join 124 j.id
        (j.queue ∷ j.name ∷ j.user ∷ j.raw_state ∷ j.elapsed ∷ j.req_wall ∷ j.nodes ∷ j.reason
          ∷ j.start ∷ [])
        h.no_bar)

  parse_lines-squeue_lines :
      (jobs : List Job)
      → All IsPrinted jobs
      → parse_lines (delim_job upper) (map squeue_line jobs) ≡ map listed jobs
  unfolding parse_lines
  parse_lines-squeue_lines [] h = refl
  parse_lines-squeue_lines (j ∷ jobs) (h, hs) =
      rw (h.no_space, h.not_empty, delim_job-squeue_line j h)
        (ap (λ js. listed j ∷ js) (parse_lines-squeue_lines jobs hs))

  lines-AreFree : (jobs : List Job) → All IsPrinted jobs → All (IsFree 10) (map squeue_line jobs)
  lines-AreFree [] h = tt
  lines-AreFree (j ∷ jobs) (h, hs) = (h.one_line, lines-AreFree jobs hs)

  -- A line of squeue tells the format.
  parse_from-squeue_line :
      (lower : Text → Text) (out : Text) (j : Job) (lines : List Text)
      → IsPrinted j
      → parse_from lower upper out (squeue_line j ∷ lines) ≡ parse_slurm_delim upper out
  unfolding parse_from
  parse_from-squeue_line lower out j lines h =
      rw
        (
          h.no_space,
          h.not_empty,
          h.no_jobid,
          h.no_job_id,
          count-join 124 j.id
              (j.queue ∷ j.name ∷ j.user ∷ j.raw_state ∷ j.elapsed ∷ j.req_wall ∷ j.nodes ∷ j.reason
                ∷ j.start ∷ [])
              h.no_bar,
        )
        refl

  -- What squeue prints of its jobs in the format of the fetch is read back job by job, with the
  -- state of each code, by the parser that finds out the format by itself, if squeue can print
  -- each job: no field has a bar, and its line is one line that is not empty, has no space at its
  -- ends and does not start like a header.
  pub parse_listing-squeue_lines :
      (lower : Text → Text) (jobs : List Job)
      → All IsPrinted jobs
      → parse_listing lower upper (join (map squeue_line jobs) 10) ≡ map listed jobs
  unfolding parse_listing parse_from parse_slurm_delim parse_pbs parse_slurm parse_pbs_from
      parse_slurm_from trim_right trim_space join
  parse_listing-squeue_lines lower [] h = refl
  parse_listing-squeue_lines lower (j ∷ jobs) (h, hs) =
      let out = join (map squeue_line (j ∷ jobs)) 10 in
      let lines : split out 10 ≡ map squeue_line (j ∷ jobs) =
        split-join 10 (squeue_line j) (map squeue_line jobs) (lines-AreFree (j ∷ jobs) (h, hs)) in
      ap (parse_from lower upper out) lines
      ∙ parse_from-squeue_line lower out j (map squeue_line jobs) h
      ∙ ap (parse_lines (delim_job upper)) lines
      ∙ parse_lines-squeue_lines (j ∷ jobs) (h, hs)
