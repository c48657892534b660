-- ===== src/Examples/Listing.antt =====
-- internal/queue/queue.go on a listing of qstat and one of squeue.
use erdc_hpc_scripts.Base.{◌-◌, ◌≡◌, refl, ◌&&◌, [], ◌∷◌, Text, text_eq, codes, leb, if◌then◌else◌}
use mathlib.Core.List.{map}
use erdc_hpc_scripts.Base.GoStrings.{join, trim_space, has_prefix}
use erdc_hpc_scripts.Base.Trim.{is_free, are_free, is_free-IsFree, are_free-IsFree}
use erdc_hpc_scripts.Queue.Walltime.{to_lower}
use erdc_hpc_scripts.Queue.Job.{exiting, waiting, Job, no_job}
use erdc_hpc_scripts.Queue.States.{pbs_state, slurm_state}
use erdc_hpc_scripts.Queue.Listing.{pending_reason, short_id_of, parse_listing, parse_sacct}
use erdc_hpc_scripts.Queue.Listing.Delim.{
  squeue_fields, squeue_line, IsPrinted, listed, parse_listing-squeue_lines,
}

-- Upper-casing of the letters from a to z.
abbrev to_upper : Text → Text
to_upper = map (λ c. if leb 97 c && leb c 122 then c - 32 else c)

abbrev header : Text
header = codes "Job id  Name  User  Time Use  S  Queue"

abbrev rule : Text
rule = codes "------  ----  ----  --------  -  -----"

abbrev swan : Text
swan = codes "12.hpc1  swan  dave  00:01:02  R  std"

abbrev waits : Job
waits = record no_job {
  id = codes "7";
  queue = codes "std";
  name = codes "goose";
  user = codes "dave";
  raw_state = codes "PD";
  elapsed = codes "0:00";
  req_wall = codes "1:00:00";
  nodes = codes "2";
  reason = codes "(Priority)";
  start = codes "N/A";
}

state_completing : slurm_state to_upper (codes "cg") ≡ exiting
unfolding slurm_state
state_completing = refl

state_transit : pbs_state to_upper (codes " T ") ≡ waiting
unfolding pbs_state
state_transit = refl

reason_priority : pending_reason waits ≡ codes "Priority"
unfolding pending_reason
reason_priority = refl

array_id : short_id_of (codes "15[].hpc1") ≡ codes "15[]"
unfolding short_id_of
array_id = refl

cancelled_by :
    map
      (λ (j : Job). j.end)
      (parse_sacct to_upper (codes "7|g|dave|std|CANCELLED by 4|0:01|1:00|2|a|b|c|"))
    ≡ codes "c" ∷ []
unfolding parse_sacct
cancelled_by = refl

waits-IsPrinted : IsPrinted to_upper waits
unfolding join has_prefix trim_space text_eq is_free are_free
waits-IsPrinted = record {
  no_bar = are_free-IsFree 124 (squeue_fields waits) refl;
  one_line = is_free-IsFree 10 (squeue_line waits) refl;
  no_space = refl;
  not_empty = refl;
  no_jobid = refl;
  no_job_id = refl;
}

parse_listing-squeue_lines_example :
    parse_listing to_lower to_upper (join (map squeue_line (waits ∷ waits ∷ [])) 10)
    ≡ map (listed to_upper) (waits ∷ waits ∷ [])
parse_listing-squeue_lines_example =
    parse_listing-squeue_lines to_upper to_lower (waits ∷ waits ∷ [])
      (waits-IsPrinted, (waits-IsPrinted, tt))
