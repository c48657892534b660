-- ===== src/Queue/States.antt =====
-- internal/queue/queue.go: the states that the codes of the schedulers mean. `upper` stands for
-- `strings.ToUpper`.
use erdc_hpc_scripts.Base.{Bool, false, ◌||◌, List, [], ◌∷◌, Text, codes, text_eq, if◌then◌else◌}
use erdc_hpc_scripts.Base.GoStrings.{trim_space}
use erdc_hpc_scripts.Queue.Job.{
  State, unknown, running, queued, held, exiting, complete, waiting, suspended,
}

-- A case of a switch on a text, which names several.
unfoldable pub is_case : Text → List Text → Bool
unfolding text_eq
is_case s [] = false
is_case s (c ∷ cs) = text_eq s c || is_case s cs

abbrev pub queued_words : List Text
queued_words =
    codes "PD"
    ∷ codes "PENDING"
    ∷ codes "CF"
    ∷ codes "CONFIGURING"
    ∷ codes "RQ"
    ∷ codes "REQUEUED"
    ∷ codes "RF"
    ∷ codes "REQUEUE_FED"
    ∷ []

abbrev pub exiting_words : List Text
exiting_words =
    codes "CG"
    ∷ codes "COMPLETING"
    ∷ codes "SO"
    ∷ codes "STAGE_OUT"
    ∷ codes "SI"
    ∷ codes "SIGNALING"
    ∷ []

abbrev pub complete_words : List Text
complete_words =
    codes "CD"
    ∷ codes "COMPLETED"
    ∷ codes "CA"
    ∷ codes "CANCELLED"
    ∷ codes "F"
    ∷ codes "FAILED"
    ∷ codes "TO"
    ∷ codes "TIMEOUT"
    ∷ codes "NF"
    ∷ codes "NODE_FAIL"
    ∷ codes "OOM"
    ∷ codes "OUT_OF_MEMORY"
    ∷ codes "BF"
    ∷ codes "BOOT_FAIL"
    ∷ codes "DL"
    ∷ codes "DEADLINE"
    ∷ codes "PR"
    ∷ codes "PREEMPTED"
    ∷ codes "RV"
    ∷ codes "REVOKED"
    ∷ codes "SE"
    ∷ codes "SPECIAL_EXIT"
    ∷ []

abbrev pub held_words : List Text
held_words = codes "RD" ∷ codes "RESV_DEL_HOLD" ∷ codes "RH" ∷ codes "REQUEUE_HOLD" ∷ []

module _ (upper : Text → Text) where
  -- `pbsState`
  unfoldable pub pbs_state : Text → State
  unfolding is_case trim_space
  pbs_state code =
      let c = upper (trim_space code) in
      if is_case c (codes "R" ∷ codes "B" ∷ [])
      then running
      else if is_case c (codes "Q" ∷ [])
      then queued
      else if is_case c (codes "H" ∷ [])
      then held
      else if is_case c (codes "E" ∷ [])
      then exiting
      else if is_case c (codes "C" ∷ codes "F" ∷ codes "X" ∷ [])
      then complete
      else if is_case c (codes "W" ∷ codes "T" ∷ codes "M" ∷ [])
      then waiting
      else if is_case c (codes "S" ∷ codes "U" ∷ [])
      then suspended
      else unknown

  -- `slurmState`
  unfoldable pub slurm_state : Text → State
  unfolding is_case trim_space
  slurm_state code =
      let c = upper (trim_space code) in
      if is_case c (codes "R" ∷ codes "RUNNING" ∷ codes "RS" ∷ codes "RESIZING" ∷ [])
      then running
      else if is_case c queued_words
      then queued
      else if is_case c exiting_words
      then exiting
      else if is_case c complete_words
      then complete
      else if is_case c held_words
      then held
      else if is_case c (codes "S" ∷ codes "SUSPENDED" ∷ codes "ST" ∷ codes "STOPPED" ∷ [])
      then suspended
      else unknown
