-- ===== src/Queue/Job.antt =====
-- internal/queue/queue.go: a job of a scheduler's listing.
use erdc_hpc_scripts.Base.{[], Text}

-- `State`
pub data State : Type 0 where
  unknown running queued held exiting complete waiting suspended : State

-- `Job`; a field that a listing does not report is empty.
pub record Job : Type 0 where
  pub id : Text
  pub short_id : Text
  pub name : Text
  pub user : Text
  pub queue : Text
  pub nodes : Text
  pub state : State
  pub raw_state : Text
  pub elapsed : Text
  pub req_wall : Text
  pub reason : Text
  pub submit : Text
  pub start : Text
  pub end : Text
  pub cluster : Text

-- `Job{}`
abbrev pub no_job : Job
no_job = record {
  id = [];
  short_id = [];
  name = [];
  user = [];
  queue = [];
  nodes = [];
  state = unknown;
  raw_state = [];
  elapsed = [];
  req_wall = [];
  reason = [];
  submit = [];
  start = [];
  end = [];
  cluster = [];
}
