-- ===== src/Slurm.antt =====
-- Slurm nodes and jobs as the operator's Slurm client shows them, with the fields that
-- internal/controller/nodeset/slurmcontrol/slurmcontrol.go uses.
use gce_hackathon.Prelude.{ℕ, Bool, Option, List, Bytes}

pub data NodeState : Type 0 where
  allocated down error future idle mixed unknown : NodeState
  completing drain fail invalid invalid_reg maintenance not_responding undrain : NodeState

unfoldable pub NodeState-discrete : Discrete NodeState
NodeState-discrete = hlevel

pub record SlurmNode : Type 0 where
  pub name : Option Bytes
  pub states : List NodeState
  pub reason : Option Bytes
  pub comment : Option Bytes
  pub topology : Option Bytes

-- V0044UpdateNodeMsg: what is not given is left as it is.
pub data UpdateState : Type 0 where
  set_drain set_undrain set_idle : UpdateState

pub record UpdateNodeMsg : Type 0 where
  pub state : Option UpdateState
  pub reason : Option Bytes
  pub comment : Option Bytes
  pub topology_str : Option Bytes

-- A job: whether it runs, its nodes as a host list, when it started, and its time limit in minutes,
-- with whether that is infinite.
pub record Job : Type 0 where
  pub running : Bool
  pub nodes : Bytes
  pub start_time : ℕ
  pub time_limit : ℕ
  pub infinite : Bool
