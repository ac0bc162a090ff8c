-- ===== src/Flow/Model.antt =====
-- internal/flow/domain/models.go. The raw JSON of a node is given decoded, as the configuration that
-- a condition reads; a payload is a Go map by its pairs.
use fintech_ecosystem.Base.{String, Bool, true, false, Option, none, some, List, [], ◌∷◌, str_eq}

pub data NodeType : Type 0 where
  event_trigger condition webhook approval audit_log : NodeType
  transform delay loop subflow internal_event : NodeType

-- A JSON value; a number is a `float64`, kept by its text.
pub data Value : Type 0 where
  text : String → Value
  flag : Bool → Value
  number : String → Value

abbrev pub Payload : Type 0
Payload = List (String × Value)

abbrev pub get : String → Payload → Option Value
get k [] = none
get k ((j, v) ∷ m) = elim (str_eq j k) [ true ↦ some v | false ↦ get k m ]

pub record ConditionConfig : Type 0 where
  pub field : String
  pub operator : String
  pub value : Value

pub record Node : Type 0 where
  pub id : String
  pub type : NodeType
  pub config : ConditionConfig

pub record Edge : Type 0 where
  pub source : String
  pub target : String
  pub source_handle : String

pub record Flow : Type 0 where
  pub id : String
  pub zone_id : String
  pub nodes : List Node
  pub edges : List Edge

pub data Status : Type 0 where
  pending running paused completed failed : Status

pub record Step : Type 0 where
  pub node_id : String
  pub status : Status
  pub input : Payload
  pub output : Payload
  pub error : String

-- The approval decision that `Resume` stores in the metadata, of which nothing else is modelled.
pub record Decision : Type 0 where
  pub approved : Bool
  pub approver_user_id : String
  pub required_role : String

pub record FlowExecution : Type 0 where
  pub id : String
  pub flow_id : String
  pub status : Status
  pub current_node_id : String
  pub steps : List Step
  pub metadata : Option Decision

-- The tables behind `Repository`.
pub record Repository : Type 0 where
  pub flows : List Flow
  pub executions : List FlowExecution
