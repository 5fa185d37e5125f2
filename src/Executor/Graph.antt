-- ===== src/Executor/Graph.antt =====
-- include/Executor/Task.hpp, Transfer.hpp, graphTraits.hpp and TaskGraph.hpp: the task graph. The
-- Boost adjacency list keeps its vertices and edges in vectors, here lists; a vertex is named by its
-- index, and the edges at a vertex come in the order of their insertion.
use Prim.Native.String.{String}
use meta_pb.Common.{ℕ, List, [], ◌∷◌, ◌==◌, if◌then◌else◌, get_or, Bool, false, map, length}
use meta_pb.Common.Real.{Real}
use meta_pb.Operator.Registry.{OperatorTag, OperatorType, undefined, undefined_type}

pub record TaskProperties (R : Real) : Type 0 where
  pub op : OperatorTag
  pub op_type : OperatorType
  pub input_size_mib : ℕ
  pub color : String
  pub name : String
  pub is_cpu_only : Bool
  pub is_dpu_only : Bool
  pub offload_ratio : R.Num

pub record TransferProperties (R : Real) : Type 0 where
  pub data_size_ratio : R.Num
  pub is_need_transfer : Bool
  pub prev_dram_ratio : R.Num
  pub next_dram_ratio : R.Num

pub record Edge (R : Real) : Type 0 where
  pub source : ℕ
  pub target : ℕ
  pub props : TransferProperties R

pub record TaskGraph (R : Real) : Type 0 where
  pub vertices : List (TaskProperties R)
  pub edges : List (Edge R)
  pub name : String

-- include/utils/typedef.hpp.
pub record Schedule (R : Real) : Type 0 where
  pub is_always_writting_back : Bool
  pub order : List ℕ
  pub offload_ratio : List R.Num

module _ (R : Real) where
  -- The members' default initialisers.
  abbrev pub default_task : TaskProperties R
  default_task = record {
    op = undefined;
    op_type = undefined_type;
    input_size_mib = 0;
    color = "blue";
    name = "N/A";
    is_cpu_only = false;
    is_dpu_only = false;
    offload_ratio = R.zero;
  }

  abbrev pub num_vertices : TaskGraph R → ℕ
  num_vertices g = length g.vertices

  -- `g[v]`; a vertex of the graph is in range.
  abbrev pub task_at : TaskGraph R → ℕ → TaskProperties R
  task_at g v = get_or g.vertices v default_task

  abbrev pub edges_into : ℕ → List (Edge R) → List (Edge R)
  edges_into v [] = []
  edges_into v (e ∷ es) = let rest = edges_into v es in if e.target == v then e ∷ rest else rest

  abbrev pub edges_from : ℕ → List (Edge R) → List (Edge R)
  edges_from v [] = []
  edges_from v (e ∷ es) = let rest = edges_from v es in if e.source == v then e ∷ rest else rest

  abbrev pub in_edges : TaskGraph R → ℕ → List (Edge R)
  in_edges g v = edges_into v g.edges

  abbrev pub out_edges : TaskGraph R → ℕ → List (Edge R)
  out_edges g v = edges_from v g.edges

  abbrev pub predecessors : TaskGraph R → ℕ → List ℕ
  predecessors g v = map (λ e. e.source) (in_edges g v)

  abbrev pub successors : TaskGraph R → ℕ → List ℕ
  successors g v = map (λ e. e.target) (out_edges g v)
