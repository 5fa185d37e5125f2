-- ===== src/Operator/Registry.antt =====
-- include/Operator/OperatorRegistry.hpp: the operators' tags, their names, and the sets of tags. A
-- `std::set` is the list of its members in the order in which it is iterated, that of the enum.
use Prim.Native.String.{String}
use meta_pb.Common.{ℕ, Bool, List, [], ◌∷◌, ◌==◌}

pub data OperatorTag : Type 0 where
  affine eudist conv_1d lookup elew_prod elew_add logic_start logic_end : OperatorTag
  map_op reduce_op mac filter_op undefined : OperatorTag

pub data OperatorType : Type 0 where
  compute_bound memory_bound logical map_type reduce_type undefined_type : OperatorType

-- The value of the enumerator.
abbrev pub index : OperatorTag → ℕ
index affine = 0
index eudist = 1
index conv_1d = 2
index lookup = 3
index elew_prod = 4
index elew_add = 5
index logic_start = 6
index logic_end = 7
index map_op = 8
index reduce_op = 9
index mac = 10
index filter_op = 11
index undefined = 12

abbrev pub same_tag : OperatorTag → OperatorTag → Bool
same_tag a b = index a == index b

unfoldable pub tag_to_name : OperatorTag → String
tag_to_name affine = "AFFINE"
tag_to_name eudist = "EUDIST"
tag_to_name conv_1d = "CONV_1D"
tag_to_name lookup = "LOOKUP"
tag_to_name elew_prod = "ELEW_PROD"
tag_to_name elew_add = "ELEW_ADD"
tag_to_name logic_start = "LOGIC_START"
tag_to_name logic_end = "LOGIC_END"
tag_to_name map_op = "MAP"
tag_to_name reduce_op = "REDUCE"
tag_to_name mac = "MAC"
tag_to_name filter_op = "FILTER"
tag_to_name undefined = "UNDEFINED"

unfoldable pub op_type_to_name : OperatorType → String
op_type_to_name compute_bound = "ComputeBound"
op_type_to_name memory_bound = "MemoryBound"
op_type_to_name logical = "Logical"
op_type_to_name map_type = "Map"
op_type_to_name reduce_type = "Reduce"
op_type_to_name undefined_type = "Undefined"

abbrev pub compute_bound_op_set : List OperatorTag
compute_bound_op_set = conv_1d ∷ filter_op ∷ []

abbrev pub memory_bound_op_set : List OperatorTag
memory_bound_op_set = affine ∷ eudist ∷ lookup ∷ elew_prod ∷ elew_add ∷ mac ∷ []

abbrev pub xfer_op_set : List OperatorTag
xfer_op_set = map_op ∷ reduce_op ∷ []

-- A set of sets is ordered by its members' sequences.
abbrev pub all_perf_rel_op_set : List (List OperatorTag)
all_perf_rel_op_set = memory_bound_op_set ∷ compute_bound_op_set ∷ xfer_op_set ∷ []

abbrev pub all_op_set : List OperatorTag
all_op_set =
    affine ∷ eudist ∷ conv_1d ∷ lookup ∷ elew_prod ∷ elew_add ∷ logic_start ∷ logic_end ∷ map_op
    ∷ reduce_op ∷ mac ∷ filter_op ∷ undefined ∷ []
