-- ===== src/Utils/Metrics.antt =====
-- src/utils/MetricsGather.cpp: how each metric is read from the counters before and after a task. The
-- counters' states and the functions on them are those of Intel's PCM library, parameters here.
pub mod Fit
pub mod Gathered
use meta_pb.Common.{Option, none, some, List, [], ◌∷◌}
use meta_pb.Utils.Stats.{Double}
use meta_pb.Utils.Report.{ItemData, ReportItem, add_datum, add_data, with_first, renew, cons_item}

pub data MetricTag : Type 0 where
  time_consume_ns frontend_bound_ratio backend_bound_ratio core_bound_ratio : MetricTag
  memory_bound_ratio speculation_bound_ratio llc_hit_rate llc_occupancy_trail : MetricTag
  total_dram_ctrl_read_bytes total_dram_ctrl_write_bytes : MetricTag
  cpu_power_consumption_joule dram_power_consumption_joule qpi_traffic_ratio : MetricTag

-- The enumerators below `size`, in their order.
abbrev pub all_metrics : List MetricTag
all_metrics =
    time_consume_ns ∷ frontend_bound_ratio ∷ backend_bound_ratio ∷ core_bound_ratio
    ∷ memory_bound_ratio ∷ speculation_bound_ratio ∷ llc_hit_rate ∷ llc_occupancy_trail
    ∷ total_dram_ctrl_read_bytes ∷ total_dram_ctrl_write_bytes ∷ cpu_power_consumption_joule
    ∷ dram_power_consumption_joule ∷ qpi_traffic_ratio ∷ []

pub record Pcm (D : Double) : Type 1 where
  pub SocketState : Type 0
  pub SystemState : Type 0
  pub Occupancy : Type 0
  pub frontend_bound : SocketState → SocketState → D.real.Num
  pub backend_bound : SocketState → SocketState → D.real.Num
  pub core_bound : SocketState → SocketState → D.real.Num
  pub memory_bound : SocketState → SocketState → D.real.Num
  pub bad_speculation : SocketState → SocketState → D.real.Num
  pub l3_cache_hit_ratio : SocketState → SocketState → D.real.Num
  pub l3_cache_occupancy : SocketState → Occupancy
  pub occupancy_difference : Occupancy → Occupancy → D.real.Num
  pub bytes_read_from_mc : SocketState → SocketState → D.real.Num
  pub bytes_written_to_mc : SocketState → SocketState → D.real.Num
  pub consumed_joules : SocketState → SocketState → D.real.Num
  pub dram_consumed_joules : SocketState → SocketState → D.real.Num
  pub qpi_to_mc_traffic_ratio : SystemState → SystemState → D.real.Num
  pub no_system_state : SystemState

module _ (D : Double) (pcm : Pcm D) where
  open D.real use {Num}
  open pcm use {SocketState, SystemState}

  -- `dataVec[i] = f(soBF[i], soAFT[i])` for each socket of `soAFT`.
  unfoldable pub data_vec :
      (SocketState → SocketState → Num) → List SocketState → List SocketState → Option (List Num)
  data_vec f before [] = some []
  data_vec f [] (a ∷ after) = none
  data_vec f (b ∷ before) (a ∷ after) = with_first (f b a) (data_vec f before after)

  abbrev pub add_vec : Option (List Num) → ItemData D → Option (ItemData D)
  add_vec none item = none
  add_vec (some xs) item = add_data D xs item

  -- A metric that is read on each socket.
  unfoldable pub socket_get :
      (SocketState → SocketState → Num)
      → List SocketState
      → List SocketState
      → ItemData D
      → Option (ItemData D)
  socket_get f before after item = add_vec (data_vec f before after) item

  unfoldable pub fb_get : List SocketState → List SocketState → ItemData D → Option (ItemData D)
  fb_get = socket_get pcm.frontend_bound

  unfoldable pub bb_get : List SocketState → List SocketState → ItemData D → Option (ItemData D)
  bb_get = socket_get pcm.backend_bound

  unfoldable pub cb_get : List SocketState → List SocketState → ItemData D → Option (ItemData D)
  cb_get = socket_get pcm.core_bound

  unfoldable pub mb_get : List SocketState → List SocketState → ItemData D → Option (ItemData D)
  mb_get = socket_get pcm.memory_bound

  unfoldable pub sb_get : List SocketState → List SocketState → ItemData D → Option (ItemData D)
  sb_get = socket_get pcm.bad_speculation

  unfoldable pub lh_get : List SocketState → List SocketState → ItemData D → Option (ItemData D)
  lh_get = socket_get pcm.l3_cache_hit_ratio

  unfoldable pub lo_get : List SocketState → List SocketState → ItemData D → Option (ItemData D)
  lo_get =
      socket_get
        (λ b a. pcm.occupancy_difference (pcm.l3_cache_occupancy a) (pcm.l3_cache_occupancy b))

  unfoldable pub dr_get : List SocketState → List SocketState → ItemData D → Option (ItemData D)
  dr_get = socket_get pcm.bytes_read_from_mc

  unfoldable pub dw_get : List SocketState → List SocketState → ItemData D → Option (ItemData D)
  dw_get = socket_get pcm.bytes_written_to_mc

  unfoldable pub cp_get : List SocketState → List SocketState → ItemData D → Option (ItemData D)
  cp_get = socket_get pcm.consumed_joules

  unfoldable pub dp_get : List SocketState → List SocketState → ItemData D → Option (ItemData D)
  dp_get = socket_get pcm.dram_consumed_joules

  unfoldable pub qt_get : SystemState → SystemState → ItemData D → Option (ItemData D)
  qt_get before after item = add_datum D (pcm.qpi_to_mc_traffic_ratio before after) item

  -- `metric2Func`; the time is gathered by the caller.
  unfoldable pub metric_get :
      MetricTag
      → List SocketState
      → List SocketState
      → SystemState
      → SystemState
      → ItemData D
      → Option (ItemData D)
  metric_get time_consume_ns so_bf so_aft sys_bf sys_aft item = some item
  metric_get frontend_bound_ratio so_bf so_aft sys_bf sys_aft item = fb_get so_bf so_aft item
  metric_get backend_bound_ratio so_bf so_aft sys_bf sys_aft item = bb_get so_bf so_aft item
  metric_get core_bound_ratio so_bf so_aft sys_bf sys_aft item = cb_get so_bf so_aft item
  metric_get memory_bound_ratio so_bf so_aft sys_bf sys_aft item = mb_get so_bf so_aft item
  metric_get speculation_bound_ratio so_bf so_aft sys_bf sys_aft item = sb_get so_bf so_aft item
  metric_get llc_hit_rate so_bf so_aft sys_bf sys_aft item = lh_get so_bf so_aft item
  metric_get llc_occupancy_trail so_bf so_aft sys_bf sys_aft item = lo_get so_bf so_aft item
  metric_get total_dram_ctrl_read_bytes so_bf so_aft sys_bf sys_aft item = dr_get so_bf so_aft item
  metric_get total_dram_ctrl_write_bytes so_bf so_aft sys_bf sys_aft item = dw_get so_bf so_aft item
  metric_get cpu_power_consumption_joule so_bf so_aft sys_bf sys_aft item = cp_get so_bf so_aft item
  metric_get dram_power_consumption_joule so_bf so_aft sys_bf sys_aft item =
      dp_get so_bf so_aft item
  metric_get qpi_traffic_ratio so_bf so_aft sys_bf sys_aft item = qt_get sys_bf sys_aft item

  -- The loop of `tock` over the metrics.
  unfoldable pub gather_items :
      List MetricTag
      → List SocketState
      → List SocketState
      → SystemState
      → SystemState
      → List (ReportItem D)
      → Option (List (ReportItem D))
  gather_items [] so_bf so_aft sys_bf sys_aft items = some items
  gather_items (tag ∷ tags) so_bf so_aft sys_bf sys_aft [] = none
  gather_items (tag ∷ tags) so_bf so_aft sys_bf sys_aft (x ∷ xs) =
      cons_item D (renew D x (metric_get tag so_bf so_aft sys_bf sys_aft x.value))
        (gather_items tags so_bf so_aft sys_bf sys_aft xs)
