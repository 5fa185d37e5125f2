-- ===== src/Lib.antt =====
-- MetaPB: co-execution of a graph of operators on a host CPU and on UPMEM DPUs.
--
-- A `TaskGraph` names operators and how their results flow. A scheduler gives each task an offload
-- ratio, the DPUs' share of it, and an order. `HeteroComputePool` parses graph and schedule into four
-- queues of tasks (the CPU's half, the DPUs' half, the map transfer to the DPUs and the reduce
-- transfer from them), and four threads work through them, either for real or mimicking the time
-- that a model of each operator's performance predicts. The models are arrays of samples, which
-- `OperatorBase` measures, caches and interpolates.
--
-- Common: tests on numbers, lists, and floating-point numbers as a type with operations and laws.
-- Operator.Registry: include/Operator/OperatorRegistry.hpp.
-- Operator.Pages: control blocks and page block arithmetic of include/Operator/OperatorBase.hpp and
--   `getNearestPageBlkCnt` of include/Operator/OperatorManager.hpp.
-- Operator.Samples: `trainModel`, `loadModelCacheIfExist`, `loadPerfSamples`, `deducePerfCPU` and
--   `deducePerfDPU` of include/Operator/OperatorBase.hpp and src/Operator/OperatorBase.cpp.
--   Operator.Samples.Loop: the entries that the training loop writes.
--   Operator.Samples.File: the text of their files, `savePerfSamples` and `loadPerfSamples`.
--   Operator.Samples.Probing: `execCPUwithProbe` and `execDPUwithProbe`.
-- Operator.Memory: 32-bit words, memory and loops. Operator.Kernels: `execCPU` of the operators that
--   compute, src/Operator/*.cpp. Operator.Dpu: the programs of src/Operator/dpu on a DPU, whose
--   tasklets' steps interleave. Operator.Transfer: src/Operator/OperatorMAP.cpp and
--   OperatorREDUCE.cpp. Operator.Offload: a whole task on the DPUs.
-- Operator.Manager: include/Operator/OperatorManager.hpp, and `genRegressionTask` of
--   src/Executor/TaskGraph.cpp. Operator.Manager.Exec: `execCPU` and `execDPU` by tag, on the
--   memories of the host and of the DPUs.
-- Executor.Graph: include/Executor/Task.hpp, Transfer.hpp, TaskGraph.hpp, include/utils/typedef.hpp.
-- Executor.Perf: `perfStats` of include/utils/Stats.hpp.
-- Executor.Parse: `parseGraph`, `cleanStatus`, `genComputeTask`, `genXferTask`, `memPlan` of
--   src/Executor/HeteroComputePool.cpp and include/Executor/HeteroComputePool.hpp.
-- Executor.Pool, Executor.Run: `allDependenciesMet`, `processTasks` and the threads of
--   `execWorkload`. A step of a thread ends where another thread may run, so that an interleaving is
--   a list of threads; the mutexes, the clocks of the mimicked mode and the sleep in `cv_.wait` are in
--   it: a sleeper tests again only after `cv_.notify_all` or after one of the spurious wake-ups, whose
--   list is a parameter and may be empty.
-- Executor.Run.Inv, Sleep, Measure, Progress, Fair: the invariant of the threads, who may sleep, a
--   measure of the work that is left, and rounds of steps. Executor.Workload: the threads on a parsed graph.
-- Optimizer.Search: `OptimizerBase` of include/Optimizer/OptimizerBase.hpp and
--   include/Optimizer/implements/OptimizerBase.cpp: the cache of evaluated points, the histories and
--   the loop of `exec` over any derived optimizer. Optimizer.Explore: the four derived optimizers.
-- Executor.Result: the result of `execWorkload` in the mimicked mode. Executor.Result.Measured: that of
--   the real mode, from the recorded timings and the report of the run. Executor.Result.Moved: the data
--   movement. Executor.Timings:
--   `outputTimingsToCSV` and `printTimings`, the text of the recorded timings.
-- Scheduler.Uniform: include/Scheduler/CPUOnlyScheduler.hpp, DPUOnlyScheduler.hpp, GreedyScheduler.hpp.
-- Scheduler.Heft: src/Scheduler/HEFTScheduler.cpp and its header. Scheduler.Meta:
--   src/Scheduler/MetaScheduler.cpp and its header, with the three searches in
--   Scheduler.Meta.Searches. Scheduler.Heft.Order: HEFT's order on the compute pool.
-- Utils.Stats: `Stats` of include/utils/Stats.hpp. Utils.Report: include/utils/ReportUtils.hpp.
--   Utils.Metrics: include/utils/MetricsGather.hpp and src/utils/MetricsGather.cpp. Utils.Chrono:
--   include/utils/ChronoTrigger.hpp and src/utils/ChronoTrigger.cpp; Utils.Chrono.Dump is its
--   `dumpAllReport`, whose tables Utils.Csv writes as include/utils/CSVWriter.hpp does.
-- Utils.Lines: texts, and what `getline` and `>>` read of them.
-- Tests: concrete inputs.
--
-- Numbers. `uint32_t` arithmetic wraps (`u32`), `size_t` arithmetic where it can (`u64`). A pointer
-- is an address. `float` and `double` are the type `Num` of a record `Real` of the operations that
-- the code applies; a theorem that needs a law of them takes it as a record of laws, and the tests
-- instantiate each. A vector that is indexed by tasks is a function; one whose length matters is a
-- list. What C++ leaves undefined is `none`, but for a read of a best point that an optimizer has not
-- found yet: it gives any value, a parameter. No law is assumed of a NaN: a theorem that takes the laws
-- of an order speaks of values without one. An `int` of the kernels is its 32-bit word and wraps,
-- as the machines' do; memory is a function from word indices to words, and pages are aligned to
-- words.
--
-- Parallelism. An `omp parallel for` runs its iterations one by one in an order that is a parameter,
-- of which only is known that each runs once. A tasklet of a DPU takes two steps for a chunk, one
-- that reads and computes and one that writes, and a run is any list of tasklets. The scatter-gather
-- transfer of the SDK is a parameter, with what it does to blocks of a page as laws.
--
-- Fuel. The training loop has fuel for 19 rounds, and the arrays have 17 entries, so that a loop
-- that goes on has written past them before the fuel ends; a loop that has run out of fuel is
-- `none`, like one that has written past them. An interleaving is a finite list of steps. The
-- recursion over ranks has fuel, one more than the depth of a vertex being enough; on a cycle the
-- source's recursion does not end, and the model's is `none`.
--
-- Not modelled: what an execution costs when it is measured (a parameter), the SDK of the DPUs, the
-- hardware counters, the clock and the random draws (parameters), the opening of files (what is written
-- and read is a text), the printing of graphs and of progress, and the code of benchmarks and tests.
pub mod Common
pub mod Operator
pub mod Executor
pub mod Optimizer
pub mod Scheduler
pub mod Utils
mod Tests
