-- ===== src/Tests/Engines.antt =====
-- The engine of libxdma.c at concrete inputs.
use xdma_fpga.Base.{
  ℕ, zero, suc, ◌+◌, ◌*◌, Bool, true, false, some, List, [], ◌∷◌, ◌≡◌, ◌≢◌, ◌⊎◌, refl, ok, err,
  einval, ebusy, arith, not, is_empty,
}
use xdma_fpga.Hw.{to_device, pci_dma_l}
use xdma_fpga.Desc.{xdma_get_next_adj}
use xdma_fpga.Engine.{
  Engine, Host, Transfer, TransferState, status_rc, completed_desc_count, identifier, submitted,
  new,
}
use xdma_fpga.Engine.Control.{engine_start}
use xdma_fpga.Engine.Service.{
  service_prologue, engine_service_resume, perf_of_queue, engine_service, service_transfers,
  engine_service_transfer_list, engine_service_final_transfer,
}
use xdma_fpga.Engine.Poll.{Round, engine_service_wb_monitor}
use xdma_fpga.Engine.Poll.Monitor.{Ended, monitor-Ended}
use xdma_fpga.Engine.Submit.{transfer_queue, on_wait_timeout}
use xdma_fpga.Engine.Submit.Queue.{Accepted, queue_cases}
use xdma_fpga.Engine.Submit.Timeout.{HasId, Untouched, Stopped, timeout_cases}
use xdma_fpga.Engine.Device.{Device, replay}
use xdma_fpga.Engine.Device.Fetch.{RunsAt, start-RunsAt}
use xdma_fpga.Engine.History.{here, next, queues, services}
use xdma_fpga.Engine.History.Sound.{IsSound, Reach-IsSound}
use xdma_fpga.Engine.History.Work.{transfers_runs_iff}
use xdma_fpga.Engine.Wakes.{account, service_account}
use xdma_fpga.Engine.Complete.{Splits, transfer_list-Splits}
use xdma_fpga.Engine.Complete.Final.{Ends, final_transfer-Ends}
use xdma_fpga.Engine.Complete.Drain.{IsDrained, interrupt-IsDrained}

-- An interrupt-driven host whose device reports three descriptors and no error.
abbrev pub host : Host
host = record {
  poll_mode = false;
  enable_st_c2h_credit = false;
  read =
      λ n r. elim r [ completed_desc_count ↦ 3 | identifier ↦ 0x1fc0_0003 | status_rc ↦ 6 | _ ↦ 0 ];
  result_status = λ p i. 0;
}

abbrev pub transfer : ℕ → TransferState → Transfer
transfer n s = record {
  desc_bus = 0x1_0000_0000 + 32 * n;
  desc_adjacent = n;
  desc_num = n;
  desc_cmpl = 0;
  state = s;
  eop_rcved = false;
  cyclic = false;
  last_in_request = true;
  has_cb = false;
}

abbrev pub memory : ℕ → Transfer
memory zero = transfer 1 submitted
memory (suc zero) = transfer 2 submitted
memory (suc (suc q)) = transfer 4 new

abbrev pub with_queue : Bool → List ℕ → Engine
with_queue running ps = record {
  running = running;
  shutdown_request = false;
  shutdown_idle = false;
  status = 0;
  dir = to_device;
  streaming = false;
  eop_flush = false;
  non_incr_addr = false;
  perf = record { running = false; iterations = 0; stopped = false };
  desc_dequeued = 0;
  desc_used = 3;
  transfer_list = ps;
  xfers = memory;
  reads = 0;
  log = [];
}

abbrev pub idle : Engine
idle = with_queue false []

abbrev busy : Engine
busy = with_queue true (1 ∷ 0 ∷ [])

abbrev pub device : Device
device = record { run = false; lo = 7; hi = 7; adjacent = 7 }

run_empties : (engine_service host busy 0).1.transfer_list ≡ []
unfolding engine_service service_prologue service_transfers engine_service_transfer_list
    engine_service_final_transfer engine_service_resume perf_of_queue
run_empties = refl

interrupt-IsDrained_example :
    let (rv, e') = engine_service host busy 0 in (rv ≡ ok) × IsDrained (1 ∷ 0 ∷ []) e'
interrupt-IsDrained_example =
    interrupt-IsDrained host busy refl ((refl, omega arith), ((refl, omega arith), tt))
      (omega arith) refl refl (omega arith)

service_account_example : account (engine_service host busy 0).1 1 ≡ 1
service_account_example = service_account host busy 0 1

transfer_list-Splits_example : Splits memory (1 ∷ 0 ∷ []) 3 (engine_service_transfer_list busy 3)
transfer_list-Splits_example = transfer_list-Splits busy 3

final_transfer-Ends_example :
    Ends host busy 1 (0 ∷ []) 1 (engine_service_final_transfer host busy 1)
final_transfer-Ends_example = final_transfer-Ends host busy 1 (0 ∷ []) 1 refl

transfers_runs_iff_example :
    let e' = service_transfers host busy 2 in e'.running ≡ not (is_empty e'.transfer_list)
transfers_runs_iff_example = transfers_runs_iff host busy 2

start-RunsAt_example :
    let (started, e') = engine_start host (with_queue false (1 ∷ [])) in
    (started ≡ some 1)
    × RunsAt (replay device e'.log) 0x1_0000_0040 (xdma_get_next_adj 2 (pci_dma_l 0x1_0000_0040))
start-RunsAt_example =
    start-RunsAt host device (with_queue false (1 ∷ [])) 1 [] refl refl (omega arith)

queue_cases_example :
    let (rv, e') = transfer_queue host false idle 1 in
    ((◌≡◌ {A = ℕ} 2 0) × (rv ≡ err einval) × (e' ≡ idle))
    ⊎ ((◌≢◌ {A = ℕ} 2 0) × ((false ≡ true) ⊎ (false ≡ true)) × (rv ≡ err ebusy) × (e' ≡ idle))
    ⊎ ((◌≢◌ {A = ℕ} 2 0) × (false ≡ false) × (false ≡ false) × (rv ≡ ok) × Accepted idle 1 e')
queue_cases_example = queue_cases host false idle 1

timeout_cases_example :
    let e' = on_wait_timeout host busy 0 in
    (¬ (HasId host busy) × Untouched busy e')
    ⊎ ((◌≡◌ {A = ℕ} 1 0) × Untouched busy e')
    ⊎ ((◌≡◌ {A = ℕ} 1 0) × Stopped busy 0 e' × (e'.transfer_list ≡ 0 ∷ []))
    ⊎ ((◌≢◌ {A = ℕ} 1 0) × Stopped busy 0 e' × (e'.transfer_list ≡ 1 ∷ 0 ∷ []))
timeout_cases_example = timeout_cases host busy 0 1 (0 ∷ []) refl

-- The count comes up in the third round.
abbrev rounds : ℕ → Round
rounds zero = record { desc_wb = 0; timed_out = false }
rounds (suc zero) = record { desc_wb = 1; timed_out = false }
rounds (suc (suc n)) = record { desc_wb = 3; timed_out = true }

monitor-Ended_example :
    let r = engine_service_wb_monitor 5 rounds busy 3 in
    ((◌≡◌ {A = ℕ} 3 0) × (r ≡ some (0, busy))) ⊎ Ended rounds 3 0 r
monitor-Ended_example = monitor-Ended 5 4 rounds busy 3 refl (omega arith)

pub idle-IsSound : IsSound device idle
idle-IsSound = record {
  mirrors = refl;
  has_work = λ r. cc r;
  queued = record { distinct = tt; waiting = tt };
}

-- A transfer is queued, and an interrupt comes.
Reach-IsSound_example :
    IsSound device (engine_service host (transfer_queue host false idle 1).1 0).1
Reach-IsSound_example =
    Reach-IsSound device
      (next (next here (queues host false idle 1 tt))
        (services host (transfer_queue host false idle 1).1 0))
      idle-IsSound
