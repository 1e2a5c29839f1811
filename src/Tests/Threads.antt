-- ===== src/Tests/Threads.antt =====
-- The completion threads of xdma_thread.c at concrete inputs.
use xdma_fpga.Base.{ℕ, true, false, Option, none, List, [], ◌∷◌, ◌≡◌, refl, Rv, ok, arith}
use xdma_fpga.Thread.{Kthread, Threads, choose, xdma_thread_add_work}
use xdma_fpga.Base.{some, All, ◌≢◌}
use xdma_fpga.Engine.{Engine}
use xdma_fpga.Engine.History.Sound.{IsSound}
use xdma_fpga.Thread.Main.{Scene, Serves, xthread_round, xthread_round-IsSound}
use xdma_fpga.Tests.Engines.{host, idle, device, idle-IsSound}
use xdma_fpga.Thread.Choice.{GoodChoice, choose-GoodChoice}
use xdma_fpga.Thread.Work.{Added, add_work-Added}
use xdma_fpga.Thread.Pool.{Pool, Runs, xdma_threads_create, xdma_threads_destroy, create_destroy}

abbrev thread : List ℕ → ℕ → Kthread
thread ws n = record { work_list = ws; work_cnt = n }

abbrev three : List Kthread
three = thread (1 ∷ 2 ∷ 3 ∷ []) 3 ∷ thread (4 ∷ []) 1 ∷ thread (5 ∷ 6 ∷ []) 2 ∷ []

choose_run : choose three ≡ 2
unfolding choose
choose_run = refl

choose-GoodChoice_example : GoodChoice three (choose three)
choose-GoodChoice_example =
    choose-GoodChoice (thread (1 ∷ 2 ∷ 3 ∷ []) 3) (thread (4 ∷ []) 1 ∷ thread (5 ∷ 6 ∷ []) 2 ∷ [])

abbrev no_thread : ℕ → Option ℕ
no_thread e = none

abbrev working : Threads
working = record { pool = three; cmplthp = no_thread }

add_work-Added_example : Added working 9 (xdma_thread_add_work working 9)
add_work-Added_example =
    add_work-Added (thread (1 ∷ 2 ∷ 3 ∷ []) 3) (thread (4 ∷ []) 1 ∷ thread (5 ∷ 6 ∷ []) 2 ∷ [])
      no_thread 9 (omega arith) (omega arith)

abbrev none_yet : Pool
none_yet = record { allocated = false; thread_cnt = 0; tasks = [] }

abbrev all_start : ℕ → Rv
all_start i = ok

create_destroy_example :
    let r = xdma_threads_create true all_start 2 4 none_yet in
    Runs 2 r × (xdma_threads_destroy r.1 ≡ none_yet)
create_destroy_example = create_destroy all_start 2 4 (λ i. refl) (omega arith) (omega arith)

-- Nothing is written back, and every round of a monitor is late.
abbrev scene : Scene
scene = record {
  host = host;
  fuel = 2;
  rounds = λ i j. record { desc_wb = 0; timed_out = true };
  cmpl_th = λ i p. 3;
  behind = λ i. 7;
}

xthread_round-IsSound_example :
    (m' : ℕ → Engine) × (xthread_round scene (thread (1 ∷ 2 ∷ []) 2) (λ i. idle) ≡ some m')
    × All (Serves scene (λ i. idle) m') (1 ∷ 2 ∷ [])
    × ((j : ℕ) → All (λ i. j ≢ i) (1 ∷ 2 ∷ []) → m' j ≡ idle)
    × ((i : ℕ) → IsSound device (m' i))
xthread_round-IsSound_example =
    xthread_round-IsSound scene (λ i. device) (thread (1 ∷ 2 ∷ []) 2) (λ i. 0) (λ i. idle)
      (λ i. refl) (λ i. omega arith) (λ i. idle-IsSound)
      (((λ h. absurd (omega arith)), tt), (tt, tt)) refl
