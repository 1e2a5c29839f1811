-- ===== src/Engine/History.antt =====
-- Histories of an engine of libxdma.c: calls of `transfer_queue`, `engine_service`,
-- `engine_service_poll` and timed-out waits, in any order and with any answers of the device. Each runs
-- under the engine's lock, so interleavings of threads and interrupts are sequences of steps.
pub mod Work
pub mod Sound
use xdma_fpga.Base.{ℕ, Bool, List, [], ◌∷◌, Option, some, Rv, All, ◌≡◌, ◌≢◌}
use xdma_fpga.Engine.{Engine, Host, Transfer, update}
use xdma_fpga.Engine.Service.{engine_service}
use xdma_fpga.Engine.Poll.{Round, engine_service_poll}
use xdma_fpga.Engine.Submit.{transfer_queue, on_wait_timeout}

pub data Step : Engine → Engine → Type 0 where
  -- A submitter fills in a transfer that is not on the queue.
  prepares :
      (e : Engine) (p : ℕ) (t : Transfer)
      → All (λ q. q ≢ p) e.transfer_list
      → Step e (record e { xfers = update e.xfers p t })
  queues :
      (h : Host) (offline : Bool) (e : Engine) (p : ℕ)
      → All (λ q. q ≢ p) e.transfer_list
      → Step e (transfer_queue h offline e p).1
  -- From the interrupt's work item, with 0.
  services : (h : Host) (e : Engine) (wb : ℕ) → Step e (engine_service h e wb).1
  polls :
      (h : Host) (fuel : ℕ) (rounds : ℕ → Round) (e e' : Engine) (expected : ℕ) (rv : Rv)
      → engine_service_poll h fuel rounds e expected ≡ some (rv, e')
      → Step e e'
  -- The wait for the transfer at the head of the queue ended with the transfer still submitted.
  times_out :
      (h : Host) (e : Engine) (p : ℕ) (ps : List ℕ)
      → e.transfer_list ≡ p ∷ ps
      → Step e (on_wait_timeout h e p)

pub data Reach (s : Engine) : Engine → Type 0 where
  here : Reach s s
  next : {t u : Engine} → Reach s t → Step t u → Reach s u
