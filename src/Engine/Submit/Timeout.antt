-- ===== src/Engine/Submit/Timeout.antt =====
-- What a timed-out wait of libxdma.c leaves behind. The caller frees the transfer afterwards.
use xdma_fpga.Base.{ℕ, false, List, ◌∷◌, ◌≡◌, ◌≢◌, ◌⊎◌, inl, inr, arith, bit_and, ◌∙◌}
use native.Mathlib.Decide.{ℕ_discrete}
use xdma_fpga.Engine.{Engine, Host, submitted, aborted, identifier}
use xdma_fpga.Engine.Control.{engine_status_read, xdma_engine_stop}
use xdma_fpga.Engine.Submit.{transfer_abort, drop_head, on_wait_timeout}

-- The identifier register reads as that of an engine.
abbrev pub HasId : Host → Engine → Type 0
HasId h e = bit_and (h.read e.reads identifier) 0xfff0_0000 ≡ 0x1fc0_0000

-- The engine as the submitting threads and the device see it is the same.
pub record Untouched (e e' : Engine) : Type 0 where
  pub queue : e'.transfer_list ≡ e.transfer_list
  pub memory : e'.xfers ≡ e.xfers
  pub running : e'.running ≡ e.running
  pub log : e'.log ≡ e.log

-- The engine is stopped, and a submitted `p` is aborted.
pub record Stopped (e : Engine) (p : ℕ) (e' : Engine) : Type 0 where
  pub idle : e'.running ≡ false
  pub aborts : (e.xfers p).state ≡ submitted → (e'.xfers p).state ≡ aborted
  pub others : (q : ℕ) → q ≢ p → e'.xfers q ≡ e.xfers q

no_id : (h : Host) (e : Engine) (p : ℕ) → ¬ (HasId h e) → Untouched e (on_wait_timeout h e p)
unfolding on_wait_timeout engine_status_read
no_id h e p n = ground arith

no_descs :
    (h : Host) (e : Engine) (p : ℕ)
    → HasId h e
    → (e.xfers p).desc_num ≡ 0
    → Untouched e (on_wait_timeout h e p)
unfolding on_wait_timeout engine_status_read transfer_abort
no_descs h e p i z = ground arith

aborted_stop :
    (h : Host) (e : Engine) (p : ℕ)
    → HasId h e
    → (e.xfers p).desc_num ≢ 0
    → let e' = on_wait_timeout h e p in
      Stopped e p e' × (e'.transfer_list ≡ drop_head e.transfer_list p)
unfolding on_wait_timeout engine_status_read transfer_abort xdma_engine_stop
aborted_stop h e p i d = (
  record { idle = ground arith; aborts = λ s. ground arith; others = λ q ne. ground arith },
  ground arith,
)

-- A timed-out wait for `p` ends in one of four ways. Without the identifier, or for a transfer
-- without descriptors, nothing happens: `p` stays on the queue and the engine runs on. Otherwise the
-- engine is stopped and a submitted `p` is aborted, and `p` is taken off the queue if it is the head;
-- at any other place it stays on the queue.
pub timeout_cases :
    (h : Host) (e : Engine) (p q : ℕ) (qs : List ℕ)
    → e.transfer_list ≡ q ∷ qs
    → let e' = on_wait_timeout h e p in
      (¬ (HasId h e) × Untouched e e')
      ⊎ (((e.xfers p).desc_num ≡ 0) × Untouched e e')
      ⊎ ((q ≡ p) × Stopped e p e' × (e'.transfer_list ≡ qs))
      ⊎ ((q ≢ p) × Stopped e p e' × (e'.transfer_list ≡ q ∷ qs))
unfolding drop_head
timeout_cases h e p q qs l =
    elim (ℕ_discrete (bit_and (h.read e.reads identifier) 0xfff0_0000) 0x1fc0_0000) [
      | no n ↦ inl (n, no_id h e p n)
      | yes i ↦ elim (ℕ_discrete (e.xfers p).desc_num 0) [
        | yes z ↦ inr (inl (z, no_descs h e p i z))
        | no d ↦
            let (stopped, queue) = aborted_stop h e p i d in
            elim (ℕ_discrete q p) [
              | yes same ↦ inr (inr (inl (same, stopped, queue ∙ ground (arith, l))))
              | no other ↦ inr (inr (inr (other, stopped, queue ∙ ground (arith, l))))
            ]
      ]
    ]
