-- ===== src/Engine/Submit/Queue.antt =====
-- What `transfer_queue` of libxdma.c accepts, and what it does with it.
use xdma_fpga.Base.{
  ℕ, Bool, true, false, List, [], ◌∷◌, ◌++◌, ◌≡◌, ◌≢◌, ◌⊎◌, inl, inr, arith, ok, err, einval, ebusy,
  not, Bool-cases, if_cases, ◌==◌, refl,
}
use native.Mathlib.Decide.{ℕ_discrete}
use xdma_fpga.Engine.{Engine, Host, submitted, update}
use xdma_fpga.Engine.Control.{engine_start}
use xdma_fpga.Engine.Submit.{enqueue, transfer_queue}
use xdma_fpga.Engine.Queued.Kept.{start_keeps}

-- A transfer that is put on the queue: at its end, submitted, with the others as they were and the
-- engine running.
pub record Accepted (e : Engine) (p : ℕ) (e' : Engine) : Type 0 where
  pub at_end : e'.transfer_list ≡ e.transfer_list ++ (p ∷ [])
  pub waiting : (e'.xfers p).state ≡ submitted
  pub others : (q : ℕ) → q ≢ p → e'.xfers q ≡ e.xfers q
  pub runs : e'.running ≡ true

start_runs :
    (h : Host) (e : Engine) (p : ℕ) (ps : List ℕ)
    → e.transfer_list ≡ ps ++ (p ∷ [])
    → (engine_start h e).1.running ≡ true
unfolding engine_start
start_runs h e p [] l = ground (arith, l)
start_runs h e p (q ∷ ps) l = ground (arith, l)

enqueue-Accepted : (h : Host) (e : Engine) (p : ℕ) → Accepted e p (enqueue h e p)
unfolding enqueue
enqueue-Accepted h e p =
    if_cases (Accepted e p) (not e.running)
      (λ off. record {
        at_end = k.0;
        waiting = rw k.1 (ground arith);
        others = λ q ne. rw k.1 (ground arith);
        runs = start_runs h linked p e.transfer_list refl;
      })
      (λ on. record {
        at_end = refl;
        waiting = ground arith;
        others = λ q ne. ground arith;
        runs = ground (arith, on);
      })
  where
    linked : Engine
    linked = record e {
      xfers = update e.xfers p (record (e.xfers p) { state = submitted });
      transfer_list = e.transfer_list ++ (p ∷ []);
    }

    k :
        let e' = (engine_start h linked).1 in
        (e'.transfer_list ≡ linked.transfer_list) × (e'.xfers ≡ linked.xfers)
    k = start_keeps h linked

-- `transfer_queue` refuses a transfer without descriptors with -EINVAL, and any transfer to an
-- offline device or an engine that shuts down with -EBUSY; a refusal changes nothing. All others
-- it puts at the end of the queue, submitted, and leaves the engine running.
pub queue_cases :
    (h : Host) (offline : Bool) (e : Engine) (p : ℕ)
    → let (rv, e') = transfer_queue h offline e p in
      (((e.xfers p).desc_num ≡ 0) × (rv ≡ err einval) × (e' ≡ e))
      ⊎ (((e.xfers p).desc_num ≢ 0)
          × ((offline ≡ true) ⊎ (e.shutdown_request ≡ true))
          × (rv ≡ err ebusy)
          × (e' ≡ e))
      ⊎ (((e.xfers p).desc_num ≢ 0)
          × (offline ≡ false)
          × (e.shutdown_request ≡ false)
          × (rv ≡ ok)
          × Accepted e p e')
unfolding transfer_queue
queue_cases h offline e p = elim (ℕ_discrete (e.xfers p).desc_num 0) [
  | yes none_there ↦ inl (none_there, rw none_there, rw none_there)
  | no some_there ↦
      let counted : ((e.xfers p).desc_num == 0) ≡ false = ground arith in
      elim (Bool-cases offline) [
        | inl off ↦ inr (inl (some_there, inl off, simp (counted, off), simp (counted, off)))
        | inr online ↦ elim (Bool-cases e.shutdown_request) [
          | inl down ↦ inr (
              inl
                (some_there, inr down, simp (counted, online, down), simp (counted, online, down)))
          | inr up ↦ inr (
              inr (
                some_there,
                online,
                up,
                simp (counted, online, up),
                simp (counted, online, up) (enqueue-Accepted h e p),
              ))
        ]
      ]
]
