-- ===== src/Engine/Complete/Final.antt =====
-- How `engine_service_final_transfer` of libxdma.c ends the transfer at the head of the queue.
use xdma_fpga.Base.{
  ℕ, zero, suc, ◌+◌, ◌≤◌, ◌<◌, true, false, List, ◌∷◌, ◌≡◌, ◌⊎◌, ◌↔◌, inl, inr, arith, has,
  Bool-cases, ◌||◌, subst, sym,
}
use native.Mathlib.Decide.{dec_le}
use xdma_fpga.Hw.{rx_status_eop}
use xdma_fpga.Engine.{Engine, Host, TransferState, completed, failed}
use xdma_fpga.Engine.Service.{
  eop_received, status_error, final_transfer_of, engine_service_final_transfer,
}

-- One of the `n` result descriptors from `i` on reports an end of packet.
abbrev pub EopIn : Host → ℕ → ℕ → ℕ → Type 0
EopIn h p i n = (k : ℕ) × (i ≤ k) × (k < i + n) × (has (h.result_status p k) rx_status_eop ≡ true)

eop_received→EopIn : (h : Host) (p i n : ℕ) → eop_received h p i n ≡ true → EopIn h p i n
unfolding eop_received
eop_received→EopIn h p i zero r = cc
eop_received→EopIn h p i (suc n) r = elim (Bool-cases (has (h.result_status p i) rx_status_eop)) [
  | inl hit ↦ (i, omega arith, omega arith, hit)
  | inr miss ↦
      let (k, lo, hi, e) = eop_received→EopIn h p (i + 1) n (ground (arith, miss, r)) in
      (k, omega arith, omega arith, e)
]

EopIn→eop_received :
    (h : Host) (p i n k : ℕ)
    → i ≤ k
    → k < i + n
    → has (h.result_status p k) rx_status_eop ≡ true
    → eop_received h p i n ≡ true
unfolding eop_received
EopIn→eop_received h p i zero k lo hi e = absurd (omega arith)
EopIn→eop_received h p i (suc n) k lo hi e = ground (arith, EopIn→eop_received h p (i + 1) n k)

-- The end of packet is known from an earlier call, or is seen in the first `n` results.
abbrev pub EopSeen : Host → Engine → ℕ → ℕ → Type 0
EopSeen h e p n = ((e.xfers p).eop_rcved ≡ true) ⊎ EopIn h p 0 n

EopSeen-iff :
    (h : Host) (e : Engine) (p n : ℕ)
    → (((e.xfers p).eop_rcved || eop_received h p 0 n) ≡ true) ↔ EopSeen h e p n
EopSeen-iff h e p n = (to, from)
  where
    to : ((e.xfers p).eop_rcved || eop_received h p 0 n) ≡ true → EopSeen h e p n
    to r = elim (Bool-cases (e.xfers p).eop_rcved) [
      | inl old ↦ inl old
      | inr new ↦ inr (eop_received→EopIn h p 0 n (rw new at r))
    ]

    from : EopSeen h e p n → ((e.xfers p).eop_rcved || eop_received h p 0 n) ≡ true
    from (inl old) = rw old
    from (inr (k, lo, hi, r)) = ground (arith, EopIn→eop_received h p 0 n k lo hi r)

-- When the head `p` ends well: no error bit, and all descriptors or an end of packet.
abbrev pub EndsWell : Host → Engine → ℕ → ℕ → Type 0
EndsWell h e p n =
    (status_error e ≡ false)
    × (((e.xfers p).desc_num ≤ n) ⊎ ((e.eop_flush ≡ true) × EopSeen h e p n))

-- When it ends badly: an error bit, or too few descriptors on an engine that does not flush by end
-- of packet.
abbrev pub EndsBadly : Engine → ℕ → ℕ → Type 0
EndsBadly e p n = (status_error e ≡ true) ⊎ ((n < (e.xfers p).desc_num) × (e.eop_flush ≡ false))

-- When it goes on: too few descriptors and no end of packet, on an engine that waits for one.
abbrev pub GoesOn : Host → Engine → ℕ → ℕ → Type 0
GoesOn h e p n =
    (status_error e ≡ false)
    × (n < (e.xfers p).desc_num)
    × (e.eop_flush ≡ true)
    × (EopSeen h e p n → ⊥)

-- The state and the queue that a call leaves.
abbrev pub Leaves : Engine → ℕ → TransferState → List ℕ → Type 0
Leaves e' p s ps = ((e'.xfers p).state ≡ s) × (e'.transfer_list ≡ ps)

error_case :
    (h : Host) (e : Engine) (p : ℕ) (ps : List ℕ) (n : ℕ)
    → status_error e ≡ true
    → Leaves (final_transfer_of h e (p ∷ ps) n) p failed ps
unfolding final_transfer_of
error_case h e p ps n s = (ground (arith, s), ground (arith, s))

full_case :
    (h : Host) (e : Engine) (p : ℕ) (ps : List ℕ) (n : ℕ)
    → status_error e ≡ false
    → (e.xfers p).desc_num ≤ n
    → Leaves (final_transfer_of h e (p ∷ ps) n) p completed ps
unfolding final_transfer_of
full_case h e p ps n s f = (ground (arith, s), ground (arith, s))

eop_case :
    (h : Host) (e : Engine) (p : ℕ) (ps : List ℕ) (n : ℕ)
    → status_error e ≡ false
    → n < (e.xfers p).desc_num
    → e.eop_flush ≡ true
    → ((e.xfers p).eop_rcved || eop_received h p 0 n) ≡ true
    → Leaves (final_transfer_of h e (p ∷ ps) n) p completed ps
unfolding final_transfer_of
eop_case h e p ps n s f b r = (ground (arith, s), ground (arith, s))

short_case :
    (h : Host) (e : Engine) (p : ℕ) (ps : List ℕ) (n : ℕ)
    → status_error e ≡ false
    → n < (e.xfers p).desc_num
    → e.eop_flush ≡ false
    → Leaves (final_transfer_of h e (p ∷ ps) n) p failed ps
unfolding final_transfer_of
short_case h e p ps n s f b = (ground (arith, s), ground (arith, s))

wait_case :
    (h : Host) (e : Engine) (p : ℕ) (ps : List ℕ) (n : ℕ)
    → status_error e ≡ false
    → n < (e.xfers p).desc_num
    → e.eop_flush ≡ true
    → ((e.xfers p).eop_rcved || eop_received h p 0 n) ≡ false
    → e.transfer_list ≡ p ∷ ps
    → Leaves (final_transfer_of h e (p ∷ ps) n) p (e.xfers p).state (p ∷ ps)
unfolding final_transfer_of
wait_case h e p ps n s f b r q = (ground (arith, s), ground (arith, s))

-- The three ends, for the engine `e'` that a call leaves.
abbrev pub Ends : Host → Engine → ℕ → List ℕ → ℕ → Engine → Type 0
Ends h e p ps n e' =
    (EndsWell h e p n × Leaves e' p completed ps)
    ⊎ (EndsBadly e p n × Leaves e' p failed ps)
    ⊎ (GoesOn h e p n × Leaves e' p (e.xfers p).state (p ∷ ps))

final_transfer_of-Ends :
    (h : Host) (e : Engine) (p : ℕ) (ps : List ℕ) (n : ℕ)
    → e.transfer_list ≡ p ∷ ps
    → Ends h e p ps n (final_transfer_of h e (p ∷ ps) n)
final_transfer_of-Ends h e p ps n q = elim (Bool-cases (status_error e)) [
  | inl s ↦ inr (inl (inl s, error_case h e p ps n s))
  | inr s ↦ elim (dec_le (e.xfers p).desc_num n) [
    | yes f ↦ inl ((s, inl f), full_case h e p ps n s f)
    | no f ↦ elim (Bool-cases e.eop_flush) [
      | inr b ↦ inr (inl (inr (omega arith, b), short_case h e p ps n s (omega arith) b))
      | inl b ↦ elim (Bool-cases ((e.xfers p).eop_rcved || eop_received h p 0 n)) [
        | inl r ↦
            inl ((s, inr (b, (EopSeen-iff h e p n).0 r)), eop_case h e p ps n s (omega arith) b r)
        | inr r ↦ inr (
            inr (
              (s, omega arith, b, λ seen. cc (r, (EopSeen-iff h e p n).1 seen)),
              wait_case h e p ps n s (omega arith) b r q,
            ))
      ]
    ]
  ]
]

-- `engine_service_final_transfer` gives the head of the queue one of three ends. Without an error bit
-- and with all its descriptors, or an end of packet where the engine flushes by it, it completes and
-- leaves the queue. With an error bit, or too few descriptors on an engine that does not flush by end
-- of packet, it fails and leaves the queue. Otherwise it keeps its state and its place.
pub final_transfer-Ends :
    (h : Host) (e : Engine) (p : ℕ) (ps : List ℕ) (n : ℕ)
    → e.transfer_list ≡ p ∷ ps
    → Ends h e p ps n (engine_service_final_transfer h e n)
unfolding engine_service_final_transfer
final_transfer-Ends h e p ps n q =
    subst (λ l. Ends h e p ps n (final_transfer_of h e l n)) (sym q)
      (final_transfer_of-Ends h e p ps n q)
