-- ===== src/Engine/Complete.antt =====
-- Which transfers `engine_service_transfer_list` of libxdma.c completes: the longest run of
-- transfers at the head of the queue that the count of completed descriptors goes beyond.
pub mod Final
pub mod Lists
pub mod Drain
use xdma_fpga.Base.{
  ℕ, ◌+◌, ◌-◌, ◌≤◌, ◌<◌, Bool, true, false, List, [], ◌∷◌, ◌++◌, ◌≡◌, ◌⊎◌, inl, inr, arith, All,
  Bool-cases, not, ◌&&◌, ltb, refl, ap, ◌∙◌, sym, subst,
}
use xdma_fpga.Engine.{Engine, Transfer, TransferState, completed, update}
use xdma_fpga.Engine.Service.{complete_head, transfer_list_loop, engine_service_transfer_list}
use xdma_fpga.Engine.Wakes.{complete_head-transfer_list}

-- The descriptors of the transfers on a list.
abbrev pub descs : (ℕ → Transfer) → List ℕ → ℕ
descs m [] = 0
descs m (p ∷ ps) = (m p).desc_num + descs m ps

-- The first transfer that is left takes up the rest of the count, or is cyclic.
abbrev pub StopsAt : (ℕ → Transfer) → List ℕ → ℕ → Type 0
StopsAt m [] n = Unit
StopsAt m (p ∷ ps) n = ((m p).cyclic ≡ true) ⊎ (n ≤ (m p).desc_num)

-- Each transfer on the list, when its turn comes, takes up less than what is left of the count.
abbrev pub Spares : (ℕ → Transfer) → List ℕ → ℕ → Type 0
Spares m [] n = Unit
Spares m (p ∷ ps) n = ((m p).desc_num < n) × Spares m ps (n - (m p).desc_num)

-- The two fields of transfers by which the loop decides.
abbrev pub SameShape : (ℕ → Transfer) → (ℕ → Transfer) → Type 0
SameShape m m' = (q : ℕ) → ((m' q).desc_num ≡ (m q).desc_num) × ((m' q).cyclic ≡ (m q).cyclic)

pub descs_same : (m m' : ℕ → Transfer) (ps : List ℕ) → SameShape m m' → descs m' ps ≡ descs m ps
descs_same m m' [] s = refl
descs_same m m' (p ∷ ps) s = omega (arith, (s p).0, descs_same m m' ps s)

StopsAt-same :
    (m m' : ℕ → Transfer) (ps : List ℕ) (n : ℕ) → SameShape m m' → StopsAt m' ps n → StopsAt m ps n
StopsAt-same m m' [] n s h = tt
StopsAt-same m m' (p ∷ ps) n s h = ground (arith, s p)

Spares-same :
    (m m' : ℕ → Transfer) (ps : List ℕ) (n : ℕ) → SameShape m m' → Spares m' ps n → Spares m ps n
Spares-same m m' [] n s h = tt
Spares-same m m' (p ∷ ps) n s h =
    let num : (m' p).desc_num ≡ (m p).desc_num = (s p).0 in
    (
      omega (arith, num, h.0),
      Spares-same m m' ps (n - (m p).desc_num) s (subst (λ k. Spares m' ps (n - k)) num h.1),
    )

pub complete_head_same :
    (e : Engine) (p : ℕ) (ps : List ℕ) → SameShape e.xfers (complete_head e p ps).xfers
unfolding complete_head
complete_head_same e p ps q = (ground arith, ground arith)

complete_head_state :
    (e : Engine) (p : ℕ) (ps : List ℕ) (q : ℕ)
    → let e' = complete_head e p ps in
      ((e'.xfers p).state ≡ completed)
      × ((e.xfers q).state ≡ completed → (e'.xfers q).state ≡ completed)
unfolding complete_head
complete_head_state e p ps q = (ground arith, ground arith)

-- What is completed stays completed.
loop_stays_completed :
    (e : Engine) (ps : List ℕ) (n q : ℕ)
    → (e.xfers q).state ≡ completed
    → ((transfer_list_loop e ps n).0.xfers q).state ≡ completed
unfolding transfer_list_loop
loop_stays_completed e [] n q c = c
loop_stays_completed e (p ∷ ps) n q c = ground (
  arith,
  complete_head_state e p ps q,
  loop_stays_completed (complete_head e p ps) ps (n - (e.xfers p).desc_num) q,
)

-- How a call splits the queue `ps` of the transfers `m` for the count `n`.
pub record Splits (m : ℕ → Transfer) (ps : List ℕ) (n : ℕ) (r : Engine × ℕ) : Type 0 where
  -- the transfers that are taken off, and those that stay
  pub ended : List ℕ
  pub left : List ℕ
  pub split : ps ≡ ended ++ left
  pub queue : r.0.transfer_list ≡ left
  -- the count is used up by the former
  pub count : n ≡ descs m ended + r.1
  pub ends : All (λ p. ((m p).cyclic ≡ false) × ((r.0.xfers p).state ≡ completed)) ended
  pub stops : StopsAt m left r.1
  -- each of the former leaves some of the count
  pub spares : Spares m ended n
  -- no length changes
  pub same : SameShape m r.0.xfers

ends_same :
    (m m' m'' : ℕ → Transfer) (ps : List ℕ)
    → SameShape m m'
    → All (λ p. ((m' p).cyclic ≡ false) × ((m'' p).state ≡ completed)) ps
    → All (λ p. ((m p).cyclic ≡ false) × ((m'' p).state ≡ completed)) ps
ends_same m m' m'' [] s h = tt
ends_same m m' m'' (p ∷ ps) s h = ((sym (s p).1 ∙ h.0.0, h.0.1), ends_same m m' m'' ps s h.1)

-- One round, in front of what the rounds after it do.
cons-Splits :
    (e : Engine) (p : ℕ) (ps : List ℕ) (n : ℕ) (r : Engine × ℕ)
    → (e.xfers p).cyclic ≡ false
    → (e.xfers p).desc_num < n
    → (r.0.xfers p).state ≡ completed
    → Splits (complete_head e p ps).xfers ps (n - (e.xfers p).desc_num) r
    → Splits e.xfers (p ∷ ps) n r
cons-Splits e p ps n r c d done rest = record {
  ended = p ∷ rest.ended;
  left = rest.left;
  split = ap (◌∷◌ p) rest.split;
  queue = rest.queue;
  count = omega (arith, descs_same e.xfers e1.xfers rest.ended same, rest.count);
  ends = ((c, done), ends_same e.xfers e1.xfers r.0.xfers rest.ended same rest.ends);
  stops = StopsAt-same e.xfers e1.xfers rest.left r.1 same rest.stops;
  spares = (d, Spares-same e.xfers e1.xfers rest.ended (n - (e.xfers p).desc_num) same rest.spares);
  same = λ q. ((rest.same q).0 ∙ (same q).0, (rest.same q).1 ∙ (same q).1);
}
  where
    e1 : Engine
    e1 = complete_head e p ps

    same : SameShape e.xfers e1.xfers
    same = complete_head_same e p ps

loop-Splits :
    (e : Engine) (ps : List ℕ) (n : ℕ)
    → e.transfer_list ≡ ps
    → Splits e.xfers ps n (transfer_list_loop e ps n)
unfolding transfer_list_loop
loop-Splits e [] n l = record {
  ended = [];
  left = [];
  split = refl;
  queue = l;
  count = omega arith;
  ends = tt;
  stops = tt;
  spares = tt;
  same = λ q. (refl, refl);
}
loop-Splits e (p ∷ ps) n l =
    let t = e.xfers p in
    let e1 = complete_head e p ps in
    elim (Bool-cases (not t.cyclic && ltb t.desc_num n)) [
      | inl go ↦ rw go (
          cons-Splits e p ps n (transfer_list_loop e1 ps (n - t.desc_num)) (ground arith)
            (ground arith)
            (loop_stays_completed e1 ps (n - t.desc_num) p (complete_head_state e p ps p).0)
            (loop-Splits e1 ps (n - t.desc_num) (complete_head-transfer_list e p ps)))
      | inr stop ↦ rw stop (record {
        ended = [];
        left = p ∷ ps;
        split = refl;
        queue = l;
        count = omega arith;
        ends = tt;
        stops = ground arith;
        spares = tt;
        same = λ q. (refl, refl);
      })
    ]

-- `engine_service_transfer_list` splits the queue: it takes off and completes transfers, in order and
-- none of them cyclic, each with fewer descriptors than what is left of the count at its turn; it
-- reduces the count by them, and stops at a cyclic transfer or at one that takes up all that is left.
pub transfer_list-Splits :
    (e : Engine) (n : ℕ) → Splits e.xfers e.transfer_list n (engine_service_transfer_list e n)
unfolding engine_service_transfer_list
transfer_list-Splits e n = loop-Splits e e.transfer_list n refl
