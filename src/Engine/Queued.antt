-- ===== src/Engine/Queued.antt =====
-- The queue of transfers as the submitting threads see it: a transfer on the queue is one that was
-- submitted and has neither completed nor failed, so that its waiter still waits.
pub mod Kept
use xdma_fpga.Base.{ℕ, List, [], ◌∷◌, ◌++◌, ◌≡◌, ◌≢◌, arith, All, All-append, sym, ap, ◌∙◌}
use xdma_fpga.Engine.{Engine, Transfer, TransferState, submitted, update}

-- No pointer stands twice on the queue.
abbrev pub Distinct : List ℕ → Type 0
Distinct [] = Unit
Distinct (p ∷ ps) = All (λ q. q ≢ p) ps × Distinct ps

abbrev pub AllSubmitted : (ℕ → Transfer) → List ℕ → Type 0
AllSubmitted m = All (λ q. (m q).state ≡ submitted)

pub record IsQueued (m : ℕ → Transfer) (ps : List ℕ) : Type 0 where
  pub distinct : Distinct ps
  pub waiting : AllSubmitted m ps

abbrev pub Queued : Engine → Type 0
Queued e = IsQueued e.xfers e.transfer_list

pub AllSubmitted-update_ne :
    (m : ℕ → Transfer) (p : ℕ) (t : Transfer) (ps : List ℕ)
    → All (λ q. q ≢ p) ps
    → AllSubmitted m ps
    → AllSubmitted (update m p t) ps
AllSubmitted-update_ne m p t [] ne w = tt
AllSubmitted-update_ne m p t (q ∷ ps) ne w =
    (ground (arith, ne.0, w.0), AllSubmitted-update_ne m p t ps ne.1 w.1)

pub AllSubmitted-frame :
    (m m' : ℕ → Transfer) (p : ℕ) (ps : List ℕ)
    → ((q : ℕ) → q ≢ p → m' q ≡ m q)
    → All (λ q. q ≢ p) ps
    → AllSubmitted m ps
    → AllSubmitted m' ps
AllSubmitted-frame m m' p [] same ne w = tt
AllSubmitted-frame m m' p (q ∷ ps) same ne w =
    (ap (λ t. t.state) (same q ne.0) ∙ w.0, AllSubmitted-frame m m' p ps same ne.1 w.1)

pub AllSubmitted-update_submitted :
    (m : ℕ → Transfer) (p : ℕ) (t : Transfer) (ps : List ℕ)
    → t.state ≡ submitted
    → AllSubmitted m ps
    → AllSubmitted (update m p t) ps
AllSubmitted-update_submitted m p t [] s w = tt
AllSubmitted-update_submitted m p t (q ∷ ps) s w =
    (ground (arith, w.0), AllSubmitted-update_submitted m p t ps s w.1)

Distinct-snoc :
    (p : ℕ) (ps : List ℕ) → All (λ q. q ≢ p) ps → Distinct ps → Distinct (ps ++ (p ∷ []))
Distinct-snoc p [] ne d = (tt, tt)
Distinct-snoc p (q ∷ ps) ne d =
    (All-append (λ r. r ≢ q) ps (p ∷ []) d.0 ((λ e. ne.0 (sym e)), tt), Distinct-snoc p ps ne.1 d.1)

-- A transfer that is not on the queue may be put at its end.
pub snoc-IsQueued :
    (m : ℕ → Transfer) (p : ℕ) (t : Transfer) (ps : List ℕ)
    → All (λ q. q ≢ p) ps
    → t.state ≡ submitted
    → IsQueued m ps
    → IsQueued (update m p t) (ps ++ (p ∷ []))
snoc-IsQueued m p t ps ne s v = record {
  distinct = Distinct-snoc p ps ne v.distinct;
  waiting =
      All-append (λ q. (update m p t q).state ≡ submitted) ps (p ∷ [])
        (AllSubmitted-update_submitted m p t ps s v.waiting) (ground (arith, s), tt);
}

-- The head may be given any state once it is off the queue.
pub tail-IsQueued :
    (m : ℕ → Transfer) (p : ℕ) (t : Transfer) (ps : List ℕ)
    → IsQueued m (p ∷ ps)
    → IsQueued (update m p t) ps
tail-IsQueued m p t ps v = record {
  distinct = v.distinct.1;
  waiting = AllSubmitted-update_ne m p t ps v.distinct.0 v.waiting.1;
}

-- A store elsewhere does not disturb the queue.
pub update_ne-IsQueued :
    (m : ℕ → Transfer) (p : ℕ) (t : Transfer) (ps : List ℕ)
    → All (λ q. q ≢ p) ps
    → IsQueued m ps
    → IsQueued (update m p t) ps
update_ne-IsQueued m p t ps ne v = record {
  distinct = v.distinct;
  waiting = AllSubmitted-update_ne m p t ps ne v.waiting;
}
