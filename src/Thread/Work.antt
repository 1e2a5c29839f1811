-- ===== src/Thread/Work.antt =====
-- `xdma_thread_add_work` and `xdma_thread_remove_work` of xdma_thread.c: the work counts, and that the
-- one undoes the other.
use xdma_fpga.Base.{
  ℕ, zero, suc, ◌<◌, Option, none, some, List, [], ◌∷◌, ◌++◌, ◌≡◌, ◌≢◌, arith, length,
  length-append, get_elem?, All, refl, ap,
}
use xdma_fpga.Thread.{
  Kthread, Threads, choose, change, give, delete, take_back, assign, xdma_thread_add_work,
  xdma_thread_remove_work,
}
use xdma_fpga.Thread.Choice.{choose-GoodChoice}

-- Each count is that of the engines on the list.
abbrev pub IsCounted : List Kthread → Type 0
IsCounted = All (λ t. t.work_cnt ≡ length t.work_list)

give-IsCounted :
    (e : ℕ) (ts : List Kthread) (i : ℕ) → IsCounted ts → IsCounted (change (give e) ts i)
unfolding change
give-IsCounted e [] i c = tt
give-IsCounted e (t ∷ ts) zero c = (omega (arith, c.0, length-append t.work_list (e ∷ [])), c.1)
give-IsCounted e (t ∷ ts) (suc i) c = (c.0, give-IsCounted e ts i c.1)

-- No thread has the engine on its list.
abbrev pub IsFree : ℕ → List Kthread → Type 0
IsFree e = All (λ t. All (λ q. q ≢ e) t.work_list)

delete-snoc : (e : ℕ) (xs : List ℕ) → All (λ q. q ≢ e) xs → delete e (xs ++ (e ∷ [])) ≡ xs
unfolding delete
delete-snoc e [] f = ground arith
delete-snoc e (x ∷ xs) f = ground (arith, f.0, delete-snoc e xs f.1)

take_back-give : (e : ℕ) (t : Kthread) → All (λ q. q ≢ e) t.work_list → take_back e (give e t) ≡ t
take_back-give e t f = ground (arith, delete-snoc e t.work_list f)

change-change :
    (e : ℕ) (ts : List Kthread) (i : ℕ)
    → IsFree e ts
    → change (take_back e) (change (give e) ts i) i ≡ ts
unfolding change
change-change e [] i f = refl
change-change e (t ∷ ts) zero f = ap (λ u. u ∷ ts) (take_back-give e t f.0)
change-change e (t ∷ ts) (suc i) f = ap (◌∷◌ t) (change-change e ts i f.1)

in_range : (ts : List Kthread) (i : ℕ) → i < length ts → (t : Kthread) × (get_elem? ts i ≡ some t)
in_range [] i h = absurd (omega arith)
in_range (t ∷ ts) zero h = (t, refl)
in_range (t ∷ ts) (suc i) h = in_range ts i (omega arith)

-- What giving an engine to a thread does: the engine knows its thread, the counts stay right, and
-- taking it back restores every thread.
pub record Added (s : Threads) (e : ℕ) (o : Option Threads) : Type 0 where
  pub after : Threads
  pub result : o ≡ some after
  pub known : after.cmplthp e ≡ some (choose s.pool)
  pub counted : IsCounted after.pool
  pub undone : (xdma_thread_remove_work after e).pool ≡ s.pool
  pub forgotten : (xdma_thread_remove_work after e).cmplthp e ≡ none

-- With a thread at all, right counts and an engine on no list, `xdma_thread_add_work` gives the engine to
-- the chosen thread and keeps the counts right, and `xdma_thread_remove_work` undoes it.
pub add_work-Added :
    (t : Kthread) (ts : List Kthread) (c : ℕ → Option ℕ) (e : ℕ)
    → IsCounted (t ∷ ts)
    → IsFree e (t ∷ ts)
    → let s : Threads = record { pool = t ∷ ts; cmplthp = c } in
      Added s e (xdma_thread_add_work s e)
unfolding xdma_thread_add_work xdma_thread_remove_work
add_work-Added t ts c e n f =
    let pool = t ∷ ts in
    let i = choose pool in
    let (u, here) = in_range pool i (choose-GoodChoice t ts).there in
    let after : Threads = record { pool = change (give e) pool i; cmplthp = assign c e (some i) } in
    let known : assign c e (some i) e ≡ some i = ground arith in
    record {
      after = after;
      result = rw (here, xdma_thread_add_work);
      known = known;
      counted = give-IsCounted e pool i n;
      undone = rw (known, xdma_thread_remove_work) (change-change e pool i f);
      forgotten = rw (known, xdma_thread_remove_work) (ground arith);
    }
