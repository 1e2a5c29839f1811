-- ===== src/Thread.antt =====
-- xdma/xdma_thread.c, the completion threads of poll mode: which thread an engine is given to
-- (`xdma_thread_add_work`), how it is taken away (`xdma_thread_remove_work`), and how the threads are
-- created and destroyed. A thread is its place in the array `cs_threads`, an engine a number. One call
-- runs at a time: the locks that the loop of `xdma_thread_add_work` takes in turn are not modelled.
pub mod Choice
pub mod Work
pub mod Pool
pub mod Main
use xdma_fpga.Base.{
  ℕ, zero, suc, ◌+◌, ◌-◌, Bool, true, false, Option, none, some, List, [], ◌∷◌, ◌++◌, ◌==◌, ltb,
  not, length, get_elem?, if◌then◌else◌, Rv, ok, err, enomem, efault, Errno,
}

-- `struct xdma_kthread`, the fields of its work.
pub record Kthread : Type 0 where
  pub work_list : List ℕ
  pub work_cnt : ℕ

-- The loop of `xdma_thread_add_work` behind its first round: `v` is the first thread's count, which
-- no later round changes.
unfoldable pub choose_from : ℕ → List Kthread → ℕ → ℕ → ℕ
choose_from v [] i idx = idx
choose_from v (t ∷ ts) i idx =
    let rest = choose_from v ts (i + 1) (if ltb t.work_cnt v then i else idx) in
    if t.work_cnt == 0 then i else rest

-- The index that the loop ends with, which is `thread_cnt` (0) if there is no thread.
unfoldable pub choose : List Kthread → ℕ
unfolding choose_from
choose [] = 0
choose (t ∷ ts) = choose_from t.work_cnt ts 1 0

-- A change of the thread at an index.
unfoldable pub change : (Kthread → Kthread) → List Kthread → ℕ → List Kthread
change f [] i = []
change f (t ∷ ts) zero = f t ∷ ts
change f (t ∷ ts) (suc i) = t ∷ change f ts i

-- `list_add_tail` and `work_cnt++`; `list_del` and `work_cnt--`.
abbrev pub give : ℕ → Kthread → Kthread
give e t = record { work_list = t.work_list ++ (e ∷ []); work_cnt = t.work_cnt + 1 }

unfoldable pub delete : ℕ → List ℕ → List ℕ
delete e [] = []
delete e (x ∷ xs) = if x == e then xs else x ∷ delete e xs

abbrev pub take_back : ℕ → Kthread → Kthread
take_back e t = record { work_list = delete e t.work_list; work_cnt = t.work_cnt - 1 }

-- The threads, and each engine's `cmplthp`.
pub record Threads : Type 0 where
  pub pool : List Kthread
  pub cmplthp : ℕ → Option ℕ

abbrev pub assign : (ℕ → Option ℕ) → ℕ → Option ℕ → ℕ → Option ℕ
assign m e o q = if q == e then o else m q

-- `xdma_thread_add_work`. `none`: without threads the code writes through a null array.
unfoldable pub xdma_thread_add_work : Threads → ℕ → Option Threads
xdma_thread_add_work s e = elim (get_elem? s.pool (choose s.pool)) [
  | none ↦ none
  | some t ↦ some (record {
    pool = change (give e) s.pool (choose s.pool);
    cmplthp = assign s.cmplthp e (some (choose s.pool));
  })
]

-- `xdma_thread_remove_work`
unfoldable pub xdma_thread_remove_work : Threads → ℕ → Threads
xdma_thread_remove_work s e = elim (s.cmplthp e) [
  | none ↦ record s { cmplthp = assign s.cmplthp e none }
  | some i ↦ record { pool = change (take_back e) s.pool i; cmplthp = assign s.cmplthp e none }
]
