-- ===== src/Thread/Pool.antt =====
-- `xdma_threads_create` and `xdma_threads_destroy` of xdma_thread.c.
use native.Mathlib.Decide.{ℕ_discrete}
use xdma_fpga.Base.{
  ℕ, zero, suc, ◌+◌, ◌≤◌, ◌<◌, Bool, true, false, List, [], ◌∷◌, ◌≡◌, arith, ◌==◌, if◌then◌else◌,
  Rv, ok, err, enomem, Errno, min, not, ltb, refl, subst, ap, ◌∙◌,
}

-- `cs_threads` (is it allocated) and `thread_cnt`, and the kernel threads that run `xthread_main`.
pub record Pool : Type 0 where
  pub allocated : Bool
  pub thread_cnt : ℕ
  pub tasks : List ℕ

-- `xdma_kthread_start` on the thread of an index: a task, or an error. The kernel's answer is given.
abbrev Starts : Type 0
Starts = ℕ → Rv

-- The loop of `xdma_threads_create` over the CPUs that are left. The result is the error of the start
-- that failed, or 0.
unfoldable pub create_loop : Starts → ℕ → ℕ → Pool → Rv × Pool
create_loop start num_threads zero p = (ok, p)
create_loop start num_threads (suc cpus) p =
    let p' = record p { thread_cnt = suc p.thread_cnt; tasks = p.thread_cnt ∷ p.tasks } in
    let rest = create_loop start num_threads cpus p' in
    elim (start p.thread_cnt) [
      | err e ↦ (err e, record p { allocated = false; thread_cnt = 0 })
      | ok ↦ if suc p.thread_cnt == num_threads then (ok, p') else rest
    ]

-- `xdma_threads_create`
unfoldable pub xdma_threads_create : Bool → Starts → ℕ → ℕ → Pool → Rv × Pool
unfolding create_loop
xdma_threads_create memory start num_threads cpus p =
    let run = create_loop start num_threads cpus (record p { allocated = true }) in
    if not (p.thread_cnt == 0) then (ok, p) else if memory then run else (err enomem, p)

-- The tasks behind `xdma_kthread_stop` of the first `n` threads.
unfoldable pub stop_tasks : ℕ → List ℕ → List ℕ
stop_tasks n [] = []
stop_tasks n (t ∷ ts) = let rest = stop_tasks n ts in if ltb t n then rest else t ∷ rest

-- `xdma_threads_destroy`, where every stop succeeds.
unfoldable pub xdma_threads_destroy : Pool → Pool
unfolding stop_tasks
xdma_threads_destroy p =
    if p.thread_cnt == 0
    then p
    else record { allocated = false; thread_cnt = 0; tasks = stop_tasks p.thread_cnt p.tasks }

-- The first `n` threads run, newest first.
abbrev pub first_tasks : ℕ → List ℕ
first_tasks zero = []
first_tasks (suc n) = n ∷ first_tasks n

abbrev running : ℕ → Pool
running n = record { allocated = true; thread_cnt = n; tasks = first_tasks n }

-- The threads 0 to n - 1 and no others run, in an allocated array.
pub record Runs (n : ℕ) (r : Rv × Pool) : Type 0 where
  pub success : r.0 ≡ ok
  pub allocated : r.1.allocated ≡ true
  pub count : r.1.thread_cnt ≡ n
  pub tasks : r.1.tasks ≡ first_tasks n

loop-Runs :
    (start : ℕ → Rv) (num cpus n : ℕ)
    → ((i : ℕ) → start i ≡ ok)
    → n < num
    → Runs (min num (n + cpus)) (create_loop start num cpus (running n))
unfolding create_loop
loop-Runs start num zero n all h =
    let m : min num (n + 0) ≡ n = omega arith in
    rw m (record { success = refl; allocated = refl; count = refl; tasks = refl })
loop-Runs start num (suc cpus) n all h = elim (ℕ_discrete (suc n) num) [
  | yes last ↦
      let m : min num (n + suc cpus) ≡ suc n = omega arith in
      let stop : (suc n == num) ≡ true = ground arith in
      rw (m, all n, stop, create_loop)
        (record { success = refl; allocated = refl; count = refl; tasks = refl })
  | no more ↦
      let m : min num (n + suc cpus) ≡ min num (suc n + cpus) = omega arith in
      let go : (suc n == num) ≡ false = ground arith in
      rw (m, all n, go, create_loop) (loop-Runs start num cpus (suc n) all (omega arith))
]

stop_all : (n k : ℕ) → k ≤ n → stop_tasks n (first_tasks k) ≡ []
unfolding stop_tasks
stop_all n zero h = refl
stop_all n (suc k) h = ground (arith, stop_all n k (omega arith))

-- Where no thread runs, memory is there and each start succeeds, `xdma_threads_create` makes one thread
-- for each CPU, up to the number asked for, and `xdma_threads_destroy` then ends all of them and frees
-- the array. (At least one thread is asked for, and there is a CPU.)
pub create_destroy :
    (start : ℕ → Rv) (num cpus : ℕ)
    → ((i : ℕ) → start i ≡ ok)
    → 0 < num
    → 0 < cpus
    → let none_yet : Pool = record { allocated = false; thread_cnt = 0; tasks = [] } in
      let r = xdma_threads_create true start num cpus none_yet in
      Runs (min num cpus) r × (xdma_threads_destroy r.1 ≡ none_yet)
unfolding xdma_threads_create xdma_threads_destroy
create_destroy start num cpus all hn hc =
    let r = loop-Runs start num cpus 0 all hn in
    let m : min num (0 + cpus) ≡ min num cpus = omega arith in
    let some_there : (min num cpus == 0) ≡ false = ground arith in
    let made = subst (λ n. Runs n (create_loop start num cpus (running 0))) m r in
    (
      made,
      rw (made.count, made.tasks, some_there)
          (ap (λ l. record { allocated = false; thread_cnt = 0; tasks = l })
            (stop_all (min num cpus) (min num cpus) (omega arith))),
    )

loop_leaks :
    (start : ℕ → Rv) (num cpus n k : ℕ) (e : Errno)
    → ((i : ℕ) → i < n + k → start i ≡ ok)
    → start (n + k) ≡ err e
    → n + k < num
    → k < cpus
    → create_loop start num cpus (running n)
      ≡ (err e, record { allocated = false; thread_cnt = 0; tasks = first_tasks (n + k) })
unfolding create_loop
loop_leaks start num zero n k e all bad h c = absurd (omega arith)
loop_leaks start num (suc cpus) n zero e all bad h c =
    let z : n + 0 ≡ n = omega arith in
    let bad' : start n ≡ err e = rw z at bad in rw (bad', z, create_loop)
loop_leaks start num (suc cpus) n (suc k) e all bad h c =
    let z : n + suc k ≡ suc n + k = omega arith in
    let go : (suc n == num) ≡ false = ground arith in
    let good : start n ≡ ok = all n (omega arith) in
    rw (z, good, go, create_loop)
      (loop_leaks start num cpus (suc n) k e (λ i l. all i (omega arith)) (rw z at bad)
        (omega arith) (omega arith))

-- Where the start of thread `k` fails, `xdma_threads_create` frees the array and forgets the threads, and
-- the `k` threads started before it run on, on the freed array.
create_leaks :
    (start : ℕ → Rv) (num cpus k : ℕ) (e : Errno)
    → ((i : ℕ) → i < k → start i ≡ ok)
    → start k ≡ err e
    → k < num
    → k < cpus
    → let none_yet : Pool = record { allocated = false; thread_cnt = 0; tasks = [] } in
      xdma_threads_create true start num cpus none_yet
      ≡ (err e, record { allocated = false; thread_cnt = 0; tasks = first_tasks k })
unfolding xdma_threads_create
create_leaks start num cpus k e all bad h c =
    let z : 0 + k ≡ k = omega arith in
    loop_leaks start num cpus 0 k e (λ i l. all i (omega arith)) (rw z bad) (rw z h) c
    ∙ ap (λ m. (err e, record { allocated = false; thread_cnt = 0; tasks = first_tasks m })) z
