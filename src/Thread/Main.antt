-- ===== src/Thread/Main.antt =====
-- xdma/xdma_thread.c, a round of `xthread_main` of a completion thread: `xthread_work_pending`,
-- `xdma_thread_cmpl_status_pend` and `xdma_thread_cmpl_status_proc`. Engines are numbers, and `m` holds them.
use xdma_fpga.Base.{
  ℕ, ◌==◌, Bool, true, false, not, ◌||◌, Option, none, some, List, [], ◌∷◌, ◌≡◌, ◌≢◌, All, length,
  sym, inl, inr, is_empty, if◌then◌else◌, refl, subst, ap, ◌∙◌, Rv, ok, ◌<◌, arith, Bool-cases,
  Option-cases,
}
use native.Mathlib.Decide.{ℕ_discrete}
use xdma_fpga.Engine.{Engine, Host}
use xdma_fpga.Engine.Service.{engine_service}
use xdma_fpga.Engine.Poll.{Round, engine_service_poll, serve_writeback}
use xdma_fpga.Engine.Poll.Monitor.{monitor-Ended}
use xdma_fpga.Engine.Device.{Device}
use xdma_fpga.Engine.History.{Reach, here, next, polls}
use xdma_fpga.Engine.History.Sound.{IsSound, Reach-IsSound}
use xdma_fpga.Thread.{Kthread}

-- What the thread meets: the host, the rounds of each engine's monitor and fuel for them, the `desc_cmpl_th` of each
-- transfer, and the word that stands in that place behind the head of an empty queue.
pub record Scene : Type 0 where
  pub host : Host
  pub fuel : ℕ
  pub rounds : ℕ → ℕ → Round
  pub cmpl_th : ℕ → ℕ → ℕ
  pub behind : ℕ → ℕ

-- `xdma_thread_cmpl_status_pend`
unfoldable pub xdma_thread_cmpl_status_pend : Engine → Bool
xdma_thread_cmpl_status_pend e = not (is_empty e.transfer_list)

-- `xthread_work_pending`
unfoldable pub xthread_work_pending : List ℕ → (ℕ → Engine) → Bool
unfolding xdma_thread_cmpl_status_pend
xthread_work_pending [] m = false
xthread_work_pending (i ∷ is) m = xdma_thread_cmpl_status_pend (m i) || xthread_work_pending is m

-- The count that `xdma_thread_cmpl_status_proc` waits for. `list_entry` of an empty queue is no transfer, and not
-- NULL.
unfoldable pub expected : Scene → ℕ → Engine → ℕ
expected w i e = elim e.transfer_list [ [] ↦ w.behind i | p ∷ _ ↦ w.cmpl_th i p ]

-- `xdma_thread_cmpl_status_proc`. `none`: the monitor does not end.
unfoldable pub xdma_thread_cmpl_status_proc : Scene → ℕ → Engine → Option (Rv × Engine)
unfolding expected
xdma_thread_cmpl_status_proc w i e =
    engine_service_poll w.host w.fuel (w.rounds i) e (expected w i e)

abbrev pub store : (ℕ → Engine) → ℕ → Engine → ℕ → Engine
store m i e j = if j == i then e else m j

-- `list_for_each_safe` over the work list.
unfoldable pub serve_all : Scene → List ℕ → (ℕ → Engine) → Option (ℕ → Engine)
serve_all w [] m = some m
serve_all w (i ∷ is) m = elim (xdma_thread_cmpl_status_proc w i (m i)) [
  | none ↦ none
  | some (rv, e) ↦ serve_all w is (store m i e)
]

-- A round of the loop of `xthread_main`, when its wait for work is over.
unfoldable pub xthread_round : Scene → Kthread → (ℕ → Engine) → Option (ℕ → Engine)
unfolding serve_all
xthread_round w t m = if t.work_cnt == 0 then some m else serve_all w t.work_list m

store-Reach :
    (w : Scene) (m : ℕ → Engine) (i : ℕ) (rv : Rv) (e : Engine)
    → xdma_thread_cmpl_status_proc w i (m i) ≡ some (rv, e)
    → (j : ℕ) → Reach (m j) (store m i e j)
unfolding xdma_thread_cmpl_status_proc
store-Reach w m i rv e q j = elim (ℕ_discrete j i) [
  | yes s ↦
      let hit : (j == i) ≡ true = ground arith in
      rw hit (rw s (next here (polls w.host w.fuel (w.rounds i) (m i) e (expected w i (m i)) rv q)))
  | no n ↦ let miss : (j == i) ≡ false = ground arith in rw miss here
]

join : {a b c : Engine} → Reach a b → Reach b c → Reach a c
join r here = r
join r (next s st) = next (join r s) st

serve_all-Reach :
    (w : Scene) (is : List ℕ) (m m' : ℕ → Engine)
    → serve_all w is m ≡ some m'
    → (j : ℕ) → Reach (m j) (m' j)
unfolding serve_all
serve_all-Reach w [] m m' q j =
    let same : m ≡ m' = cc in subst (λ (x : ℕ → Engine). Reach (m j) (x j)) same here
serve_all-Reach w (i ∷ is) m m' q j = elim (Option-cases (xdma_thread_cmpl_status_proc w i (m i))) [
  | inl stuck ↦ let t : none ≡ some m' = rw (stuck, serve_all) at q in absurd (cc)
  | inr ((rv, e), r) ↦
      join (store-Reach w m i rv e r j)
        (serve_all-Reach w is (store m i e) m' (rw (r, serve_all) at q) j)
]

served :
    (h : Host) (n : ℕ) (e : Engine) → (r : Rv × Engine) × (serve_writeback h (some (n, e)) ≡ some r)
unfolding serve_writeback
served h n e = elim (Bool-cases (n == 0)) [
  | inl quiet ↦ ((ok, e), rw quiet refl)
  | inr news ↦ (engine_service h e n, rw news refl)
]

proc_ends :
    (w : Scene) (i k : ℕ) (e : Engine)
    → (w.rounds i k).timed_out ≡ true
    → k < w.fuel
    → (r : Rv × Engine) × (xdma_thread_cmpl_status_proc w i e ≡ some r)
unfolding xdma_thread_cmpl_status_proc engine_service_poll
proc_ends w i k e t lt = elim (monitor-Ended w.fuel k (w.rounds i) e (expected w i e) t lt) [
  | inl (z, r) ↦ let (o, f) = served w.host 0 e in (o, ap (serve_writeback w.host) r ∙ f)
  | inr ended ↦
      let (o, f) = served w.host (w.rounds i ended.round).desc_wb ended.engine in
      (o, ap (serve_writeback w.host) ended.result ∙ f)
]

serve_all_ends :
    (w : Scene) (is : List ℕ) (k : ℕ → ℕ) (m : ℕ → Engine)
    → ((i : ℕ) → (w.rounds i (k i)).timed_out ≡ true)
    → ((i : ℕ) → k i < w.fuel)
    → (m' : ℕ → Engine) × (serve_all w is m ≡ some m')
unfolding serve_all
serve_all_ends w [] k m t lt = (m, refl)
serve_all_ends w (i ∷ is) k m t lt =
    let ((rv, e), r) = proc_ends w i (k i) (m i) (t i) (lt i) in
    let (m', more) = serve_all_ends w is k (store m i e) t lt in (m', rw (r, serve_all) more)

length_zero : (is : List ℕ) → length is ≡ 0 → is ≡ []
length_zero [] h = refl
length_zero (i ∷ is) h = absurd (omega arith)

-- A round serves the engine `i`: it ends in `m'` as `xdma_thread_cmpl_status_proc` leaves it.
abbrev pub Serves : Scene → (ℕ → Engine) → (ℕ → Engine) → ℕ → Type 0
Serves w m m' i = (rv : Rv) × (xdma_thread_cmpl_status_proc w i (m i) ≡ some (rv, m' i))

-- No engine is on the list twice.
abbrev pub Distinct : List ℕ → Type 0
Distinct [] = Unit
Distinct (i ∷ is) = All (λ j. i ≢ j) is × Distinct is

store_miss : (m : ℕ → Engine) (i : ℕ) (e : Engine) (j : ℕ) → i ≢ j → store m i e j ≡ m j
store_miss m i e j n = let miss : (j == i) ≡ false = ground arith in rw miss refl

-- What is served behind another engine is served from the start.
Serves-behind :
    (w : Scene) (m m' : ℕ → Engine) (i : ℕ) (e : Engine) (is : List ℕ)
    → All (λ j. i ≢ j) is
    → All (Serves w (store m i e) m') is
    → All (Serves w m m') is
Serves-behind w m m' i e [] n a = tt
Serves-behind w m m' i e (j ∷ js) n a = (
  (
    a.0.0,
    subst (λ (x : Engine). xdma_thread_cmpl_status_proc w j x ≡ some (a.0.0, m' j))
        (store_miss m i e j n.0) a.0.1,
  ),
  Serves-behind w m m' i e js n.1 a.1,
)

-- Every engine on the list is served once, and no other is touched.
serve_all-Serves :
    (w : Scene) (is : List ℕ) (m m' : ℕ → Engine)
    → Distinct is
    → serve_all w is m ≡ some m'
    → All (Serves w m m') is × ((j : ℕ) → All (λ i. j ≢ i) is → m' j ≡ m j)
unfolding serve_all
serve_all-Serves w [] m m' d q =
    let same : m' ≡ m = cc in (tt, λ j n. ap (λ (f : ℕ → Engine). f j) same)
serve_all-Serves w (i ∷ is) m m' d q =
    elim (Option-cases (xdma_thread_cmpl_status_proc w i (m i))) [
      | inl stuck ↦ let t : none ≡ some m' = rw (stuck, serve_all) at q in absurd (cc)
      | inr ((rv, e), r) ↦
          let (rest, out) = serve_all-Serves w is (store m i e) m' d.1 (rw (r, serve_all) at q) in
          let same : (i == i) ≡ true = ground arith in
          let hit : m' i ≡ e = out i d.0 ∙ rw same refl in
          (
            (
              (rv, r ∙ ap (λ (x : Engine). some (rv, x)) (sym hit)),
              Serves-behind w m m' i e is d.0 rest,
            ),
            λ j n. out j n.1 ∙ store_miss m i e j (λ h. n.0 (sym h)),
          )
    ]

-- Where each engine's monitor times out within the fuel, if not before, and the work list of a completion thread
-- has no engine twice and the length that is counted, a round of the thread ends. Each engine on the list ends as
-- `xdma_thread_cmpl_status_proc` leaves it, every other engine is unchanged, and sound engines stay sound.
pub xthread_round-IsSound :
    (w : Scene) (d : ℕ → Device) (t : Kthread) (k : ℕ → ℕ) (m : ℕ → Engine)
    → ((i : ℕ) → (w.rounds i (k i)).timed_out ≡ true)
    → ((i : ℕ) → k i < w.fuel)
    → ((i : ℕ) → IsSound (d i) (m i))
    → Distinct t.work_list
    → t.work_cnt ≡ length t.work_list
    → (m' : ℕ → Engine) × (xthread_round w t m ≡ some m')
      × All (Serves w m m') t.work_list
      × ((j : ℕ) → All (λ i. j ≢ i) t.work_list → m' j ≡ m j)
      × ((i : ℕ) → IsSound (d i) (m' i))
unfolding xthread_round
xthread_round-IsSound w d t k m late lt v one num = elim (Bool-cases (t.work_cnt == 0)) [
  | inl idle ↦
      let none_left : t.work_list ≡ [] = length_zero t.work_list (ground arith) in
      (m, rw idle refl, subst (All (Serves w m m)) (sym none_left) tt, λ j n. refl, v)
  | inr busy ↦
      let (m', e) = serve_all_ends w t.work_list k m late lt in
      let r = serve_all-Reach w t.work_list m m' e in
      let (on, off) = serve_all-Serves w t.work_list m m' one e in
      (m', rw busy e, on, off, λ i. Reach-IsSound (d i) (r i) (v i))
]
