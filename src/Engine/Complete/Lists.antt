-- ===== src/Engine/Complete/Lists.antt =====
-- What the loop over the queue and the final transfer of `engine_service` do together, where the count
-- is just that of the queued descriptors.
use xdma_fpga.Base.{
  ℕ, ◌+◌, ◌-◌, ◌<◌, false, List, [], ◌∷◌, ◌++◌, ◌≡◌, ◌≢◌, ◌⊎◌, inl, inr, arith, All, All-append,
  refl, ap, subst, sym, ◌∙◌,
}
use native.Mathlib.Decide.{ℕ_discrete}
use xdma_fpga.Engine.{Engine, Host, Transfer, completed}
use xdma_fpga.Engine.Service.{
  complete_head, transfer_list_loop, final_transfer_of, engine_transfer_completion,
  engine_service_transfer_list, engine_service_final_transfer, status_error,
}
use xdma_fpga.Engine.Queued.Kept.{final_outcome_frame}
use xdma_fpga.Engine.Complete.{descs, StopsAt, transfer_list-Splits}
use xdma_fpga.Engine.Complete.Final.{Leaves, final_transfer-Ends}

-- A queue of ordinary transfers, each with a descriptor.
abbrev pub Ordinary : (ℕ → Transfer) → List ℕ → Type 0
Ordinary m = All (λ p. ((m p).cyclic ≡ false) × (0 < (m p).desc_num))

abbrev pub AllCompleted : Engine → List ℕ → Type 0
AllCompleted e = All (λ p. (e.xfers p).state ≡ completed)

-- Where the loop stops with exactly the descriptors that are left, at most one transfer is left.
one_left :
    (m : ℕ → Transfer) (ps : List ℕ) (n : ℕ)
    → Ordinary m ps
    → StopsAt m ps n
    → n ≡ descs m ps
    → (ps ≡ []) ⊎ ((p : ℕ) × (ps ≡ p ∷ []) × (n ≡ (m p).desc_num))
one_left m [] n o s e = inl refl
one_left m (p ∷ []) n o s e = inr (p, refl, omega arith)
one_left m (p ∷ q ∷ ps) n o (inl c) e = cc (c, o.0.0)
one_left m (p ∷ q ∷ ps) n o (inr le) e = absurd (omega arith)

Ordinary-split : (m : ℕ → Transfer) (xs ys : List ℕ) → Ordinary m (xs ++ ys) → Ordinary m ys
Ordinary-split m [] ys o = o
Ordinary-split m (x ∷ xs) ys o = Ordinary-split m xs ys o.1

descs-append : (m : ℕ → Transfer) (xs ys : List ℕ) → descs m (xs ++ ys) ≡ descs m xs + descs m ys
descs-append m [] ys = omega arith
descs-append m (x ∷ xs) ys = omega (arith, descs-append m xs ys)

-- The loop leaves the status alone.
complete_head_status :
    (e : Engine) (p : ℕ) (ps : List ℕ)
    → let e' = complete_head e p ps in (e'.status ≡ e.status) × (e'.dir ≡ e.dir)
unfolding complete_head
complete_head_status e p ps = (ground arith, ground arith)

loop_status :
    (e : Engine) (ps : List ℕ) (n : ℕ)
    → let e' = (transfer_list_loop e ps n).0 in (e'.status ≡ e.status) × (e'.dir ≡ e.dir)
unfolding transfer_list_loop
loop_status e [] n = (refl, refl)
loop_status e (p ∷ ps) n = ground (
  arith,
  complete_head_status e p ps,
  loop_status (complete_head e p ps) ps (n - (e.xfers p).desc_num),
)

pub error_same :
    (e e' : Engine) → e'.status ≡ e.status → e'.dir ≡ e.dir → status_error e' ≡ status_error e
error_same e e' s d = rw (s, d)

-- Other transfers than the head are left alone.
final_frame :
    (h : Host) (e : Engine) (p : ℕ) (ps : List ℕ) (n q : ℕ)
    → e.transfer_list ≡ p ∷ ps
    → q ≢ p
    → (engine_service_final_transfer h e n).xfers q ≡ e.xfers q
unfolding engine_service_final_transfer final_transfer_of engine_transfer_completion
final_frame h e p ps n q l ne = ground (arith, l, final_outcome_frame h e p n q ne)

AllCompleted-final :
    (h : Host) (e : Engine) (p : ℕ) (ps : List ℕ) (n : ℕ) (qs : List ℕ)
    → e.transfer_list ≡ p ∷ ps
    → ((engine_service_final_transfer h e n).xfers p).state ≡ completed
    → AllCompleted e qs
    → AllCompleted (engine_service_final_transfer h e n) qs
AllCompleted-final h e p ps n [] l c a = tt
AllCompleted-final h e p ps n (q ∷ qs) l c a = (
  elim (ℕ_discrete q p) [ yes same ↦ rw same c | no ne ↦ rw (final_frame h e p ps n q l ne) a.0 ],
  AllCompleted-final h e p ps n qs l c a.1,
)

-- The last transfer of a queue ends well on a count of its descriptors.
last_completes :
    (h : Host) (e : Engine) (p n : ℕ)
    → e.transfer_list ≡ p ∷ []
    → status_error e ≡ false
    → n ≡ (e.xfers p).desc_num
    → Leaves (engine_service_final_transfer h e n) p completed []
last_completes h e p n l s c = elim (final_transfer-Ends h e p [] n l) [
  | inl (w, leaves) ↦ leaves
  | inr (inl (inl bad, leaves)) ↦ cc (bad, s)
  | inr (inl (inr short, leaves)) ↦ absurd (omega arith)
  | inr (inr (on, leaves)) ↦ absurd (omega (arith, on.1))
]

drop_ends :
    (m : ℕ → Transfer) (e : Engine) (ps : List ℕ)
    → All (λ p. ((m p).cyclic ≡ false) × ((e.xfers p).state ≡ completed)) ps
    → AllCompleted e ps
drop_ends m e [] a = tt
drop_ends m e (p ∷ ps) a = (a.0.1, drop_ends m e ps a.1)

final_empty :
    (h : Host) (e : Engine) (n : ℕ) → e.transfer_list ≡ [] → engine_service_final_transfer h e n ≡ e
unfolding engine_service_final_transfer final_transfer_of
final_empty h e n l = rw l

-- What both ways of ending the loop come to.
collect :
    (e : Engine) (ps ended left : List ℕ)
    → ps ≡ ended ++ left
    → AllCompleted e ended
    → AllCompleted e left
    → AllCompleted e ps
collect e ps ended left sp a b =
    subst (AllCompleted e) (sym sp) (All-append (λ p. (e.xfers p).state ≡ completed) ended left a b)

pub drain_lists :
    (h : Host) (e : Engine) (n : ℕ)
    → Ordinary e.xfers e.transfer_list
    → status_error e ≡ false
    → n ≡ descs e.xfers e.transfer_list
    → let r = engine_service_transfer_list e n in
      let e' = engine_service_final_transfer h r.0 r.1 in
      (e'.transfer_list ≡ []) × AllCompleted e' e.transfer_list
unfolding engine_service_transfer_list
drain_lists h e n o s c =
    let r = engine_service_transfer_list e n in
    let e' = engine_service_final_transfer h r.0 r.1 in
    let sp = transfer_list-Splits e n in
    let ended = drop_ends e.xfers r.0 sp.ended sp.ends in
    let st = loop_status e e.transfer_list n in
    elim (one_left e.xfers sp.left r.1
      (Ordinary-split e.xfers sp.ended sp.left (subst (Ordinary e.xfers) sp.split o)) sp.stops
      (omega
        (arith, sp.count, ap (descs e.xfers) sp.split, descs-append e.xfers sp.ended sp.left))) [
          | inl none_left ↦
              let same = final_empty h r.0 r.1 (sp.queue ∙ none_left) in
              subst (λ e'. (e'.transfer_list ≡ []) × AllCompleted e' e.transfer_list) (sym same)
                (
                  sp.queue ∙ none_left,
                  collect r.0 e.transfer_list sp.ended sp.left sp.split ended
                      (subst (AllCompleted r.0) (sym none_left) tt),
                )
          | inr (p, l, k) ↦
              let last =
                last_completes h r.0 p r.1 (sp.queue ∙ l) (error_same e r.0 st.0 st.1 ∙ s)
                  (k ∙ sym (sp.same p).0) in
              (
                last.1,
                collect e' e.transfer_list sp.ended sp.left sp.split
                    (AllCompleted-final h r.0 p [] r.1 sp.ended (sp.queue ∙ l) last.0 ended)
                    (subst (AllCompleted e') (sym l) (last.0, tt)),
              )
        ]
