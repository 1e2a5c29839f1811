-- ===== src/Xfer/Submit.antt =====
-- `xdma_xfer_submit` of libxdma.c as a whole: its refusals, the count that it returns, and what becomes of
-- the engine's count of used descriptors.
use xdma_fpga.Base.{
  ℕ, ◌+◌, ◌-◌, ◌^◌, ◌≤◌, ◌<◌, true, false, List, [], ◌∷◌, ◌++◌, ◌≡◌, ◌≢◌, ◌⊎◌, inl, inr, arith,
  length, refl, sym, ap, ◌∙◌, ok, Errno, Bool-cases, some, All, leb, is_empty, eio, enomem, ebusy,
  einval,
}
use xdma_fpga.Request.{SwDesc, XdmaRequest, xdma_init_request}
use xdma_fpga.Request.Program.{sum_len}
use xdma_fpga.Request.Slots.{IsRing}
use xdma_fpga.Request.Segments.{Tiles, CoversAll, Fits, init_request_covers}
use xdma_fpga.Xfer.{
  World, Ended, Channel, Call, Ssize, error, ring_of, ret, mismatch, submit_request,
  xdma_xfer_submit,
}
use xdma_fpga.Xfer.Parts.{Calm}
use xdma_fpga.Xfer.Round.{IsGoing}
use xdma_fpga.Xfer.Loop.{Rounds, loop_rounds}

sum-append : (xs ys : List SwDesc) → sum_len (xs ++ ys) ≡ sum_len xs + sum_len ys
unfolding sum_len
sum-append [] ys = omega arith
sum-append (x ∷ xs) ys = omega (arith, sum-append xs ys)

pub sum-Tiles : (b addr len : ℕ) (ds : List SwDesc) → Tiles b addr len ds → sum_len ds ≡ len
unfolding sum_len
sum-Tiles b addr len [] t = sym t
sum-Tiles b addr len (d ∷ ds) t =
    omega (arith, t.3, sum-Tiles b (addr + d.len) (len - d.len) ds t.4)

-- The pieces of a request have as many bytes as the scatter list.
pub sum-CoversAll : (b : ℕ) (sgl ds : List SwDesc) → CoversAll b sgl ds → sum_len ds ≡ sum_len sgl
unfolding sum_len
sum-CoversAll b [] ds c = rw c refl
sum-CoversAll b (sg ∷ sgl) ds (xs, ys, e, t, c) =
    rw e
      (omega (arith, sum-append xs ys, sum-Tiles b sg.addr sg.len xs t, sum-CoversAll b sgl ys c))

-- Why a call is refused before it moves a byte, and with which error.
pub data Refuses (w : World) (a : Call) (c : Channel) (e : Errno) : Type 0 where
  no_channel : a.channel_max ≤ a.channel → e ≡ einval → Refuses w a c e
  bad_magic : a.magic_ok ≡ false → e ≡ einval → Refuses w a c e
  offline : w.offline ≡ true → e ≡ ebusy → Refuses w a c e
  wrong_way : mismatch a.write c.engine.dir ≡ true → e ≡ einval → Refuses w a c e
  unmapped : a.mapped ≡ [] → e ≡ eio → Refuses w a c e
  no_memory : (n : ℕ) → a.alloc n ≡ false → e ≡ enomem → Refuses w a c e

-- The guards hold that come before `xdma_init_request`.
pub record IsAccepted (w : World) (a : Call) (c : Channel) : Type 0 where
  pub known : a.channel < a.channel_max
  pub magic : a.magic_ok ≡ true
  pub online : w.offline ≡ false
  pub way : mismatch a.write c.engine.dir ≡ false
  pub full : a.mapped ≢ []

-- What the loop starts from.
abbrev pub start_of : Channel → XdmaRequest → Ended
start_of c req = record { rv = ok; chan = c; req = req; nents = length req.sdesc; done = 0 }

-- What the loop needs to start: the ring is one, the engine is not streaming, and no counter wraps around.
pub record IsReady (c : Channel) (total : ℕ) : Type 0 where
  pub ring : IsRing (ring_of c)
  pub mode : c.engine.streaming ≡ false
  pub small : total < 2 ^ 32
  pub few : c.engine.desc_used + c.desc_max < 2 ^ 32

pub start-IsGoing :
    (c : Channel) (req : XdmaRequest)
    → IsReady c (sum_len req.sdesc)
    → req.sw_desc_idx ≡ 0
    → IsGoing (sum_len req.sdesc) c.engine.desc_used (start_of c req)
start-IsGoing c req v z = record {
  ring = v.ring;
  place = omega (arith, z);
  mode = v.mode;
  counted = refl;
  sum = rw z (omega arith);
}

submit_request_rounds :
    (w : World) (p : ℕ) (c : Channel) (req : XdmaRequest)
    → Calm w p
    → IsReady c (sum_len req.sdesc)
    → req.sw_desc_idx ≡ 0
    → (r : Ssize) × (c' : Channel) × (submit_request w p c (some (some req)) ≡ some (r, c'))
      × Rounds w p req.sdesc r 0 (start_of c req)
unfolding submit_request
submit_request_rounds w p c req calm v z =
    let total = sum_len req.sdesc in
    let used = c.engine.desc_used in
    let (s, e, rounds) =
      loop_rounds w p (length req.sdesc + 1) 0 total used req.sdesc (start_of c req) calm
        (start-IsGoing c req v z) refl refl refl (omega arith) v.small v.few in
    (ret s, s.chan, rw (e, submit_request), rounds)

is_empty_nil {ℓ} : {A : Type ℓ} (xs : List A) → is_empty xs ≡ true → xs ≡ []
is_empty_nil [] h = refl
is_empty_nil (x ∷ xs) h = cc

not_empty {ℓ} : {A : Type ℓ} (xs : List A) → xs ≢ [] → is_empty xs ≡ false
not_empty [] h = absurd (h refl)
not_empty (x ∷ xs) h = refl

pub guards :
    (w : World) (p : ℕ) (a : Call) (c : Channel)
    → ((e : Errno) × Refuses w a c e × (xdma_xfer_submit w p a c ≡ some (error e, c)))
      ⊎ (IsAccepted w a c
          × (xdma_xfer_submit w p a c
              ≡ submit_request w p c (xdma_init_request a.blen_max a.alloc a.mapped a.ep_addr)))
unfolding xdma_xfer_submit
guards w p a c = elim (Bool-cases (leb a.channel_max a.channel)) [
  | inl h ↦ inl (einval, no_channel (ground arith) refl, rw h)
  | inr h ↦ elim (Bool-cases a.magic_ok) [
    | inr m ↦ inl (einval, bad_magic m refl, simp (h, m))
    | inl m ↦ elim (Bool-cases w.offline) [
      | inl o ↦ inl (ebusy, offline o refl, simp (h, m, o))
      | inr o ↦ elim (Bool-cases (mismatch a.write c.engine.dir)) [
        | inl d ↦ inl (einval, wrong_way d refl, simp (h, m, o, d))
        | inr d ↦ elim (Bool-cases (is_empty a.mapped)) [
          | inl n ↦ inl (eio, unmapped (is_empty_nil a.mapped n) refl, simp (h, m, o, d, n))
          | inr n ↦ inr (
            record {
              known = ground arith;
              magic = m;
              online = o;
              way = d;
              full = λ z. let t : true ≡ false = sym (ap is_empty z) ∙ n in cc;
            },
            simp (h, m, o, d, n),
          )
        ]
      ]
    ]
  ]
]

pub accepted_lem :
    (w : World) (p : ℕ) (a : Call) (c : Channel)
    → IsAccepted w a c
    → xdma_xfer_submit w p a c
      ≡ submit_request w p c (xdma_init_request a.blen_max a.alloc a.mapped a.ep_addr)
unfolding xdma_xfer_submit
accepted_lem w p a c v =
    let known : leb a.channel_max a.channel ≡ false = ground (arith, v.known) in
    let there : is_empty a.mapped ≡ false = not_empty a.mapped v.full in
    simp (known, v.magic, v.online, v.way, there)

-- `xdma_xfer_submit` ends, with fuel for the scatter list and whatever the waits bring. It refuses the call
-- with the error of a guard that fails, or for want of memory, and then changes nothing. Otherwise the request
-- has pieces that cover the scatter list. If every transfer is queued and found completed behind its wait, the
-- call returns the bytes of all pieces. If one is refused, or found failed (-EIO) or neither (-ETIMEDOUT), and
-- those before it completed, the call returns the bytes of the pieces before it, or its error if they are 0.
-- (A wait leaves alone what the lock `desc_lock` guards; the engine is not streaming; counters do not wrap.)
pub submit_returns :
    (w : World) (p : ℕ) (a : Call) (c : Channel)
    → Calm w p
    → 0 < a.blen_max
    → All (Fits a.blen_max) a.mapped
    → IsReady c (sum_len a.mapped)
    → ((e : Errno) × Refuses w a c e × (xdma_xfer_submit w p a c ≡ some (error e, c)))
      ⊎ (IsAccepted w a c
          × (req : XdmaRequest) × (r : Ssize) × (c' : Channel) × (xdma_xfer_submit w p a c
              ≡ some (r, c'))
          × CoversAll a.blen_max a.mapped req.sdesc
          × Rounds w p req.sdesc r 0 (start_of c req))
unfolding submit_request
submit_returns w p a c calm b fits v = elim (guards w p a c) [
  | inl refused ↦ inl refused
  | inr (acc, eq) ↦ elim (init_request_covers a.blen_max a.alloc a.mapped a.ep_addr b fits) [
    | inl (none_left, n) ↦ inl (enomem, no_memory _ none_left refl, eq ∙ rw (n, submit_request))
    | inr (_, req, r, covers, _, _, z) ↦
        let same = sum-CoversAll a.blen_max a.mapped req.sdesc covers in
        let v' : IsReady c (sum_len req.sdesc) = rw same v in
        let (ret', c', e, rounds) = submit_request_rounds w p c req calm v' z in
        inr (acc, req, ret', c', eq ∙ (rw r e), covers, rounds)
  ]
]
