-- ===== src/Tools.antt =====
-- tools/dma_utils.c: `read_to_buffer` and `write_from_buffer`, which move a buffer in pieces of at most
-- `RW_MAX_SIZE` bytes. Both are the same loop, around `read` and `write`.
pub mod Chunks
use xdma_fpga.Base.{
  ℕ, zero, suc, ◌+◌, ◌-◌, Bool, true, false, not, ◌==◌, ◌&&◌, Option, none, some, List, [], ◌∷◌,
  ltb, if◌then◌else◌,
}
use xdma_fpga.Request.{SwDesc}
use xdma_fpga.Xfer.{Ssize}
use xdma_fpga.Base.{eio}

-- `RW_MAX_SIZE`
abbrev pub rw_max_size : ℕ
rw_max_size = 0x7fff_f000

-- What `read` or `write` returns: a number of bytes, or a negative number.
pub data Reply : Type 0 where
  got : ℕ → Reply
  broken : Reply

-- What the system answers to the k-th `lseek`, whether it arrives, and to the k-th call for some bytes.
pub record Sys : Type 0 where
  pub seek : ℕ → Bool
  pub io : ℕ → ℕ → Reply

-- The calls for bytes, each with the file's position where it starts and its length, and what the function returns.
abbrev pub Outcome : Type 0
Outcome = Ssize × List SwDesc

abbrev pub called : ℕ → ℕ → Option Outcome → Option Outcome
called at bytes none = none
called at bytes (some (r, cs)) = some (r, record { addr = at; len = bytes } ∷ cs)

-- The position behind `if (offset) lseek(fd, offset, SEEK_SET)`, from the position before it.
abbrev pub sought : ℕ → ℕ → ℕ
sought offset pos = if offset == 0 then pos else offset

-- `while (count < size)`, at its k-th round, with the file at `pos`. A call moves the position by its bytes. `none`:
-- out of fuel.
unfoldable pub chunk_loop : Sys → ℕ → ℕ → ℕ → ℕ → ℕ → ℕ → Option Outcome
chunk_loop s zero k size count offset pos = none
chunk_loop s (suc fuel) k size count offset pos =
    let bytes = if ltb rw_max_size (size - count) then rw_max_size else size - count in
    let at = sought offset pos in
    let full =
      called at bytes
        (chunk_loop s fuel (k + 1) size (count + bytes) (offset + bytes) (at + bytes)) in
    if not (ltb count size)
    then some (Ssize.count count, [])
    else if not (offset == 0) && not (s.seek k)
    then some (Ssize.error eio, [])
    else elim (s.io k bytes) [
      | broken ↦ called at bytes (some (Ssize.error eio, []))
      | got rc ↦
          if not (rc == bytes) then called at bytes (some (Ssize.count (count + rc), [])) else full
    ]

-- `read_to_buffer` of a file at `pos`, with fuel for its rounds.
unfoldable pub read_to_buffer : Sys → ℕ → ℕ → ℕ → ℕ → Option Outcome
unfolding chunk_loop
read_to_buffer s fuel size base pos = chunk_loop s fuel 0 size 0 base pos

-- `write_from_buffer`
unfoldable pub write_from_buffer : Sys → ℕ → ℕ → ℕ → ℕ → Option Outcome
unfolding chunk_loop
write_from_buffer s fuel size base pos = chunk_loop s fuel 0 size 0 base pos
