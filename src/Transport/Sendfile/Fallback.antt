-- ===== src/Transport/Sendfile/Fallback.antt =====
-- `_sendfile_fallback` of python/tokioop/loop.py: blocks of a file are read into one `bytearray` and
-- written to the transport. The transport keeps what the kernel did not take as a view of that
-- `bytearray`, so a chunk that still waits changes when the next block is read.
pub mod Steps
pub mod Views
pub mod Sends
pub mod Overwrites
use tokioop.Prelude.{
  ℕ, zero, suc, ◌+◌, ◌-◌, Bool, not, ◌&&◌, Option, none, some, List, [], ◌∷◌, ◌++◌, min, ltb, ◌==◌,
  if◌then◌else◌, length, take, drop, replicate,
}
use tokioop.Python.{
  Bytes, Result, ok, err, Method, pure, gets, modify, when, lift, finally, ◌>>=◌, ◌>>◌,
}
use tokioop.Transport.Stream.{Stream, User}
use tokioop.Transport.Write.{bytes_like, write}

-- For each chunk in the transport's buffer, `views` has the end of the part of `buf` that the chunk
-- shows, or `none` for a chunk with bytes of its own. A view that is cut loses bytes at its front.
pub record Copying : Type 0 where
  pub stream : Stream
  pub views : List (Option ℕ)
  pub buf : Bytes
  -- The file's position.
  pub pos : ℕ
  pub total_sent : ℕ

-- What stands outside the code: the standard library's `_SendfileFallbackProtocol`, with all that
-- the loop does while `drain` or `restore` waits; what the loop does while the executor reads, before
-- and after the bytes are in `buf`; how many bytes `readinto` gives at a position; and the kernel's
-- answer to a `send` of some length. They go by the number of bytes written before. In all this
-- nothing is written to the transport, and chunks leave its buffer at the front.
pub record World : Type 0 where
  pub make : Method Stream (Unit {0})
  pub before : ℕ → Method Stream (Unit {0})
  pub readinto : ℕ → ℕ → Result ℕ
  pub after : ℕ → Method Stream (Unit {0})
  pub kernel : ℕ → ℕ → Result ℕ
  pub drain : ℕ → Method Stream (Unit {0})
  pub restore : Method Stream (Unit {0})

-- The views after the buffer went from one length to another; a chunk that came is `mark`.
unfoldable pub retag : ℕ → ℕ → Option ℕ → List (Option ℕ) → List (Option ℕ)
retag old new mark views =
    if ltb old new then views ++ replicate (new - old) mark else drop (old - new) views

-- A method of the transport, on the state of the copy.
abbrev pub put_on : Option ℕ → Copying → Result (Unit {0}) × Stream → Result (Unit {0}) × Copying
put_on mark c (r, s) = (
  r,
  record c { stream = s; views = retag (length c.stream.buffer) (length s.buffer) mark c.views },
)

unfoldable pub on_transport : Option ℕ → Method Stream (Unit {0}) → Method Copying (Unit {0})
on_transport mark m c = put_on mark c (m c.stream)

-- The buffer as it reads once `buf` has changed.
unfoldable pub refresh : Bytes → List Bytes → List (Option ℕ) → List Bytes
refresh buf [] views = []
refresh buf (b ∷ bs) [] = b ∷ bs
refresh buf (b ∷ bs) (none ∷ views) = b ∷ refresh buf bs views
refresh buf (b ∷ bs) (some end ∷ views) =
    take (length b) (drop (end - length b) buf) ∷ refresh buf bs views

-- `n` bytes of the file come into `buf`.
unfoldable pub land : Bytes → ℕ → Copying → Copying
unfolding refresh
land file n c =
    let buf = take n (drop c.pos file) ++ drop n c.buf in
    record c {
      buf = buf;
      pos = c.pos + n;
      stream = record (c.stream) {
        core = record (c.stream.core) { buffer = refresh buf c.stream.buffer c.views };
      };
    }

abbrev pub block_limit : ℕ
block_limit = 16384

-- `if count: blocksize = min(count - total_sent, blocksize)`; 0 stands for no count.
unfoldable pub next_block : ℕ → ℕ → ℕ → ℕ
next_block count total blocksize = if count == 0 then blocksize else min (count - total) blocksize

unfoldable pub first_block : ℕ → ℕ
first_block count = if count == 0 then block_limit else min count block_limit

-- `if hasattr(file, "seek"): file.seek(...)`
unfoldable pub seek : Bool → ℕ → Method Copying (Unit {0})
seek has_seek to = when has_seek (modify λ c. record c { pos = to })

-- What follows a round: the loop ends, or `go_on` with a block size.
abbrev pub after_round :
    (ℕ → Copying → Option (Result ℕ × Copying))
    → Result (Option ℕ) × Copying
    → Option (Result ℕ × Copying)
after_round go_on (err e, d) = some (err e, d)
after_round go_on (ok none, d) = some (ok d.total_sent, d)
after_round go_on (ok (some block), d) = go_on block d

-- What follows `begin`: nothing, where the constructor raised.
abbrev pub after_begin :
    (Copying → Option (Result ℕ × Copying))
    → Result (Unit {0}) × Copying
    → Option (Result ℕ × Copying)
after_begin go_on (err e, d) = some (err e, d)
after_begin go_on (ok _, d) = go_on d

module _ (w : World) where
  -- The `finally` block.
  unfoldable pub put_back : Bool → ℕ → Method Copying (Unit {0})
  put_back has_seek offset = do
    total ← gets (λ c. c.total_sent)
    seek (ltb 0 total && has_seek) (offset + total)
    on_transport none w.restore

  unfoldable pub ended : Bool → ℕ → Option (Result ℕ × Copying) → Option (Result ℕ × Copying)
  ended has_seek offset none = none
  ended has_seek offset (some (r, c)) = some (finally (λ d. (r, d)) (put_back has_seek offset) c)

  -- The start: the seek, the buffer, and the protocol's constructor.
  unfoldable pub begin : Bool → ℕ → ℕ → Method Copying (Unit {0})
  begin has_seek offset count = do
    seek has_seek offset
    modify (λ c. record c { buf = replicate (first_block count) 0; total_sent = 0 })
    on_transport none w.make

module _ (u : User) (w : World) (file : Bytes) where
  -- The rest of a round, when a read of at most `block` bytes has given `n` and not 0.
  unfoldable pub write_block : ℕ → ℕ → Method Copying (Unit {0})
  unfolding land
  write_block block n = do
    modify (land file n)
    total ← gets (λ c. c.total_sent)
    on_transport none (w.after total)
    buf ← gets (λ c. c.buf)
    on_transport (some n) (write u (bytes_like (take n (take block buf))) (w.kernel total n))
    on_transport none (w.drain total)
    modify λ c. record c { total_sent = c.total_sent + n }

  -- One round of the loop gives out the next block size, or `none` where the loop returns.
  unfoldable pub round : ℕ → ℕ → Method Copying (Option ℕ)
  round count blocksize = do
    total ← gets (λ c. c.total_sent)
    let block = next_block count total blocksize
    if not (count == 0) && block == 0 then pure none else do
      on_transport none (w.before total)
      pos ← gets (λ c. c.pos)
      n ← lift (w.readinto pos block)
      if n == 0 then pure none else do write_block block n; pure (some block)

  -- `while True`, on fuel; `none` means that the fuel ran out.
  unfoldable pub copy_loop : ℕ → ℕ → ℕ → Copying → Option (Result ℕ × Copying)
  copy_loop zero count blocksize c = none
  copy_loop (suc f) count blocksize c =
      after_round (λ block d. copy_loop f count block d) (round count blocksize c)

  unfoldable pub sendfile_fallback : ℕ → Bool → ℕ → ℕ → Copying → Option (Result ℕ × Copying)
  sendfile_fallback fuel has_seek offset count c =
      after_begin (λ d. ended w has_seek offset (copy_loop fuel count (first_block count) d))
        (begin w has_seek offset count c)
