-- ===== src/Transport/Sendfile/Fallback/Sends.antt =====
-- The copy of a file through a transport whose kernel takes each block as it is written.
use tokioop.Prelude.{
  ℕ, zero, suc, ◌+◌, ◌-◌, ◌≤◌, ◌<◌, ◌≡◌, refl, sym, ap, ◌∙◌, inl, inr, ◌⊎◌, Bool, true, false, not,
  ◌&&◌, Option, none, some, [], ◌++◌, append-nil, arith, ltb, ◌==◌, if◌then◌else◌, length, take,
  drop, concat, replicate, Bool-cases,
}
use tokioop.Python.{Bytes, Result, ok, err, Method, pure, lift, ◌>>=◌, ◌>>◌}
use tokioop.Python.Returns.{Returns, Returns-mono, Returns->>, Returns-finally}
use tokioop.Transport.Stream.{Stream, User}
use tokioop.Transport.Write.Accounting.{IsWritable}
use tokioop.Transport.Sendfile.Fallback.Steps.{
  IsFriendly, Reads, target, Idle, calm_step, write_block-Idle,
}
use tokioop.Transport.Sendfile.Fallback.{
  Copying, World, on_transport, next_block, first_block, seek, write_block, round, after_round,
  copy_loop, after_begin, put_back, ended, begin, sendfile_fallback,
}

-- The result is `goal`; the file is sent, its position is behind what was sent, and nothing waits.
abbrev pub Done : Bytes → ℕ → Bytes → ℕ → ℕ → Copying → Type 0
Done file offset sent goal r d =
    (r ≡ goal)
    × (d.stream.sent ≡ sent ++ take goal (drop offset file))
    × (d.stream.buffer ≡ [])
    × (d.pos ≡ offset + goal)

abbrev pub IsSent : Bytes → ℕ → Bytes → ℕ → Option (Result ℕ × Copying) → Type 0
IsSent file offset sent goal none = ⊥
IsSent file offset sent goal (some x) = Returns (Done file offset sent goal) x

-- A read of nothing means that everything there was is sent.
all_read :
    (n block available count total : ℕ)
    → (n == 0) ≡ true
    → 0 < block
    → (0 < block → 0 < available - total → 0 < n)
    → total ≤ target count available
    → total ≡ target count available
all_read n block available count total e b h l = ground (arith, h b)

block_pos :
    (count total blocksize : ℕ)
    → 0 < blocksize
    → (not (count == 0) && next_block count total blocksize == 0) ≡ false
    → 0 < next_block count total blocksize
unfolding next_block
block_pos count total blocksize b h = ground arith

block_fits :
    (count total blocksize : ℕ)
    → (count == 0) ≡ true ⊎ (next_block count total blocksize ≤ count - total)
unfolding next_block
block_fits count total blocksize = elim (Bool-cases (count == 0)) [
  | inl all ↦ inl all
  | inr some_count ↦ inr (rw some_count (omega arith))
]

more_read :
    (n block available count total : ℕ)
    → (n == 0) ≡ false
    → n ≤ block
    → n ≤ available - total
    → (count == 0) ≡ true ⊎ (block ≤ count - total)
    → total ≤ target count available
    → (total < total + n) × (total + n ≤ target count available)
more_read n block available count total e b h (inl all) l = ground arith
more_read n block available count total e b h (inr fits) l = ground arith

first_block-pos : (count : ℕ) → 0 < first_block count
unfolding first_block
first_block-pos count = ground arith

module _ (file : Bytes) (offset : ℕ) (sent : Bytes) where
  -- Between two rounds nothing waits, and what is counted is sent.
  abbrev Ready : Copying → Type 0
  Ready c = Idle file offset sent c.total_sent c.total_sent c.total_sent c.buf c

  Idle-Ready : (t : ℕ) (buf : Bytes) (c : Copying) → Idle file offset sent t t t buf c → Ready c
  Idle-Ready t buf c i = record {
    state = record {
      writable = i.state.writable;
      out = i.state.out ∙ ap (λ k. sent ++ take k (drop offset file)) (sym i.state.counted);
      at = omega (arith, i.state.at, i.state.counted);
      counted = refl;
      held = refl;
    };
    idle = i.idle;
  }

  -- After a round: the loop is at its end with everything sent, or goes on and has sent more.
  abbrev Went : ℕ → ℕ → Option ℕ → Copying → Type 0
  Went total goal none d = Ready d × (d.total_sent ≡ goal)
  Went total goal (some block) d =
      Ready d × (0 < block) × (total < d.total_sent) × (d.total_sent ≤ goal)

  -- The outcome of the loop.
  abbrev Copied : ℕ → Option (Result ℕ × Copying) → Type 0
  Copied goal none = ⊥
  Copied goal (some (err e, d)) = ⊥
  Copied goal (some (ok r, d)) = (r ≡ goal) × Ready d × (d.total_sent ≡ goal)

  next-Copied :
      (k : ℕ → Copying → Option (Result ℕ × Copying)) (total goal : ℕ)
      (x : Result (Option ℕ) × Copying)
      → Returns (Went total goal) x
      → ((block : ℕ) (d : Copying) → Went total goal (some block) d → Copied goal (k block d))
      → Copied goal (after_round k x)
  next-Copied k total goal (err e, d) h f = h
  next-Copied k total goal (ok none, d) h f = (h.1, h.0, h.1)
  next-Copied k total goal (ok (some block), d) h f = f block d h

  seek_back :
      (to : Bool) (c : Copying)
      → Ready c
      → Returns
          (λ _. Idle file offset sent c.total_sent c.total_sent c.total_sent c.buf)
          (seek to (offset + c.total_sent) c)
  unfolding seek
  seek_back false c i = i
  seek_back true c i = record {
    state = record {
      writable = i.state.writable;
      out = i.state.out;
      at = refl;
      counted = refl;
      held = refl;
    };
    idle = i.idle;
  }

  sent_done :
      (t : ℕ) (buf : Bytes) (d : Copying)
      → Idle file offset sent t t t buf d
      → d.stream.sent ≡ sent ++ take t (drop offset file)
  sent_done t buf d i =
      sym (append-nil d.stream.sent)
      ∙ ap (λ b. d.stream.sent ++ concat b) (sym i.idle)
      ∙ i.state.out

  begun :
      (buf : Bytes) (goal : ℕ) (k : Copying → Option (Result ℕ × Copying))
      (x : Result (Unit {0}) × Copying)
      → Returns (λ _. Idle file offset sent 0 0 0 buf) x
      → ((d : Copying) → Idle file offset sent 0 0 0 buf d → IsSent file offset sent goal (k d))
      → IsSent file offset sent goal (after_begin k x)
  begun buf goal k (err e, d) h f = h
  begun buf goal k (ok _, d) h f = f d h

  module _ (u : User) (pauses : (s : Stream) → u.maybe_pause_protocol s ≡ (ok tt, s)) where
    module _ (w : World) (friendly : IsFriendly file w) where
      abbrev go_on : ℕ → ℕ → Method Copying (Option ℕ)
      go_on block n =
          if n == 0 then pure none else do write_block u w file block n; pure (some block)

      read_step :
          (count total block : ℕ) (buf : Bytes) (r : Result ℕ) (d : Copying)
          → Idle file offset sent total total total buf d
          → 0 < block
          → (count == 0) ≡ true ⊎ (block ≤ count - total)
          → total ≤ target count (length file - offset)
          → Reads block (length file - d.pos) r
          → Returns (Went total (target count (length file - offset))) ((lift r >>= go_on block) d)
      read_step count total block buf (err e) d i b fits l h = absurd h
      read_step count total block buf (ok n) d i b fits l h =
          let goal = target count (length file - offset) in
          let left : length file - d.pos ≡ length file - (offset + total) =
            omega (arith, i.state.at) in
          elim (Bool-cases (n == 0)) [
            | inl over ↦ rw over (
              Idle-Ready total buf d i,
              i.state.counted
                  ∙ all_read n block (length file - offset) count total over b
                      (λ p q. h.2 p (omega (arith, left))) l,
            )
            | inr more ↦ rw more (
                Returns->> (λ e. Idle file offset sent (total + n) (total + n) (total + n) e.buf e)
                  (Went total goal) (write_block u w file block n) (pure (some block)) d
                  (write_block-Idle file offset sent u pauses w friendly block n total buf d h.0
                    (omega (arith, left)) i)
                  λ e ie.
                    let (past, within) =
                      more_read n block (length file - offset) count total more h.0
                        (omega (arith, left)) fits l in
                    (
                      Idle-Ready (total + n) e.buf e ie,
                      b,
                      omega (arith, ie.state.counted),
                      omega (arith, ie.state.counted),
                    ))
          ]

      round-Went :
          (count blocksize : ℕ) (c : Copying)
          → Ready c
          → 0 < blocksize
          → c.total_sent ≤ target count (length file - offset)
          → Returns
              (Went c.total_sent (target count (length file - offset)))
              (round u w file count blocksize c)
      unfolding round next_block
      round-Went count blocksize c i b l =
          let goal = target count (length file - offset) in
          let total = c.total_sent in
          let block = next_block count total blocksize in
          elim (Bool-cases (not (count == 0) && block == 0)) [
            | inl over ↦ rw over (i, ground arith)
            | inr more ↦ rw more (
                Returns->> (Idle file offset sent total total total c.buf) (Went total goal)
                  (on_transport none (w.before total))
                  (λ d. (lift (w.readinto d.pos block) >>= go_on block) d) c
                  (calm_step file offset sent total total total c.buf none (w.before total) c
                    (friendly.waits total) i)
                  λ d id.
                    read_step count total block c.buf (w.readinto d.pos block) d id
                      (block_pos count total blocksize b more) (block_fits count total blocksize) l
                      (friendly.reads d.pos block))
          ]

      copy_loop-Copied :
          (f count blocksize : ℕ) (c : Copying)
          → Ready c
          → 0 < blocksize
          → c.total_sent ≤ target count (length file - offset)
          → target count (length file - offset) < f + c.total_sent
          → Copied (target count (length file - offset)) (copy_loop u w file f count blocksize c)
      unfolding copy_loop
      copy_loop-Copied zero count blocksize c i b l g = absurd (omega arith)
      copy_loop-Copied (suc f) count blocksize c i b l g =
          next-Copied (copy_loop u w file f count) c.total_sent
            (target count (length file - offset)) (round u w file count blocksize c)
            (round-Went count blocksize c i b l)
            λ block d h. copy_loop-Copied f count block d h.0 h.1 h.3 (omega (arith, h.2))

      put_back-Idle :
          (has_seek : Bool) (c : Copying)
          → Ready c
          → Returns
              (λ _. Idle file offset sent c.total_sent c.total_sent c.total_sent c.buf)
              (put_back w has_seek offset c)
      unfolding put_back
      put_back-Idle has_seek c i =
          let t = c.total_sent in
          Returns->> (Idle file offset sent t t t c.buf) (λ _. Idle file offset sent t t t c.buf)
            (seek (ltb 0 t && has_seek) (offset + t)) (on_transport none w.restore) c
            (seek_back (ltb 0 t && has_seek) c i)
            λ d id. calm_step file offset sent t t t c.buf none w.restore d friendly.restores id

      ended-Sent :
          (has_seek : Bool) (goal : ℕ) (x : Option (Result ℕ × Copying))
          → Copied goal x
          → IsSent file offset sent goal (ended w has_seek offset x)
      unfolding ended
      ended-Sent has_seek goal none h = absurd h
      ended-Sent has_seek goal (some (err e, d)) h = absurd h
      ended-Sent has_seek goal (some (ok r, c)) h =
          Returns-finally (Done file offset sent goal) r (put_back w has_seek offset) c (
            Returns-mono (λ _. Idle file offset sent c.total_sent c.total_sent c.total_sent c.buf)
              (λ _. Done file offset sent goal r) (put_back w has_seek offset c)
              (put_back-Idle has_seek c h.1)
              λ _ d i. (
                h.0,
                sent_done c.total_sent c.buf d i ∙ ap (λ k. sent ++ take k (drop offset file)) h.2,
                i.idle,
                omega (arith, i.state.at, h.2),
              ))

      begin-Idle :
          (count : ℕ) (c : Copying)
          → IsWritable c.stream
          → c.stream.buffer ≡ []
          → c.stream.sent ≡ sent
          → Returns
              (λ _. Idle file offset sent 0 0 0 (replicate (first_block count) 0))
              (begin w true offset count c)
      unfolding begin seek
      begin-Idle count c writable idle e =
          let buf : Bytes = replicate (first_block count) 0 in
          calm_step file offset sent 0 0 0 buf none w.make
            (record c { pos = offset; buf = buf; total_sent = 0 }) friendly.makes
            (record {
              state = record {
                writable = writable;
                out = ap (λ b. c.stream.sent ++ concat b) idle ∙ ap (λ x. x ++ []) e;
                at = omega arith;
                counted = refl;
                held = refl;
              };
              idle = idle;
            })

-- `_sendfile_fallback` on a seekable file, where the kernel takes each block whole as it is written,
-- and the waits leave a transport with an empty buffer, as it is at the start, alone: with fuel over
-- the number of bytes to send it ends, however little each read gives; the bytes from `offset` are
-- sent, all of them when `count` is 0 and else at most `count`; their number is returned, and the
-- file's position is behind them.
pub sendfile_fallback-IsSent :
    (u : User) (w : World) (file : Bytes) (fuel offset count : ℕ) (c : Copying)
    → ((s : Stream) → u.maybe_pause_protocol s ≡ (ok tt, s))
    → IsFriendly file w
    → IsWritable c.stream
    → c.stream.buffer ≡ []
    → target count (length file - offset) < fuel
    → IsSent file offset c.stream.sent
        (target count (length file - offset))
        (sendfile_fallback u w file fuel true offset count c)
unfolding sendfile_fallback
sendfile_fallback-IsSent u w file fuel offset count c pauses friendly writable idle enough =
    let sent = c.stream.sent in
    let goal = target count (length file - offset) in
    let buf : Bytes = replicate (first_block count) 0 in
    begun file offset sent buf goal
      (λ d. ended w true offset (copy_loop u w file fuel count (first_block count) d))
      (begin w true offset count c)
      (begin-Idle file offset sent u pauses w friendly count c writable idle refl)
      λ d i.
        ended-Sent file offset sent u pauses w friendly true goal
          (copy_loop u w file fuel count (first_block count) d)
          (copy_loop-Copied file offset sent u pauses w friendly fuel count (first_block count) d
            (Idle-Ready file offset sent 0 buf d i) (first_block-pos count)
            (omega (arith, i.state.counted)) (omega (arith, i.state.counted, enough)))
