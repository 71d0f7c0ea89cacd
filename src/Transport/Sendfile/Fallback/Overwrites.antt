-- ===== src/Transport/Sendfile/Fallback/Overwrites.antt =====
-- The copy of a file through a transport to a peer that does not read: the blocks that wait in the
-- transport's buffer all show the one `bytearray`, and so the block that was read last.
use tokioop.Prelude.{
  ℕ, zero, suc, ◌+◌, ◌-◌, ◌*◌, ◌≤◌, ◌<◌, ◌≡◌, refl, ap, ◌∙◌, Bool, true, false, ◌&&◌, Option, none,
  some, [], arith, ltb, ◌==◌, if◌then◌else◌, length, take, drop, replicate, length-drop,
}
use native.Mathlib.Nat.{mul-suc}
use tokioop.Python.{
  Bytes, Exc, would_block, Result, ok, err, Method, modify, pure, lift, ◌>>=◌, ◌>>◌,
}
use tokioop.Python.Returns.{Returns, Returns-mono, Returns->>, Returns-finally}
use tokioop.Transport.Stream.{Stream, User}
use tokioop.Transport.Write.{bytes_like, write}
use tokioop.Transport.Write.Accounting.{IsWritable}
use tokioop.Transport.Sendfile.Fallback.Views.{
  IsStill, Waiting, still_step, land-Waiting, queue_step, seek-Waiting, length-zeros,
}
use tokioop.Transport.Sendfile.Fallback.{
  Copying, World, on_transport, land, block_limit, next_block, first_block, seek, write_block,
  round, after_round, copy_loop, after_begin, put_back, ended, begin, sendfile_fallback,
}
use tokioop.Transport.Sendfile.Fallback.Steps.{take-take}

-- The peer does not read, and `drain` does not wait.
pub record IsBlocked (w : World) : Type 0 where
  pub makes : IsStill w.make
  pub waits : (t : ℕ) → IsStill (w.before t)
  pub goes_on : (t : ℕ) → IsStill (w.after t)
  pub takes_none : (t n : ℕ) → (e : Exc) × (w.kernel t n ≡ err e) × (would_block e ≡ true)
  pub drains : (t : ℕ) → IsStill (w.drain t)
  pub restores : IsStill w.restore

-- The file gives `r` blocks of `n` bytes from `pos` on, and then nothing.
abbrev pub Gives : World → ℕ → ℕ → ℕ → Type 0
Gives w n zero pos = w.readinto pos block_limit ≡ ok 0
Gives w n (suc r) pos = (w.readinto pos block_limit ≡ ok n) × Gives w n r (pos + n)

-- The block that was read last, after `block`.
abbrev last : Bytes → ℕ → ℕ → Bytes → ℕ → Bytes
last file n zero block pos = block
last file n (suc r) block pos = last file n r (take n (drop pos file)) (pos + n)

last_lem :
    (file : Bytes) (n r : ℕ) (x : Bytes) (p : ℕ)
    → last file n (suc r) x p ≡ take n (drop (p + n * r) file)
last_lem file n zero x p =
    ap (λ k. take n (drop k file)) (let e : n * 0 ≡ 0 = omega arith in omega (arith, e))
last_lem file n (suc r) x p =
    last_lem file n r (take n (drop p file)) (p + n)
    ∙ ap (λ k. take n (drop k file)) (omega (arith, mul-suc n r))

-- The copy returned `goal`, nothing was sent, and `k` times `block` waits.
abbrev pub Overwritten : ℕ → ℕ → Bytes → Bytes → Option (Result ℕ × Copying) → Type 0
Overwritten goal k block sent none = ⊥
Overwritten goal k block sent (some y) =
    Returns (λ v d. (v ≡ goal) × (d.stream.sent ≡ sent) × (d.stream.buffer ≡ replicate k block)) y

module _ (file : Bytes) (n : ℕ) (sent : Bytes) where
  module _ (u : User) (pauses : (s : Stream) → u.maybe_pause_protocol s ≡ (ok tt, s)) where
    module _ (w : World) (blocked : IsBlocked w) (some_block : 0 < n) (fits : n ≤ block_limit) where
      write_block-Waiting :
          (j : ℕ) (x : Bytes) (p t : ℕ) (c : Copying)
          → Waiting file n sent j x p t c
          → n ≤ length (drop p file)
          → Returns
              (λ _. Waiting file n sent (suc j) (take n (drop p file)) (p + n) (t + n))
              (write_block u w file block_limit n c)
      unfolding write_block land
      write_block-Waiting j x p t c a l =
          let y = take n (drop p file) in
          let total = c.total_sent in
          let done : Copying → Type 0 = Waiting file n sent (suc j) y (p + n) (t + n) in
          let count : Method Copying (Unit {0}) =
            modify λ c. record c { total_sent = c.total_sent + n } in
          let rest = on_transport none (w.drain total) >> count in
          let send : Bytes → Method Copying (Unit {0}) = λ b.
            on_transport (some n)
              (write u (bytes_like (take n (take block_limit b))) (w.kernel total n)) in
          let (e, refused, blocks) = blocked.takes_none total n in
          Returns->> (Waiting file n sent j y (p + n) t) (λ _. done)
            (on_transport none (w.after total)) (λ d. (send d.buf >> rest) d) (land file n c)
            (still_step file n sent j y (p + n) t (w.after total) (land file n c)
              (blocked.goes_on total) (land-Waiting file n sent j x p t c a l))
            λ d wd.
              Returns->> (Waiting file n sent (suc j) y (p + n) t) (λ _. done) (send d.buf) rest d
                (rw refused (
                  queue_step file n sent j y (p + n) t u e (take n (take block_limit d.buf)) d
                    pauses (take-take n block_limit d.buf fits ∙ wd.shown) wd blocks some_block))
                λ f wf.
                  Returns->> (Waiting file n sent (suc j) y (p + n) t) (λ _. done)
                    (on_transport none (w.drain total)) count f
                    (still_step file n sent (suc j) y (p + n) t (w.drain total) f
                      (blocked.drains total) wf)
                    λ g wg. record {
                      writable = wg.writable;
                      nothing_sent = wg.nothing_sent;
                      chunks = wg.chunks;
                      long = wg.long;
                      shown = wg.shown;
                      views = wg.views;
                      at = wg.at;
                      counted = omega (arith, wg.counted);
                    }

      -- What a round gives out: to go on with one more chunk, or the end.
      abbrev Round : ℕ → ℕ → Bytes → ℕ → ℕ → Option ℕ → Copying → Type 0
      Round zero j x p t none d = Waiting file n sent j x p t d
      Round (suc r) j x p t (some block) d =
          (block ≡ block_limit)
          × Waiting file n sent (suc j) (take n (drop p file)) (p + n) (t + n) d
      Round _ j x p t _ d = ⊥

      abbrev go_on : ℕ → Method Copying (Option ℕ)
      go_on m =
          if m == 0
          then pure none
          else do write_block u w file block_limit m; pure (some block_limit)

      read-Round :
          (r j : ℕ) (x : Bytes) (p t : ℕ) (c : Copying)
          → Waiting file n sent j x p t c
          → Gives w n r p
          → n * r ≤ length file - p
          → Returns (Round r j x p t) ((lift (w.readinto p block_limit) >>= go_on) c)
      read-Round zero j x p t c a g l = rw g a
      read-Round (suc r) j x p t c a g l =
          let y = take n (drop p file) in
          let there : (n == 0) ≡ false = ground arith in
          rw g.0 (
            rw there (
              Returns->> (Waiting file n sent (suc j) y (p + n) (t + n)) (Round (suc r) j x p t)
                (write_block u w file block_limit n) (pure (some block_limit)) c
                (write_block-Waiting j x p t c a (omega (arith, mul-suc n r, length-drop p file)))
                λ d wd. (refl, wd)))

      round-Round :
          (r j : ℕ) (x : Bytes) (p t : ℕ) (c : Copying)
          → Waiting file n sent j x p t c
          → Gives w n r p
          → n * r ≤ length file - p
          → Returns (Round r j x p t) (round u w file 0 block_limit c)
      unfolding round next_block
      round-Round r j x p t c a g l =
          Returns->> (Waiting file n sent j x p t) (Round r j x p t)
            (on_transport none (w.before c.total_sent))
            (λ d. (lift (w.readinto d.pos block_limit) >>= go_on) d) c
            (still_step file n sent j x p t (w.before c.total_sent) c (blocked.waits c.total_sent)
              a)
            λ d wd. rw wd.at (read-Round r j x p t d wd g l)

      abbrev Over : ℕ → Bytes → ℕ → Option (Result ℕ × Copying) → Type 0
      Over j x t none = ⊥
      Over j x t (some y) = Returns (λ v d. (v ≡ t) × (p : ℕ) × Waiting file n sent j x p t d) y

      last_round :
          (j : ℕ) (x : Bytes) (p t : ℕ) (go : ℕ → Copying → Option (Result ℕ × Copying))
          (y : Result (Option ℕ) × Copying)
          → Returns (Round zero j x p t) y
          → Over j x t (after_round go y)
      last_round j x p t go (ok none, d) h = (h.counted, p, h)
      last_round j x p t go (ok (some block), d) h = absurd h
      last_round j x p t go (err e, d) h = h

      next_round :
          (r j : ℕ) (x : Bytes) (p t k goal : ℕ) (z : Bytes)
          (go : ℕ → Copying → Option (Result ℕ × Copying)) (y : Result (Option ℕ) × Copying)
          → Returns (Round (suc r) j x p t) y
          → ((d : Copying)
              → Waiting file n sent (suc j) (take n (drop p file)) (p + n) (t + n) d
              → Over k z goal (go block_limit d))
          → Over k z goal (after_round go y)
      next_round r j x p t k goal z go (ok none, d) h f = absurd h
      next_round r j x p t k goal z go (ok (some block), d) h f = rw h.0 (f d h.1)
      next_round r j x p t k goal z go (err e, d) h f = absurd h

      copy_loop-Over :
          (r f j : ℕ) (x : Bytes) (p t k goal : ℕ) (c : Copying)
          → Waiting file n sent j x p t c
          → Gives w n r p
          → n * r ≤ length file - p
          → r < f
          → k ≡ j + r
          → goal ≡ t + n * r
          → Over k (last file n r x p) goal (copy_loop u w file f 0 block_limit c)
      unfolding copy_loop
      copy_loop-Over r zero j x p t k goal c a g l h e o = absurd (omega arith)
      copy_loop-Over zero (suc f) j x p t k goal c a g l h e o =
          let same : goal ≡ t = omega (arith, o) in
          let all : k ≡ j = omega (arith, e) in
          rw same (
            rw all (
              last_round j x p t (λ block d. copy_loop u w file f 0 block d)
                (round u w file 0 block_limit c) (round-Round zero j x p t c a g l)))
      copy_loop-Over (suc r) (suc f) j x p t k goal c a g l h e o =
          next_round r j x p t k goal (last file n (suc r) x p)
            (λ block d. copy_loop u w file f 0 block d) (round u w file 0 block_limit c)
            (round-Round (suc r) j x p t c a g l)
            λ d wd.
              copy_loop-Over r f (suc j) (take n (drop p file)) (p + n) (t + n) k goal d wd g.1
                (omega (arith, mul-suc n r, l)) (omega arith) (omega (arith, e))
                (omega (arith, o, mul-suc n r))

      put_back-Waiting :
          (j : ℕ) (x : Bytes) (t p offset : ℕ) (has_seek : Bool) (c : Copying)
          → Waiting file n sent j x p t c
          → Returns (λ _ d. (q : ℕ) × Waiting file n sent j x q t d) (put_back w has_seek offset c)
      unfolding put_back
      put_back-Waiting j x t p offset has_seek c a =
          let total = c.total_sent in
          Returns->> (λ d. (q : ℕ) × Waiting file n sent j x q t d)
            (λ _ d. (q : ℕ) × Waiting file n sent j x q t d)
            (seek (ltb 0 total && has_seek) (offset + total)) (on_transport none w.restore) c
            (seek-Waiting file n sent j x p t (ltb 0 total && has_seek) (offset + total) c a)
            λ d (q, wd).
              Returns-mono (λ _. Waiting file n sent j x q t)
                (λ _ d. (q : ℕ) × Waiting file n sent j x q t d) (on_transport none w.restore d)
                (still_step file n sent j x q t w.restore d blocked.restores wd) λ _ e we. (q, we)

      ended-Overwritten :
          (j : ℕ) (x : Bytes) (t offset : ℕ) (has_seek : Bool) (y : Option (Result ℕ × Copying))
          → Over j x t y
          → Overwritten t j x sent (ended w has_seek offset y)
      unfolding ended
      ended-Overwritten j x t offset has_seek none h = absurd h
      ended-Overwritten j x t offset has_seek (some (err e, c)) h = absurd h
      ended-Overwritten j x t offset has_seek (some (ok v, c)) h =
          let now : ℕ → Copying → Type 0 =
            λ v d. (v ≡ t) × (d.stream.sent ≡ sent) × (d.stream.buffer ≡ replicate j x) in
          Returns-finally now v (put_back w has_seek offset) c (
            Returns-mono (λ _ d. (q : ℕ) × Waiting file n sent j x q t d) (λ _. now v)
              (put_back w has_seek offset c) (put_back-Waiting j x t h.1 offset has_seek c h.2)
              λ _ d r. (h.0, r.1.nothing_sent, r.1.chunks))

      begun :
          (x : Bytes) (p j t : ℕ) (z : Bytes) (k : Copying → Option (Result ℕ × Copying))
          (y : Result (Unit {0}) × Copying)
          → Returns (λ _. Waiting file n sent 0 x p 0) y
          → ((d : Copying) → Waiting file n sent 0 x p 0 d → Overwritten t j z sent (k d))
          → Overwritten t j z sent (after_begin k y)
      begun x p j t z k (err e, d) h f = h
      begun x p j t z k (ok _, d) h f = f d h

      begin-Waiting :
          (offset : ℕ) (c : Copying)
          → IsWritable c.stream
          → c.stream.buffer ≡ []
          → c.stream.sent ≡ sent
          → c.views ≡ []
          → Returns
              (λ _. Waiting file n sent 0 (take n (replicate block_limit 0)) offset 0)
              (begin w true offset 0 c)
      unfolding begin seek first_block
      begin-Waiting offset c writable idle nothing no_views =
          let zeros : Bytes = replicate block_limit 0 in
          still_step file n sent 0 (take n zeros) offset 0 w.make
            (record c { pos = offset; buf = zeros; total_sent = 0 }) blocked.makes
            (record {
              writable = writable;
              nothing_sent = nothing;
              chunks = idle;
              long = length-zeros n block_limit fits;
              shown = refl;
              views = no_views;
              at = refl;
              counted = refl;
            })

-- `_sendfile_fallback` of a whole seekable file, from `offset` on, over a transport with an empty
-- buffer whose peer does not read, while `drain` does not wait: the reads give `q + 1` blocks of `n`
-- bytes and then nothing. It returns the number of those bytes as sent; but nothing was sent, and
-- what waits in the transport's buffer is `q + 1` times the last block of the file, instead of the
-- blocks of the file.
pub sendfile_fallback_overwrites :
    (u : User) (w : World) (file : Bytes) (fuel offset n q : ℕ) (c : Copying)
    → ((s : Stream) → u.maybe_pause_protocol s ≡ (ok tt, s))
    → IsBlocked w
    → 0 < n
    → n ≤ block_limit
    → Gives w n (suc q) offset
    → n * suc q ≤ length file - offset
    → IsWritable c.stream
    → c.stream.buffer ≡ []
    → c.views ≡ []
    → suc q < fuel
    → Overwritten
        (n * suc q)
        (suc q)
        (take n (drop (offset + n * q) file))
        c.stream.sent
        (sendfile_fallback u w file fuel true offset 0 c)
unfolding sendfile_fallback first_block
sendfile_fallback_overwrites u w file fuel offset n q c pauses blocked pos fits gives there writable
      idle no_views enough =
    let sent = c.stream.sent in
    let zeros : Bytes = take n (replicate block_limit 0) in
    let goal = n * suc q in
    rw (← last_lem file n q zeros offset) (
      begun file n sent u pauses w blocked pos fits zeros offset (suc q) goal
        (last file n (suc q) zeros offset)
        (λ d. ended w true offset (copy_loop u w file fuel 0 block_limit d))
        (begin w true offset 0 c)
        (begin-Waiting file n sent u pauses w blocked pos fits offset c writable idle refl no_views)
        λ d wd.
          ended-Overwritten file n sent u pauses w blocked pos fits (suc q)
            (last file n (suc q) zeros offset) goal offset true
            (copy_loop u w file fuel 0 block_limit d)
            (copy_loop-Over file n sent u pauses w blocked pos fits (suc q) fuel 0 zeros offset 0
              (suc q) goal d wd gives there enough (omega arith) (omega arith)))
