-- ===== src/Sock/Sendfile.antt =====
-- `_sock_sendfile_fallback`: a file is copied to a socket block by block.
use tokioop.Prelude.{
  ℕ, zero, suc, ◌+◌, ◌-◌, ◌≤◌, ◌<◌, ◌≡◌, refl, sym, ap, ◌∙◌, inl, inr, Bool, true, false, not, ◌&&◌,
  ◌||◌, Option, none, some, ◌++◌, append-nil, append_assoc, arith, min, ltb, ◌==◌, if◌then◌else◌,
  length, take, drop, take-take-drop, drop-drop, Bool-cases,
}
use tokioop.Python.{Bytes, Exc, Result, ok, err}

-- The position in the file, and the blocks whose sends completed.
pub record Copy : Type 0 where
  pub pos : ℕ
  pub sent : Bytes

Copy-eq : (c : Copy) (p : ℕ) (b : Bytes) → c.pos ≡ p → c.sent ≡ b → c ≡ record { pos = p; sent = b }
Copy-eq c p b e h = λ i. record { pos = e i; sent = h i }

-- A read at a position with a size either raises its `read_error` or says how many bytes it gives, 0 at
-- the end of the file; `send` is the outcome of the `sock_sendall` that is made when so many bytes have
-- been sent.
module _ (file : Bytes) (readinto : ℕ → ℕ → ℕ) (read_error : ℕ → ℕ → Option Exc)
    (send : ℕ → Result (Unit {0})) where
  -- `if count: blocksize = min(count - total_sent, blocksize)`; 0 stands for no count.
  abbrev pub next_block : ℕ → ℕ → ℕ → ℕ
  next_block count total blocksize = if count == 0 then blocksize else min (count - total) blocksize

  unfoldable pub used_up : ℕ → ℕ → Bool
  used_up count block = not (count == 0) && block == 0

  -- Both `break`s of the loop: the count is used up, or the file is at its end.
  unfoldable pub at_end : ℕ → ℕ → ℕ → Bool
  at_end count block read = used_up count block || read == 0

  -- What the read of a block raises, where there is one.
  unfoldable pub read_raises : ℕ → ℕ → ℕ → Option Exc
  read_raises count block pos = if used_up count block then none else read_error pos block

  unfoldable pub advance : ℕ → Copy → Copy
  advance read c = record { pos = c.pos + read; sent = c.sent ++ take read (drop c.pos file) }

  -- The loop on fuel, with the number of bytes sent: `none` means that the fuel ran out.
  unfoldable pub copy_loop : ℕ → ℕ → ℕ → ℕ → Copy → Option (Result ℕ × ℕ × Copy)
  copy_loop zero count total blocksize c = none
  copy_loop (suc f) count total blocksize c =
      let block = next_block count total blocksize in
      let read = readinto c.pos block in
      elim (read_raises count block c.pos) [
        | some e ↦ some (err e, total, c)
        | none ↦ elim (at_end count block read) [
          | true ↦ some (ok total, total, c)
          | false ↦ elim (send total) [
            | ok _ ↦ copy_loop f count (total + read) block (advance read c)
            | err e ↦ some (err e, total, record c { pos = c.pos + read })
          ]
        ]
      ]

  -- The `finally` block: the file is left behind what was sent.
  unfoldable pub seek_end : Bool → ℕ → ℕ → Copy → Copy
  seek_end has_seek offset total c =
      if ltb 0 total && has_seek then record c { pos = offset + total } else c

  abbrev pub first_block : ℕ → ℕ → ℕ
  first_block bufsize count = if count == 0 then bufsize else min count bufsize

  -- `bufsize` is `SENDFILE_FALLBACK_READBUFFER_SIZE`.
  unfoldable pub sendfile_fallback : ℕ → Bool → ℕ → ℕ → ℕ → Copy → Option (Result ℕ × Copy)
  sendfile_fallback fuel has_seek bufsize offset count c =
      let start = if has_seek then record c { pos = offset } else c in
      elim (copy_loop fuel count 0 (first_block bufsize count) start) [
        | none ↦ none
        | some (r, total, c') ↦ some (r, seek_end has_seek offset total c')
      ]

  -- How much there is to send.
  abbrev pub target : ℕ → ℕ → ℕ
  target count available = if count == 0 then available else min count available

  -- A file that can be read, and gives what it has, at most as much as it is asked for.
  pub record IsFile : Type 0 where
    pub readable : (pos size : ℕ) → read_error pos size ≡ none
    pub bounded : (pos size : ℕ) → readinto pos size ≤ size
    pub present : (pos size : ℕ) → readinto pos size ≤ length file - pos
    pub gives : (pos size : ℕ) → 0 < size → pos < length file → 0 < readinto pos size

  -- The state when `t` bytes are sent, from the state when `total` were.
  abbrev after : ℕ → ℕ → ℕ → Copy → Copy
  after offset total t c = record {
    pos = offset + t;
    sent = c.sent ++ take (t - total) (drop c.pos file);
  }

  after_all :
      (offset total t : ℕ) (c : Copy)
      → c.pos ≡ offset + total
      → total ≡ t
      → c ≡ after offset total t c
  after_all offset total t c p e =
      let none_left : t - total ≡ 0 = omega arith in
      Copy-eq c (offset + t) (c.sent ++ take (t - total) (drop c.pos file)) (omega arith)
        (rw none_left (sym (append-nil c.sent)))

  advance-pos :
      (offset total read : ℕ) (c : Copy)
      → c.pos ≡ offset + total
      → (advance read c).pos ≡ offset + (total + read)
  unfolding advance
  advance-pos offset total read c p = omega arith

  after-advance :
      (offset total read t : ℕ) (c : Copy)
      → total + read ≤ t
      → after offset (total + read) t (advance read c) ≡ after offset total t c
  unfolding advance
  after-advance offset total read t c h =
      Copy-eq (after offset (total + read) t (advance read c)) (offset + t)
        (c.sent ++ take (t - total) (drop c.pos file)) refl
        (append_assoc c.sent (take read (drop c.pos file)) _
          ∙ ap (λ x. c.sent ++ x)
              (ap (λ x. take read (drop c.pos file) ++ take (t - (total + read)) x)
                  (sym (drop-drop c.pos read (c.pos + read) file refl))
                ∙ take-take-drop read (t - (total + read)) (t - total) (drop c.pos file)
                    (omega arith)))

  module _ (f count total blocksize : ℕ) (c : Copy) where
    abbrev block : ℕ
    block = next_block count total blocksize

    abbrev read : ℕ
    read = readinto c.pos block

    -- One round of the loop, by the read, the test for the end and the outcome of the send.
    abbrev round : Option Exc → Bool → Result (Unit {0}) → Option (Result ℕ × ℕ × Copy)
    round (some e) over sent = some (err e, total, c)
    round none over sent = elim over [
      | true ↦ some (ok total, total, c)
      | false ↦ elim sent [
        | ok _ ↦ copy_loop f count (total + read) block (advance read c)
        | err e ↦ some (err e, total, record c { pos = c.pos + read })
      ]
    ]

    round_lem :
        copy_loop (suc f) count total blocksize c
        ≡ round (read_raises count block c.pos) (at_end count block read) (send total)
    unfolding copy_loop
    round_lem =
        elim (read_raises count block c.pos)
          as (λ x.
            elim x [
              | some e ↦ some (err e, total, c)
              | none ↦ elim (at_end count block read) [
                | true ↦ some (ok total, total, c)
                | false ↦ elim (send total) [
                  | ok _ ↦ copy_loop f count (total + read) block (advance read c)
                  | err e ↦ some (err e, total, record c { pos = c.pos + read })
                ]
              ]
            ]
            ≡ round x (at_end count block read) (send total)) [ some e ↦ refl | none ↦ refl ]

    reads : IsFile → read_raises count block c.pos ≡ none
    unfolding read_raises
    reads is_file = elim (Bool-cases (used_up count block)) [
      | inl h ↦ rw h refl
      | inr h ↦ rw h (is_file.readable c.pos block)
    ]

    copy_loop_stop :
        IsFile
        → at_end count block read ≡ true
        → copy_loop (suc f) count total blocksize c ≡ some (ok total, total, c)
    copy_loop_stop is_file h =
        round_lem
        ∙ ap (λ x. round x (at_end count block read) (send total)) (reads is_file)
        ∙ ap (λ b. round none b (send total)) h

    copy_loop_next :
        IsFile
        → at_end count block read ≡ false
        → send total ≡ ok tt
        → copy_loop (suc f) count total blocksize c
          ≡ copy_loop f count (total + read) block (advance read c)
    copy_loop_next is_file h k =
        round_lem
        ∙ ap (λ x. round x (at_end count block read) (send total)) (reads is_file)
        ∙ ap (λ b. round none b (send total)) h
        ∙ ap (λ x. round none false x) k

  finished :
      (total t : ℕ) {c d : Copy}
      → c ≡ d
      → total ≡ t
      → ◌≡◌ {A = Option (Result ℕ × ℕ × Copy)} (some (ok total, total, c)) (some (ok t, t, d))
  finished total t e h = λ i. some (ok (h i), h i, e i)

  seek_end-stays :
      (has_seek : Bool) (offset total : ℕ) (c : Copy)
      → c.pos ≡ offset + total
      → seek_end has_seek offset total c ≡ c
  unfolding seek_end
  seek_end-stays has_seek offset total c p = elim (Bool-cases (ltb 0 total && has_seek)) [
    | inl h ↦ rw (h, sym p) refl
    | inr h ↦ rw h
  ]

  module _ (is_file : IsFile) (offset : ℕ) (c : Copy) (count total blocksize : ℕ) where
    at_end-total :
        c.pos ≡ offset + total
        → 0 < blocksize
        → total ≤ target count (length file - offset)
        → at_end count
            (next_block count total blocksize)
            (readinto c.pos (next_block count total blocksize))
          ≡ true
        → total ≡ target count (length file - offset)
    unfolding at_end used_up
    at_end-total p b l e =
        let n = next_block count total blocksize in let g = is_file.gives c.pos n in ground arith

    at_end-bound :
        c.pos ≡ offset + total
        → 0 < blocksize
        → total ≤ target count (length file - offset)
        → at_end count
            (next_block count total blocksize)
            (readinto c.pos (next_block count total blocksize))
          ≡ false
        → (0 < next_block count total blocksize)
          × (0 < readinto c.pos (next_block count total blocksize))
          × (total + readinto c.pos (next_block count total blocksize)
              ≤ target count (length file - offset))
    unfolding at_end used_up
    at_end-bound p b l e =
        let n = next_block count total blocksize in
        let g = is_file.bounded c.pos n in let h = is_file.present c.pos n in ground arith

  module _ (is_file : IsFile) (sends : (n : ℕ) → send n ≡ ok tt) where
    copy_loop_lem :
        (f count total blocksize offset : ℕ) (c : Copy)
        → 0 < blocksize
        → c.pos ≡ offset + total
        → total ≤ target count (length file - offset)
        → target count (length file - offset) < f + total
        → let t = target count (length file - offset) in
          copy_loop f count total blocksize c ≡ some (ok t, t, after offset total t c)
    copy_loop_lem zero count total blocksize offset c b p l h = absurd (omega arith)
    copy_loop_lem (suc f) count total blocksize offset c b p l h =
        let n = next_block count total blocksize in
        let r = readinto c.pos n in
        let t = target count (length file - offset) in
        elim (Bool-cases (at_end count n r)) [
          | inl over ↦
              let e = at_end-total is_file offset c count total blocksize p b l over in
              copy_loop_stop f count total blocksize c is_file over
              ∙ finished total t (after_all offset total t c p e) e
          | inr more ↦
              let (n_pos, r_pos, fits) =
                at_end-bound is_file offset c count total blocksize p b l more in
              copy_loop_next f count total blocksize c is_file more (sends total)
              ∙ copy_loop_lem f count (total + r) n offset (advance r c) n_pos
                  (advance-pos offset total r c p) fits (omega arith)
              ∙ ap (λ x. some (ok t, t, x)) (after-advance offset total r t c fits)
        ]

    -- The fallback, on a seekable file that can be read and gives what it has, and a socket that takes
    -- every block, with a buffer size over 0 and fuel over the number of bytes to send: it ends, sends
    -- the bytes of the file from `offset`, all of them when `count` is 0 and else at most
    -- `count`, returns their number, and leaves the file's position behind them.
    pub sendfile_fallback-Sends :
        (fuel bufsize offset count : ℕ) (c : Copy)
        → 0 < bufsize
        → target count (length file - offset) < fuel
        → let t = target count (length file - offset) in
          sendfile_fallback fuel true bufsize offset count c
          ≡ some (ok t, record { pos = offset + t; sent = c.sent ++ take t (drop offset file) })
    unfolding sendfile_fallback seek_end
    sendfile_fallback-Sends fuel bufsize offset count c b h =
        let t = target count (length file - offset) in
        let all_left : t - 0 ≡ t = omega arith in
        ap
          (λ x. elim x [
            | none ↦ none
            | some (r, total, d) ↦ some (r, seek_end true offset total d)
          ])
          (copy_loop_lem fuel count 0 (first_block bufsize count) offset (record c { pos = offset })
            (ground arith) (omega arith) (omega arith) (omega arith))
        ∙ ap (λ x. some (ok t, x))
            (seek_end-stays true offset t (after offset 0 t (record c { pos = offset })) refl
              ∙ ap (λ n. record { pos = offset + t; sent = c.sent ++ take n (drop offset file) })
                  all_left)
