-- ===== src/Transport/Sendfile/Fallback/Views.antt =====
-- The steps of `_sendfile_fallback` over a transport whose buffer fills: the chunks that wait are views
-- of the one `bytearray`, and change when a block is read.
use tokioop.Prelude.{
  ℕ, zero, suc, ◌+◌, ◌-◌, ◌≤◌, ◌<◌, ◌≡◌, refl, ap, ◌∙◌, Bool, true, false, Option, none, some, List,
  [], ◌∷◌, ◌++◌, arith, length, take, drop, replicate, is_empty, take-append_le, length-append,
  length-take,
}
use tokioop.Python.{Bytes, Exc, would_block, Result, ok, err, Method}
use tokioop.Python.Returns.{Returns}
use tokioop.Transport.Stream.{Stream, User}
use tokioop.Transport.Write.{bytes_like, write}
use tokioop.Transport.Write.Accounting.{IsWritable}
use tokioop.Transport.Write.Wrote.{Queued, write-Queued}
use tokioop.Transport.Sendfile.Fallback.{Copying, retag, put_on, on_transport, refresh, land, seek}
use tokioop.Transport.Sendfile.Fallback.Steps.{take-take}

-- The transport can still be written to; its buffer and what was sent are the same.
pub record Still (s t : Stream) : Type 0 where
  pub writable : IsWritable t
  pub same_buffer : t.buffer ≡ s.buffer
  pub same_sent : t.sent ≡ s.sent

abbrev pub IsStill : Method Stream (Unit {0}) → Type 0
IsStill m = (s : Stream) → IsWritable s → Returns (λ _. Still s) (m s)

take_front :
    (n : ℕ) (there old : Bytes) → n ≤ length there → take n (take n there ++ old) ≡ take n there
take_front n there old l =
    take-append_le n (take n there) old (omega (arith, length-take n there))
    ∙ take-take n n there (omega arith)

pub length-zeros : (n m : ℕ) → n ≤ m → length {A = ℕ} (take n (replicate m 0)) ≡ n
length-zeros zero m h = refl
length-zeros (suc n) zero h = absurd (omega arith)
length-zeros (suc n) (suc m) h = ap suc (length-zeros n m (omega arith))

some_bytes : (x : Bytes) → 0 < length x → is_empty x ≡ false
some_bytes [] h = absurd (omega arith)
some_bytes (b ∷ x) h = refl

replicate-snoc : (j : ℕ) (x : Bytes) → replicate j x ++ x ∷ [] ≡ replicate (suc j) x
replicate-snoc zero x = refl
replicate-snoc (suc j) x = ap (λ l. x ∷ l) (replicate-snoc j x)

views-snoc : (j : ℕ) (v : Option ℕ) → replicate j v ++ v ∷ [] ≡ replicate (suc j) v
views-snoc zero v = refl
views-snoc (suc j) v = ap (λ l. v ∷ l) (views-snoc j v)

refresh-all :
    (buf : Bytes) (n j : ℕ) (x : Bytes)
    → length x ≡ n
    → refresh buf (replicate j x) (replicate j (some n)) ≡ replicate j (take n buf)
unfolding refresh
refresh-all buf n zero x e = refl
refresh-all buf n (suc j) x e =
    let whole : n - n ≡ 0 = omega arith in rw (e, refresh-all buf n j x e, whole) refl

retag_same : (m : ℕ) (mark : Option ℕ) (v : List (Option ℕ)) → retag m m mark v ≡ v
unfolding retag
retag_same m mark v = ground arith

retag_one :
    (m k : ℕ) (mark : Option ℕ) (v : List (Option ℕ))
    → k ≡ suc m
    → retag m k mark v ≡ v ++ mark ∷ []
unfolding retag
retag_one m k mark v e = let one : k - m ≡ 1 = omega arith in ground (arith, one)

module _ (file : Bytes) (n : ℕ) (sent : Bytes) where
  -- `j` chunks wait, each of them a view of all `n` bytes that were read last; they read `x`.
  pub record Waiting (j : ℕ) (x : Bytes) (p t : ℕ) (c : Copying) : Type 0 where
    pub writable : IsWritable c.stream
    pub nothing_sent : c.stream.sent ≡ sent
    pub chunks : c.stream.buffer ≡ replicate j x
    pub long : length x ≡ n
    pub shown : take n c.buf ≡ x
    pub views : c.views ≡ replicate j (some n)
    pub at : c.pos ≡ p
    pub counted : c.total_sent ≡ t

  module _ (j : ℕ) (x : Bytes) (p t : ℕ) where
    Still-Waiting :
        (mark : Option ℕ) (c : Copying) (r : Result (Unit {0}) × Stream)
        → Waiting j x p t c
        → Returns (λ _. Still c.stream) r
        → Returns (λ _. Waiting j x p t) (put_on mark c r)
    Still-Waiting mark c (ok _, s) a d = record {
      writable = d.writable;
      nothing_sent = d.same_sent ∙ a.nothing_sent;
      chunks = d.same_buffer ∙ a.chunks;
      long = a.long;
      shown = a.shown;
      views =
          ap (λ b. retag (length c.stream.buffer) (length b) mark c.views) d.same_buffer
          ∙ retag_same (length c.stream.buffer) mark c.views
          ∙ a.views;
      at = a.at;
      counted = a.counted;
    }
    Still-Waiting mark c (err e, s) a d = d

    pub still_step :
        (m : Method Stream (Unit {0})) (c : Copying)
        → IsStill m
        → Waiting j x p t c
        → Returns (λ _. Waiting j x p t) (on_transport none m c)
    unfolding on_transport
    still_step m c still a = Still-Waiting none c (m c.stream) a (still c.stream a.writable)

    -- A block is read, and all that waits shows it.
    pub land-Waiting :
        (c : Copying)
        → Waiting j x p t c
        → n ≤ length (drop p file)
        → Waiting j (take n (drop p file)) (p + n) t (land file n c)
    unfolding land refresh
    land-Waiting c a l =
        let there = take n (drop c.pos file) ++ drop n c.buf in
        let moved : take n (drop c.pos file) ≡ take n (drop p file) =
          ap (λ k. take n (drop k file)) a.at in
        let shows : take n there ≡ take n (drop p file) =
          ap (λ b. take n (b ++ drop n c.buf)) moved
          ∙ take_front n (drop p file) (drop n c.buf) l in
        record {
          writable = record {
            has_sock = a.writable.has_sock;
            has_loop = a.writable.has_loop;
            loop_open = a.writable.loop_open;
            connected = a.writable.connected;
            no_eof = a.writable.no_eof;
            no_waiter = a.writable.no_waiter;
          };
          nothing_sent = a.nothing_sent;
          chunks =
              ap (λ b. refresh there b c.views) a.chunks
              ∙ ap (refresh there (replicate j x)) a.views
              ∙ refresh-all there n j x a.long
              ∙ ap (replicate j) shows;
          long = omega (arith, length-take n (drop p file));
          shown = shows;
          views = a.views;
          at = omega (arith, a.at);
          counted = a.counted;
        }

    Queued-Waiting :
        (c : Copying) (r : Result (Unit {0}) × Stream)
        → Waiting j x p t c
        → Queued x c.stream r
        → Returns (λ _. Waiting (suc j) x p t) (put_on (some n) c r)
    Queued-Waiting c (ok _, s) a d = record {
      writable = d.0;
      nothing_sent = d.1 ∙ a.nothing_sent;
      chunks = d.2 ∙ ap (λ b. b ++ x ∷ []) a.chunks ∙ replicate-snoc j x;
      long = a.long;
      shown = a.shown;
      views =
          retag_one (length c.stream.buffer) (length s.buffer) (some n) c.views
            (ap length d.2 ∙ omega (arith, length-append c.stream.buffer (x ∷ [])))
          ∙ ap (λ v. v ++ some n ∷ []) a.views
          ∙ views-snoc j (some n);
      at = a.at;
      counted = a.counted;
    }
    Queued-Waiting c (err e, s) a d = d

    pub queue_step :
        (u : User) (e : Exc) (payload : Bytes) (c : Copying)
        → ((s : Stream) → u.maybe_pause_protocol s ≡ (ok tt, s))
        → payload ≡ x
        → Waiting j x p t c
        → would_block e ≡ true
        → 0 < n
        → Returns
            (λ _. Waiting (suc j) x p t)
            (on_transport (some n) (write u (bytes_like payload) (err e)) c)
    unfolding on_transport
    queue_step u e payload c pauses same a b h = rw same (
        Queued-Waiting c (write u (bytes_like x) (err e) c.stream) a
          (write-Queued u pauses x e c.stream a.writable b (some_bytes x (omega (arith, a.long)))))

  pub seek-Waiting :
      (j : ℕ) (x : Bytes) (p t : ℕ) (moves : Bool) (to : ℕ) (c : Copying)
      → Waiting j x p t c
      → Returns (λ _ d. (q : ℕ) × Waiting j x q t d) (seek moves to c)
  unfolding seek
  seek-Waiting j x p t false to c a = (p, a)
  seek-Waiting j x p t true to c a = (
    to,
    record {
      writable = a.writable;
      nothing_sent = a.nothing_sent;
      chunks = a.chunks;
      long = a.long;
      shown = a.shown;
      views = a.views;
      at = refl;
      counted = a.counted;
    },
  )
