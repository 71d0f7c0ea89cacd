-- ===== src/Transport/Sendfile/Fallback/Steps.antt =====
-- The steps of `_sendfile_fallback`, where the kernel takes each block as it is written: what each makes
-- of the transport, the file's position and the count.
use tokioop.Prelude.{
  ℕ, zero, suc, ◌+◌, ◌-◌, ◌≤◌, ◌<◌, ◌≡◌, refl, sym, ap, ◌∙◌, Option, none, some, List, [], ◌∷◌,
  ◌++◌, append-nil, append_assoc, arith, min, ◌==◌, if◌then◌else◌, length, take, drop, concat,
  take-take-drop, take-append_le, drop-drop, length-take, length-drop,
}
use tokioop.Python.{Bytes, Result, ok, err, Method, modify, ◌>>◌}
use tokioop.Python.Returns.{Returns, Returns->>}
use tokioop.Transport.Stream.{Stream, User}
use tokioop.Transport.Write.{bytes_like, write}
use tokioop.Transport.Write.Accounting.{outgoing, IsWritable}
use tokioop.Transport.Write.Wrote.{Wrote, write-Wrote, write-whole}
use tokioop.Transport.Sendfile.Fallback.{
  Copying, World, put_on, on_transport, refresh, land, write_block,
}

-- Everything that was to go out is sent, and the transport can still be written to.
pub record Drained (s t : Stream) : Type 0 where
  pub writable : IsWritable t
  pub idle : t.buffer ≡ []
  pub all_sent : t.sent ≡ outgoing s

-- With an empty buffer there is nothing to send.
abbrev pub IsCalm : Method Stream (Unit {0}) → Type 0
IsCalm m = (s : Stream) → IsWritable s → s.buffer ≡ [] → Returns (λ _. Drained s) (m s)

-- A read gives at most what was asked for and what there is, and something if there is any.
abbrev pub Reads : ℕ → ℕ → Result ℕ → Type 0
Reads size left (ok n) = (n ≤ size) × (n ≤ left) × (0 < size → 0 < left → 0 < n)
Reads size left (err e) = ⊥

pub record IsFriendly (file : Bytes) (w : World) : Type 0 where
  pub makes : IsCalm w.make
  pub waits : (t : ℕ) → IsCalm (w.before t)
  pub goes_on : (t : ℕ) → IsCalm (w.after t)
  pub reads : (pos size : ℕ) → Reads size (length file - pos) (w.readinto pos size)
  pub takes : (t n : ℕ) → w.kernel t n ≡ ok n
  pub drains : (t : ℕ) → IsCalm (w.drain t)
  pub restores : IsCalm w.restore

-- How much there is to send.
abbrev pub target : ℕ → ℕ → ℕ
target count available = if count == 0 then available else min count available

pub take-take : (n m : ℕ) (xs : Bytes) → n ≤ m → take n (take m xs) ≡ take n xs
take-take zero m xs h = refl
take-take (suc n) zero xs h = absurd (omega arith)
take-take (suc n) (suc m) [] h = refl
take-take (suc n) (suc m) (x ∷ xs) h = ap (λ l. x ∷ l) (take-take n m xs (omega arith))

-- What `view[:read]` shows right after the read.
read_block :
    (n block : ℕ) (there old : Bytes)
    → n ≤ block
    → n ≤ length there
    → take n (take block (take n there ++ drop n old)) ≡ take n there
read_block n block there old h l =
    take-take n block (take n there ++ drop n old) h
    ∙ take-append_le n (take n there) (drop n old) (omega (arith, length-take n there))
    ∙ take-take n n there (omega arith)

refresh_nothing :
    (buf : Bytes) (bs : List Bytes) (views : List (Option ℕ)) → bs ≡ [] → refresh buf bs views ≡ []
unfolding refresh
refresh_nothing buf bs views e = ap (λ b. refresh buf b views) e

module _ (file : Bytes) (offset : ℕ) (sent : Bytes) where
  -- `p` bytes are read and `k` bytes are handed to the transport.
  pub record At (p k total : ℕ) (buf : Bytes) (c : Copying) : Type 0 where
    pub writable : IsWritable c.stream
    pub out : outgoing c.stream ≡ sent ++ take k (drop offset file)
    pub at : c.pos ≡ offset + p
    pub counted : c.total_sent ≡ total
    pub held : c.buf ≡ buf

  -- The same, and nothing waits.
  pub record Idle (p k total : ℕ) (buf : Bytes) (c : Copying) : Type 0 where
    pub state : At p k total buf c
    pub idle : c.stream.buffer ≡ []

  module _ (p k total : ℕ) (buf : Bytes) where
    Drained-Idle :
        (mark : Option ℕ) (c : Copying) (x : Result (Unit {0}) × Stream)
        → At p k total buf c
        → Returns (λ _. Drained c.stream) x
        → Returns (λ _. Idle p k total buf) (put_on mark c x)
    Drained-Idle mark c (ok _, t) a d = record {
      state = record {
        writable = d.writable;
        out = ap (λ b. t.sent ++ concat b) d.idle ∙ append-nil t.sent ∙ d.all_sent ∙ a.out;
        at = a.at;
        counted = a.counted;
        held = a.held;
      };
      idle = d.idle;
    }
    Drained-Idle mark c (err e, t) a d = d

    pub calm_step :
        (mark : Option ℕ) (m : Method Stream (Unit {0})) (c : Copying)
        → IsCalm m
        → Idle p k total buf c
        → Returns (λ _. Idle p k total buf) (on_transport mark m c)
    unfolding on_transport
    calm_step mark m c calm i =
        Drained-Idle mark c (m c.stream) i.state (calm c.stream i.state.writable i.idle)

    land-Idle :
        (n : ℕ) (c : Copying)
        → Idle p k total buf c
        → Idle (p + n) k total (take n (drop c.pos file) ++ drop n buf) (land file n c)
    unfolding land refresh
    land-Idle n c i =
        let empty =
          refresh_nothing (take n (drop c.pos file) ++ drop n c.buf) c.stream.buffer c.views
            i.idle in
        record {
          state = record {
            writable = record {
              has_sock = i.state.writable.has_sock;
              has_loop = i.state.writable.has_loop;
              loop_open = i.state.writable.loop_open;
              connected = i.state.writable.connected;
              no_eof = i.state.writable.no_eof;
              no_waiter = i.state.writable.no_waiter;
            };
            out = ap (λ b. c.stream.sent ++ concat b) (empty ∙ sym i.idle) ∙ i.state.out;
            at = omega (arith, i.state.at);
            counted = i.state.counted;
            held = ap (λ b. take n (drop c.pos file) ++ drop n b) i.state.held;
          };
          idle = empty;
        }

    Wrote-Idle :
        (payload : Bytes) (mark : Option ℕ) (n : ℕ) (c : Copying) (x : Result (Unit {0}) × Stream)
        → payload ≡ take n (drop k (drop offset file))
        → Idle p k total buf c
        → Wrote payload c.stream x
        → x.1.buffer ≡ []
        → Returns (λ _. Idle p (k + n) total buf) (put_on mark c x)
    Wrote-Idle payload mark n c (ok _, t) e i d b = record {
      state = record {
        writable = d.0;
        out =
            d.1
            ∙ ap (λ o. o ++ payload) i.state.out
            ∙ append_assoc sent (take k (drop offset file)) payload
            ∙ ap (λ x. sent ++ (take k (drop offset file) ++ x)) e
            ∙ ap (λ x. sent ++ x) (take-take-drop k n (k + n) (drop offset file) refl);
        at = i.state.at;
        counted = i.state.counted;
        held = i.state.held;
      };
      idle = b;
    }
    Wrote-Idle payload mark n c (err e, t) q i d b = d

  -- The bytes that a block shows are those of the file behind what was sent.
  payload_lem :
      (block n total : ℕ) (old : Bytes) (c d : Copying)
      → n ≤ block
      → n ≤ length file - (offset + total)
      → c.pos ≡ offset + total
      → d.buf ≡ take n (drop c.pos file) ++ drop n old
      → take n (take block d.buf) ≡ take n (drop total (drop offset file))
  payload_lem block n total old c d h l at e =
      ap (λ b. take n (take block b)) e
      ∙ read_block n block (drop c.pos file) old h (omega (arith, length-drop c.pos file, at))
      ∙ ap (λ x. take n (drop x file)) at
      ∙ ap (take n) (sym (drop-drop offset total (offset + total) file refl))

  length-payload :
      (n total : ℕ) (payload : Bytes)
      → n ≤ length file - (offset + total)
      → payload ≡ take n (drop total (drop offset file))
      → length payload ≡ n
  length-payload n total payload l e =
      ap length e
      ∙ omega (
        arith,
        length-take n (drop total (drop offset file)),
        length-drop total (drop offset file),
        length-drop offset file,
      )

  count_step :
      (p n total : ℕ) (buf : Bytes) (c : Copying)
      → Idle p p total buf c
      → total + n ≡ p
      → Idle p p p c.buf (record c { total_sent = c.total_sent + n })
  count_step p n total buf c i e = record {
    state = record {
      writable = i.state.writable;
      out = i.state.out;
      at = i.state.at;
      counted = omega (arith, i.state.counted);
      held = refl;
    };
    idle = i.idle;
  }

  module _ (u : User) (pauses : (s : Stream) → u.maybe_pause_protocol s ≡ (ok tt, s)) where
    module _ (p k total : ℕ) (buf : Bytes) where
      write_step :
          (payload : Bytes) (mark : Option ℕ) (n : ℕ) (c : Copying)
          → payload ≡ take n (drop k (drop offset file))
          → length payload ≡ n
          → Idle p k total buf c
          → Returns
              (λ _. Idle p (k + n) total buf)
              (on_transport mark (write u (bytes_like payload) (ok n)) c)
      unfolding on_transport
      write_step payload mark n c e h i =
          Wrote-Idle p k total buf payload mark n c (write u (bytes_like payload) (ok n) c.stream) e
            i (write-Wrote u pauses payload (ok n) c.stream i.state.writable (omega (arith, h)))
            (write-whole u pauses payload n c.stream i.state.writable i.idle h)

    module _ (w : World) (friendly : IsFriendly file w) where
      pub write_block-Idle :
          (block n total : ℕ) (buf : Bytes) (c : Copying)
          → n ≤ block
          → n ≤ length file - (offset + total)
          → Idle total total total buf c
          → Returns
              (λ _ d. Idle (total + n) (total + n) (total + n) d.buf d)
              (write_block u w file block n c)
      unfolding write_block land
      write_block-Idle block n total buf c h l i =
          let landed = take n (drop c.pos file) ++ drop n buf in
          let done : Copying → Type 0 = λ d. Idle (total + n) (total + n) (total + n) d.buf d in
          let count : Method Copying (Unit {0}) =
            modify λ c. record c { total_sent = c.total_sent + n } in
          let rest = on_transport none (w.drain c.total_sent) >> count in
          let send : Bytes → Method Copying (Unit {0}) = λ b.
            on_transport (some n)
              (write u (bytes_like (take n (take block b))) (w.kernel c.total_sent n)) in
          Returns->> (Idle (total + n) total total landed) (λ _. done)
            (on_transport none (w.after c.total_sent)) (λ d. (send d.buf >> rest) d) (land file n c)
            (calm_step (total + n) total total landed none (w.after c.total_sent) (land file n c)
              (friendly.goes_on c.total_sent) (land-Idle total total total buf n c i))
            λ d id.
              let payload = payload_lem block n total buf c d h l i.state.at id.state.held in
              Returns->> (Idle (total + n) (total + n) total landed) (λ _. done) (send d.buf) rest d
                (rw (friendly.takes c.total_sent n) (
                  write_step (total + n) total total landed (take n (take block d.buf)) (some n) n d
                    payload (length-payload n total (take n (take block d.buf)) l payload) id))
                λ e ie.
                  Returns->> (Idle (total + n) (total + n) total landed) (λ _. done)
                    (on_transport none (w.drain c.total_sent)) count e
                    (calm_step (total + n) (total + n) total landed none (w.drain c.total_sent) e
                      (friendly.drains c.total_sent) ie)
                    λ f fi. count_step (total + n) n total landed f fi refl
