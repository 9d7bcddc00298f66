-- ===== src/Stream/Writer/Flushed.antt =====
-- What Flush sends and what it gives back.
use go_netx.Base.{
  ℕ, ◌+◌, ◌≡◌, refl, sym, ap, ◌∙◌, true, List, [], ◌∷◌, ◌++◌, append-nil, append_assoc, Option,
  none, some, returns, and_then, Ends, Ends-and_then, arith, length, length-append, take, subst,
  All, All-append,
}
use go_netx.Buf.{Buf, Pool, release_buf}
use go_netx.Buf.Owned.{IsValid, Holds, Holds-eq, release_buf-Holds}
use go_netx.Stream.Writer.{Writer, add, add_shared, release_all, discard, send, flush}

module _ {A : Type 0} where
  abbrev pub join : List (List A) → List A
  join [] = []
  join (v ∷ vs) = v ++ join vs

  join-append : (vs us : List (List A)) → join (vs ++ us) ≡ join vs ++ join us
  join-append [] us = refl
  join-append (v ∷ vs) us =
      ap (λ l. v ++ l) (join-append vs us) ∙ sym (append_assoc v (join vs) (join us))

  abbrev pub total_cap : List (Buf A) → ℕ
  total_cap [] = 0
  total_cap (b ∷ bs) = b.cap + total_cap bs

  total_cap-append : (bs cs : List (Buf A)) → total_cap (bs ++ cs) ≡ total_cap bs + total_cap cs
  total_cap-append [] cs = omega arith
  total_cap-append (b ∷ bs) cs = omega (arith, total_cap-append bs cs)

  -- An empty queue holds no buffer, so a Flush that sends nothing owes nothing.
  abbrev pub Covered : List (List A) → List (Buf A) → Type 0
  Covered [] bs = bs ≡ []
  Covered (v ∷ vs) bs = Unit

  Covered-append :
      (vs : List (List A)) (v : List A) (bs : List (Buf A)) → Covered (vs ++ (v ∷ [])) bs
  Covered-append [] v bs = tt
  Covered-append (u ∷ vs) v bs = tt

  -- The writer holds live buffers, which the pool counts on top of what others hold, and `text` is queued.
  pub record IsQueued (others : ℕ) (text : List A) (w : Writer A) (p : Pool) : Type 0 where
    pub valid : IsValid p.budget
    pub holds : Holds (others + total_cap w.held) p.budget
    pub live : All (λ b. b.live ≡ true) w.held
    pub queued : join w.vec ≡ text
    pub counted : w.size ≡ length text
    pub covered : Covered w.vec w.held

  -- Add queues the buffer's bytes last, and takes over what the caller held.
  pub add-IsQueued :
      (others : ℕ) (text : List A) (b : Buf A) (w : Writer A) (p : Pool)
      → b.live ≡ true
      → IsQueued (others + b.cap) text w p
      → IsQueued others (text ++ b.bytes) (add b w) p
  unfolding add
  add-IsQueued others text b w p l q = record {
    valid = q.valid;
    holds = Holds-eq p.budget (omega (arith, total_cap-append w.held (b ∷ []))) q.holds;
    live = All-append (λ b. b.live ≡ true) w.held (b ∷ []) q.live (l, tt);
    queued =
        join-append w.vec (b.bytes ∷ [])
        ∙ ap (λ l. l ++ (b.bytes ++ [])) q.queued
        ∙ ap (λ l. text ++ l) (append-nil b.bytes);
    counted = omega (arith, q.counted, length-append text b.bytes);
    covered = Covered-append w.vec b.bytes (w.held ++ (b ∷ []));
  }

  -- AddShared queues the bytes last, and holds nothing for them.
  pub add_shared-IsQueued :
      (others : ℕ) (text xs : List A) (w : Writer A) (p : Pool)
      → IsQueued others text w p
      → IsQueued others (text ++ xs) (add_shared xs w) p
  unfolding add_shared
  add_shared-IsQueued others text [] w p q = record {
    valid = q.valid;
    holds = q.holds;
    live = q.live;
    queued = q.queued ∙ sym (append-nil text);
    counted = q.counted ∙ ap length (sym (append-nil text));
    covered = q.covered;
  }
  add_shared-IsQueued others text (x ∷ xs) w p q = record {
    valid = q.valid;
    holds = q.holds;
    live = q.live;
    queued =
        join-append w.vec ((x ∷ xs) ∷ [])
        ∙ ap (λ l. l ++ ((x ∷ xs) ++ [])) q.queued
        ∙ ap (λ l. text ++ l) (append-nil (x ∷ xs));
    counted = omega (arith, q.counted, length-append text (x ∷ xs));
    covered = Covered-append w.vec (x ∷ xs) w.held;
  }

  release_all-Holds :
      (others : ℕ) (bs : List (Buf A)) (p : Pool)
      → IsValid p.budget
      → Holds (others + total_cap bs) p.budget
      → All (λ b. b.live ≡ true) bs
      → Ends (λ p'. IsValid p'.budget × Holds others p'.budget) (release_all bs p)
  unfolding release_all
  release_all-Holds others [] p v h l = (p, refl, (v, Holds-eq p.budget (omega arith) h))
  release_all-Holds others (b ∷ bs) p v h l =
      Ends-and_then (λ end. IsValid end.0.budget × Holds (others + total_cap bs) end.0.budget)
        (λ p'. IsValid p'.budget × Holds others p'.budget) (release_buf b p) _
        (release_buf-Holds (others + total_cap bs) b p v (Holds-eq p.budget (omega arith) h) l.0)
        (λ end k. release_all-Holds others bs end.0 k.0 k.1 l.1)

  -- Discard releases every held buffer once, without a panic, and queues nothing.
  pub discard_lem :
      (others : ℕ) (text : List A) (w : Writer A) (p : Pool)
      → IsQueued others text w p
      → Ends (λ end. IsQueued others [] end.0 end.1) (discard w p)
  unfolding discard
  discard_lem others text w p q =
      Ends-and_then (λ p'. IsValid p'.budget × Holds others p'.budget)
        (λ end. IsQueued others [] end.0 end.1) (release_all w.held p) _
        (release_all-Holds others w.held p q.valid q.holds q.live)
        (λ p' k. (
          _,
          refl,
          record {
            valid = k.0;
            holds = Holds-eq p'.budget (omega arith) k.1;
            live = tt;
            queued = refl;
            counted = refl;
            covered = refl;
          },
        ))

  -- All is sent, where there is no error.
  abbrev pub Whole : ℕ → List A → Option ℕ → Type 0
  Whole n text none = n ≡ length text
  Whole n text (some e) = Unit

module _ {A S : Type 0} (write : List A → S → S × ℕ × Option ℕ)
    (write_buffers : List (List A) → S → S × ℕ × Option ℕ) where
  -- A destination, as io.Writer has it: the count is of the first bytes, all of them if there is no error. So Write of
  -- one slice, and WriteBuffers of several one after the other.
  pub record IsSink (given : S → List A) : Type 0 where
    pub writes :
        (v : List A) (s : S)
        → let (s', n, e) = write v s in (given s' ≡ given s ++ take n v) × Whole n v e
    pub writes_buffers :
        (vs : List (List A)) (s : S)
        → let (s', n, e) = write_buffers vs s in
          (given s' ≡ given s ++ take n (join vs)) × Whole n (join vs) e

  -- What is sent of slices that are there: by Write where there is one, and by WriteBuffers where there are more.
  send_lem :
      (given : S → List A)
      → IsSink given
      → (vs : List (List A)) (s : S)
      → let (s', n, e) = send write write_buffers vs s in
        (given s' ≡ given s ++ take n (join vs)) × Whole n (join vs) e
  send_lem given sink [] s = (sym (append-nil (given s)), refl)
  send_lem given sink (v ∷ []) s =
      let (s', n, e) = write v s in
      subst (λ t. (given s' ≡ given s ++ take n t) × Whole n t e) (sym (append-nil v))
        (sink.writes v s)
  send_lem given sink (v ∷ u ∷ vs) s = sink.writes_buffers (v ∷ u ∷ vs) s

  pub record Flushed (given : S → List A) (others : ℕ) (text : List A) (s : S)
      (end : Writer A × Pool × S × ℕ × Option ℕ) : Type 0 where
    pub emptied : IsQueued others [] end.0 end.1
    pub sent : given end.2 ≡ given s ++ take end.3 text
    pub whole : Whole end.3 text end.4

  -- Flush of a writer whose buffers are live and counted by the pool ends without a panic. It sends the first bytes
  -- of what was queued, in the order in which it was added, and all of it where it returns no error; and in every
  -- case each buffer that was added is released, once, and nothing stays queued. The destination's Write, of one
  -- slice, and its WriteBuffers, of several, count the bytes that they took, which are all where they give no error.
  pub flush_lem :
      (given : S → List A) (sink : IsSink given) (others : ℕ) (text : List A) (w : Writer A)
      (p : Pool) (s : S)
      → IsQueued others text w p
      → Ends (Flushed given others text s) (flush write write_buffers w p s)
  unfolding flush
  flush_lem given sink others text w p s q = go w.vec q.queued q.covered
    where
      go :
          (vec : List (List A))
          → join vec ≡ text
          → Covered vec w.held
          → Ends (Flushed given others text s) (elim vec [
            | [] ↦ returns (w, p, s, 0, none)
            | v ∷ vs ↦
                let (s', n, e) = send write write_buffers (v ∷ vs) s in
                and_then (discard w p) (λ end. returns (end.0, end.1, s', n, e))
          ])
      go [] e c = (
        _,
        refl,
        record {
          emptied = record {
            valid = q.valid;
            holds = q.holds;
            live = q.live;
            queued = q.queued ∙ sym e;
            counted = q.counted ∙ ap length (sym e);
            covered = q.covered;
          };
          sent = sym (append-nil (given s));
          whole = ap length e;
        },
      )
      go (v ∷ vs) e c =
          let took = send_lem given sink (v ∷ vs) s in
          let (s', n, er) = send write write_buffers (v ∷ vs) s in
          Ends-and_then (λ end. IsQueued others [] end.0 end.1) (Flushed given others text s)
            (discard w p) _ (discard_lem others text w p q)
            (λ end k. (
              _,
              refl,
              record {
                emptied = k;
                sent = took.0 ∙ ap (λ t. given s ++ take n t) e;
                whole = subst (λ t. Whole n t er) e took.1;
              },
            ))
