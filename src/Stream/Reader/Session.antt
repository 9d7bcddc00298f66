-- ===== src/Stream/Reader/Session.antt =====
-- Any run of a reader's calls between NewReader and Release.
use go_netx.Base.{
  ℕ, zero, suc, ◌+◌, ◌≤◌, ◌≡◌, refl, sym, ap, ◌∙◌, min, true, false, true≢false, List, [], ◌∷◌,
  ◌++◌, append-nil, append_assoc, none, Outcome, returns, and_then, Ends, Ends-if, Ends-and_then,
  arith, length, replicate, length-replicate, take, drop, ltb-false, take-append-drop, ◌||◌,
  slice_empty, ◌≢◌,
}
use go_netx.Base.Int.{ℤ, pos, negsuc, pos_part, ltb_ℤ}
use go_netx.Buf.{Pool, large}
use go_netx.Buf.Owned.{IsValid, Holds, Holds-eq}
use go_netx.Stream.Reader.{
  Reader, Got, or_default, new_reader, buffered, discard, release_reader, read_bytes, peek, fill,
}
use go_netx.Stream.Reader.Window.{Owes}
use go_netx.Stream.Reader.Growth.{release_big-Owes}
use go_netx.Stream.Reader.Rounds.{IsLog}
use go_netx.Stream.Reader.Fill.{Sound, Filled, fill_lem}
use go_netx.Stream.Reader.Peek.{Peeked, peek_lem}
use go_netx.Stream.Reader.Whole.{Consumed, ReadInto, discard_lem, read_bytes_lem}

-- A call of a reader's method.
pub data Call : Type 0 where
  peeks : ℤ → Call
  fills : Call
  discards : ℤ → Call
  reads : ℕ → Call

module _ {A S : Type 0} (read : ℕ → S → S × Got A) (memory : ℕ → List A) where
  -- One call, with the bytes that it consumes.
  unfoldable pub call : Call → Reader A → Pool → S → Outcome (Reader A × Pool × S × List A)
  unfolding peek fill discard read_bytes
  call (peeks n) x p s =
      and_then (peek read memory n x p s) (λ end. returns (end.0, end.1, end.2, []))
  call fills x p s = and_then (fill read memory x p s) (λ end. returns (end.0, end.1, end.2, []))
  call (discards n) x p s =
      and_then (discard n x p) (λ end. returns (end.0, end.1, s, take end.2 (buffered x)))
  call (reads room) x p s =
      and_then (read_bytes read room x p s) (λ end. returns (end.0, end.1, end.2, end.3))

  -- The calls in their order, with all the bytes that they consume.
  unfoldable pub calls : List Call → Reader A → Pool → S → Outcome (Reader A × Pool × S × List A)
  unfolding call
  calls [] x p s = returns (x, p, s, [])
  calls (c ∷ cs) x p s = and_then (call c x p s) (λ first.
      and_then (calls cs first.0 first.1 first.2)
        (λ rest. returns (rest.0, rest.1, rest.2, first.3 ++ rest.3)))

  -- A reader's life: its options, its calls, and Release.
  unfoldable pub session : A → ℤ → ℤ → List Call → Pool → S → Outcome (Pool × S × List A)
  unfolding new_reader calls release_reader
  session z idle limit cs p s = and_then (new_reader z idle limit) (λ x.
      and_then (calls cs x p s)
        (λ end. and_then (release_reader end.0 end.1) (λ closed. returns (closed.1, end.2, end.3))))

valid_options :
    (idle limit : ℕ)
    → pos_part (or_default (pos idle) 512) ≤ pos_part (or_default (pos limit) large)
    → (ltb_ℤ (or_default (pos idle) 512) (pos 0)
        || ltb_ℤ (or_default (pos limit) large) (or_default (pos idle) 512))
      ≢ true
valid_options zero zero h = ground arith
valid_options zero (suc limit) h = ground arith
valid_options (suc idle) zero h = ground arith
valid_options (suc idle) (suc limit) h = ground arith

module _ {A S : Type 0} where
  -- A new reader of valid options has nothing buffered and owes nothing.
  pub new_reader_lem :
      (given : S → List A) (others : ℕ) (z : A) (idle limit : ℕ) (p : Pool) (s : S)
      → pos_part (or_default (pos idle) 512) ≤ pos_part (or_default (pos limit) large)
      → IsValid p.budget
      → Holds others p.budget
      → given s ≡ []
      → Ends
          (λ x. Sound given others [] x p s × (x.done ≡ false))
          (new_reader z (pos idle) (pos limit))
  unfolding new_reader buffered
  new_reader_lem given others z idle limit p s h v k e =
      Ends-if _
        (ltb_ℤ (or_default (pos idle) 512) (pos 0)
          || ltb_ℤ (or_default (pos limit) large) (or_default (pos idle) 512))
        (λ f. absurd (valid_options idle limit h f))
        (λ f. (
          _,
          refl,
          (
            record {
              window = record {
                ordered = omega arith;
                inside = omega arith;
                bounded =
                    omega (arith, length-replicate (pos_part (or_default (pos idle) 512)) z, h);
                idle_fits =
                    omega (arith, length-replicate (pos_part (or_default (pos idle) 512)) z, h);
              };
              owes = record { valid = v; holds = Holds-eq p.budget (omega arith) k; live = tt };
              stream = e ∙ sym (slice_empty (replicate (pos_part (or_default (pos idle) 512)) z) 0);
            },
            refl,
          ),
        ))

module _ {A : Type 0} where
  -- Release gives back the reader's buffer, and leaves the pool with what the others hold.
  pub release_reader_lem :
      (others : ℕ) (x : Reader A) (p : Pool)
      → x.done ≡ false
      → Owes others x.big p
      → Ends
          (λ end.
            IsValid end.1.budget
            × Holds others end.1.budget
            × (end.0.done ≡ true)
            × (buffered end.0 ≡ []))
          (release_reader x p)
  unfolding release_reader buffered
  release_reader_lem others x p o w =
      let (p', e, paid) = release_big-Owes others x.big p w in
      let x' = record x { done = true; big = none; r = 0; w = 0 } in
      Ends-if _ x.done (λ f. absurd (true≢false (sym f ∙ o)))
        (λ f. (
          (x', p'),
          ap (λ r. and_then r (λ pool. returns (x', pool))) e,
          (paid.valid, Holds-eq p'.budget (omega arith) paid.holds, refl, refl),
        ))

module _ {A S : Type 0} (given : S → List A) (others : ℕ) (read : ℕ → S → S × Got A)
    (log : IsLog read given) (memory : ℕ → List A) (sized : (n : ℕ) → length (memory n) ≡ n) where
  -- Where a run of calls has come to.
  pub record Onward (out : List A) (end : Reader A × Pool × S × List A) : Type 0 where
    pub sound : Sound given others (out ++ end.3) end.0 end.1 end.2
    pub still_open : end.0.done ≡ false

  unconsumed :
      (out : List A) (x : Reader A) (p : Pool) (s : S)
      → Sound given others out x p s
      → x.done ≡ false
      → Onward out (x, p, s, [])
  unconsumed out x p s sound o = record {
    sound = record {
      window = sound.window;
      owes = sound.owes;
      stream = sound.stream ∙ ap (λ i. i ++ buffered x) (sym (append-nil out));
    };
    still_open = o;
  }

  -- A negative count changes nothing.
  refused :
      (out : List A) (n : ℕ) (x : Reader A) (p : Pool) (s : S)
      → Sound given others out x p s
      → x.done ≡ false
      → Ends
          (λ end. Sound given others out end.0 end.1 end.2 × (end.0.done ≡ false))
          (peek read memory (negsuc n) x p s)
  unfolding peek
  refused out n x p s sound o =
      Ends-if _ x.done (λ f. (_, refl, (sound, o)))
        (λ f.
          Ends-if _ (ltb_ℤ (negsuc n) (pos 0)) (λ g. (_, refl, (sound, o)))
            (λ g. absurd (omega (arith, ltb-false (0 + 0) (0 + suc n) g))))

  call_lem :
      (out : List A) (c : Call) (x : Reader A) (p : Pool) (s : S)
      → Sound given others out x p s
      → x.done ≡ false
      → Ends (Onward out) (call read memory c x p s)
  unfolding call
  call_lem out (peeks (pos n)) x p s sound o =
      Ends-and_then (Peeked given others memory sized read log out n x) (Onward out)
        (peek read memory (pos n) x p s) _
        (peek_lem given others memory sized read log out n x p s sound o)
        (λ end k. (_, refl, unconsumed out end.0 end.1 end.2 k.sound (k.done ∙ o)))
  call_lem out (peeks (negsuc n)) x p s sound o =
      Ends-and_then (λ end. Sound given others out end.0 end.1 end.2 × (end.0.done ≡ false))
        (Onward out) (peek read memory (negsuc n) x p s) _ (refused out n x p s sound o)
        (λ end k. (_, refl, unconsumed out end.0 end.1 end.2 k.0 k.1))
  call_lem out fills x p s sound o =
      Ends-and_then (Filled given others out x) (Onward out) (fill read memory x p s) _
        (fill_lem given others memory sized read log out x p s sound)
        (λ end k. (_, refl, unconsumed out end.0 end.1 end.2 k.sound (k.done ∙ o)))
  call_lem out (discards n) x p s sound o =
      let k = min (pos_part n) (length (buffered x)) in
      Ends-and_then (Consumed others k x) (Onward out) (discard n x p) _
        (discard_lem others n x p sound.window o sound.owes)
        (λ end c. (
          _,
          refl,
          record {
            sound = record {
              window = c.window;
              owes = c.owes;
              stream =
                  sound.stream
                  ∙ ap (λ b. out ++ b) (sym (take-append-drop k (buffered x)))
                  ∙ sym (append_assoc out (take k (buffered x)) (drop k (buffered x)))
                  ∙ ap (λ b. (out ++ take k (buffered x)) ++ b) (sym c.left)
                  ∙ ap (λ i. (out ++ take i (buffered x)) ++ buffered end.0) (sym c.count);
            };
            still_open = c.done ∙ o;
          },
        ))
  call_lem out (reads room) x p s sound o =
      Ends-and_then (ReadInto given others read log out room x) (Onward out)
        (read_bytes read room x p s) _ (read_bytes_lem given others read log out room x p s sound o)
        (λ end k. (_, refl, record { sound = k.sound; still_open = k.done ∙ o }))

  -- Whatever the source does, any run of Peek, Fill, Discard and Read on an open reader ends without a panic. The
  -- bytes that the source gave are those consumed before, those that these calls consumed, and those that are
  -- buffered, in this order. Before the run they are those consumed and those buffered, the window lies in the
  -- buffer, and the pool counts the reader's buffer; its memory gives as many bytes as it is asked for.
  pub calls_lem :
      (out : List A) (cs : List Call) (x : Reader A) (p : Pool) (s : S)
      → Sound given others out x p s
      → x.done ≡ false
      → Ends (Onward out) (calls read memory cs x p s)
  unfolding calls
  calls_lem out [] x p s sound o = (_, refl, unconsumed out x p s sound o)
  calls_lem out (c ∷ cs) x p s sound o =
      Ends-and_then (Onward out) (Onward out) (call read memory c x p s) _
        (call_lem out c x p s sound o)
        (λ first f.
          Ends-and_then (Onward (out ++ first.3)) (Onward out)
            (calls read memory cs first.0 first.1 first.2) _
            (calls_lem (out ++ first.3) cs first.0 first.1 first.2 f.sound f.still_open)
            (λ rest r. (
              _,
              refl,
              record {
                sound = record {
                  window = r.sound.window;
                  owes = r.sound.owes;
                  stream =
                      r.sound.stream
                      ∙ ap (λ i. i ++ buffered rest.0) (append_assoc out first.3 rest.3);
                };
                still_open = r.still_open;
              },
            )))

  -- A reader's whole life ends without a panic, whatever the source does, from options that NewReader takes and a
  -- pool with or without a budget: what the reader's calls consumed is the beginning of what the source gave, and
  -- the pool counts afterwards what it counted before. The pool's memory gives as many bytes as it is asked for.
  pub session_lem :
      (z : A) (idle limit : ℕ) (cs : List Call) (p : Pool) (s : S)
      → pos_part (or_default (pos idle) 512) ≤ pos_part (or_default (pos limit) large)
      → IsValid p.budget
      → Holds others p.budget
      → given s ≡ []
      → (left : List A) × Ends
          (λ end. IsValid end.0.budget × Holds others end.0.budget × (given end.1 ≡ end.2 ++ left))
          (session read memory z (pos idle) (pos limit) cs p s)
  unfolding session
  session_lem z idle limit cs p s h v k e =
      let (x, made, fresh) = new_reader_lem given others z idle limit p s h v k e in
      let (end, ran, onward) = calls_lem [] cs x p s fresh.0 fresh.1 in
      let (closed, ended, back) =
        release_reader_lem others end.0 end.1 onward.still_open onward.sound.owes in
      (
        buffered end.0,
        (
          (closed.1, end.2, end.3),
          ap
                (λ r. and_then r (λ x.
                  and_then (calls read memory cs x p s)
                    (λ e. and_then (release_reader e.0 e.1) (λ c. returns (c.1, e.2, e.3)))))
                made
              ∙ ap
                  (λ r.
                    and_then r
                      (λ e. and_then (release_reader e.0 e.1) (λ c. returns (c.1, e.2, e.3))))
                  ran
              ∙ ap (λ r. and_then r (λ c. returns (c.1, end.2, end.3))) ended,
          (back.0, back.1, onward.sound.stream),
        ),
      )
