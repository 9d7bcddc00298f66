-- ===== src/Stream/Reader/Peek.antt =====
-- Peek: it ends, and shows the source's bytes in their order.
use go_netx.Base.{
  ℕ, zero, suc, ◌+◌, ◌≤◌, ◌<◌, ◌≡◌, refl, sym, ◌∙◌, false, List, Option, none, some, returns, Ends,
  Ends-if, Ends-and_then, and_then, arith, if-cases, length, take, ltb, leb, ltb→lt, leb→le,
  ltb-false, if◌then◌else◌, slice-take, length-slice, true≢false,
}
use go_netx.Base.Int.{pos, ltb_ℤ}
use go_netx.Buf.{Pool}
use go_netx.Stream.Reader.{
  Reader, Error, Got, data_of, buffered, len, ensure, read_once, peek_turn, peek_loop, show, peek,
}
use go_netx.Stream.Reader.Growth.{Moved, ensure_lem}
use go_netx.Stream.Reader.Rounds.{IsLog, Grows}
use go_netx.Stream.Reader.Fill.{Sound, Filled, read_after, Moved-Filled}

module _ {A S : Type 0} (given : S → List A) (others : ℕ) where
  module _ (memory : ℕ → List A) (sized : (n : ℕ) → length (memory n) ≡ n)
      (read : ℕ → S → S × Got A) (log : IsLog read given) where
    peek_turn_lem :
        (out : List A) (n : ℕ) (x : Reader A) (p : Pool) (s : S)
        → Sound given others out x p s
        → x.done ≡ false
        → len x < n
        → Ends (Filled given others out x) (peek_turn read memory n x p s)
    unfolding peek_turn
    peek_turn_lem out n x p s sound o l =
        Ends-and_then (Moved others n x) (Filled given others out x) (ensure memory n x p) _
          (ensure_lem memory sized others n x p sound.window o sound.owes)
          (λ made m. go made.0 made.1 made.2 m)
      where
        go :
            (x' : Reader A) (p' : Pool) (e : Option Error)
            → Moved others n x (x', p', e)
            → Ends (Filled given others out x) (elim e [
              | some e ↦ returns (x', p', s, some e)
              | none ↦
                  let (x'', s', e') = read_once read x' s in
                  returns (x'', p', s', if leb n (len x'') then none else e')
            ])
        go x' p' (some e) m = (
          (x', p', s, some e),
          refl,
          Moved-Filled given others memory sized read log out n x p s x' p' e sound m,
        )
        go x' p' none m =
            let after =
              read_after given others memory sized read log out n x p s (x', p', none) sound m in
            let (x'', s', e') = read_once read x' s in
            (
              _,
              refl,
              record {
                sound = after.sound;
                max_size = after.max_size;
                done = after.done;
                grows =
                    if-cases (λ e. Grows (len x) (len x'') e) (leb n (len x''))
                      (λ f. omega (arith, leb→le n (len x'') f)) (λ f. after.grows);
              },
            )

    -- Enough is buffered, where there is no error.
    abbrev pub Enough : ℕ → Reader A → Option Error → Type 0
    Enough n x none = n ≤ len x
    Enough n x (some e) = Unit

    pub record Looped (out : List A) (n : ℕ) (x : Reader A)
        (end : Reader A × Pool × S × Option Error) : Type 0 where
      pub sound : Sound given others out end.0 end.1 end.2
      pub max_size : end.0.max_size ≡ x.max_size
      pub done : end.0.done ≡ x.done
      pub enough : Enough n end.0 end.3

    -- Each turn without an error buffers more, so fuel for the missing bytes is enough.
    peek_loop_lem :
        (fuel : ℕ) (out : List A) (n : ℕ) (x : Reader A) (p : Pool) (s : S)
        → Sound given others out x p s
        → x.done ≡ false
        → n ≤ fuel + len x
        → Ends (Looped out n x) (peek_loop read memory fuel n x p s)
    unfolding peek_loop
    peek_loop_lem zero out n x p s sound o h =
        Ends-if (Looped out n x) (ltb (len x) n) (λ f. absurd (omega (arith, ltb→lt (len x) n f)))
          (λ f. (
            (x, p, s, none),
            refl,
            record { sound = sound; max_size = refl; done = refl; enough = omega arith },
          ))
    peek_loop_lem (suc fuel) out n x p s sound o h =
        Ends-if (Looped out n x) (ltb (len x) n)
          (λ f.
            Ends-and_then (Filled given others out x) (Looped out n x)
              (peek_turn read memory n x p s) _
              (peek_turn_lem out n x p s sound o (ltb→lt (len x) n f))
              (λ turn filled. go (peek_loop_lem fuel out n) turn.0 turn.1 turn.2 turn.3 filled))
          (λ f. (
            (x, p, s, none),
            refl,
            record { sound = sound; max_size = refl; done = refl; enough = ltb-false (len x) n f },
          ))
      where
        go :
            (rest : (x' : Reader A) (p' : Pool) (s' : S)
              → Sound given others out x' p' s'
              → x'.done ≡ false
              → n ≤ fuel + len x'
              → Ends (Looped out n x') (peek_loop read memory fuel n x' p' s'))
            (x' : Reader A) (p' : Pool) (s' : S) (e : Option Error)
            → Filled given others out x (x', p', s', e)
            → Ends (Looped out n x) (elim e [
              | some e' ↦ returns (x', p', s', some e')
              | none ↦ peek_loop read memory fuel n x' p' s'
            ])
        go rest x' p' s' (some e) filled = (
          (x', p', s', some e),
          refl,
          record {
            sound = filled.sound;
            max_size = filled.max_size;
            done = filled.done;
            enough = tt;
          },
        )
        go rest x' p' s' none filled =
            let (end, e, looped) =
              rest x' p' s' filled.sound (filled.done ∙ o) (omega (arith, filled.grows, h)) in
            (
              end,
              e,
              record {
                sound = looped.sound;
                max_size = looped.max_size ∙ filled.max_size;
                done = looped.done ∙ filled.done;
                enough = looped.enough;
              },
            )

    -- What Peek shows: the next n bytes of the window, or with an error the whole window.
    abbrev pub Shows : ℕ → Reader A → List A → Option Error → Type 0
    Shows n x shown none = (shown ≡ take n (buffered x)) × (length shown ≡ n)
    Shows n x shown (some e) = shown ≡ buffered x

    pub record Peeked (out : List A) (n : ℕ) (x : Reader A)
        (end : Reader A × Pool × S × List A × Option Error) : Type 0 where
      pub sound : Sound given others out end.0 end.1 end.2
      pub max_size : end.0.max_size ≡ x.max_size
      pub done : end.0.done ≡ x.done
      pub shows : Shows n end.0 end.3 end.4

    -- Peek of an open reader, for a count that is not negative, ends without a panic, whatever the source does. It
    -- consumes nothing: what the source gave is still what was consumed and then what is buffered. It shows the
    -- next n bytes, or with an error all that is buffered. The window lies in the buffer before, the pool counts
    -- the reader's buffer, and its memory gives as many bytes as it is asked for.
    pub peek_lem :
        (out : List A) (n : ℕ) (x : Reader A) (p : Pool) (s : S)
        → Sound given others out x p s
        → x.done ≡ false
        → Ends (Peeked out n x) (peek read memory (pos n) x p s)
    unfolding peek
    peek_lem out n x p s sound o =
        let P = Peeked out n x in
        Ends-if P x.done (λ f. absurd (true≢false (sym f ∙ o)))
          (λ f.
            Ends-if P (ltb_ℤ (pos n) (pos 0))
              (λ g. absurd (omega (arith, ltb→lt (n + 0) (0 + 0) g)))
              (λ g.
                Ends-if P (ltb x.max_size n)
                  (λ h.
                    (_, refl, record { sound = sound; max_size = refl; done = refl; shows = refl }))
                  (λ h.
                    Ends-and_then (Looped out n x) P (peek_loop read memory n n x p s) _
                      (peek_loop_lem n out n x p s sound o (omega arith))
                      (λ end looped. go end.0 end.1 end.2 end.3 looped))))
      where
        go :
            (x' : Reader A) (p' : Pool) (s' : S) (e : Option Error)
            → Looped out n x (x', p', s', e)
            → Ends (Peeked out n x) (elim e [
              | some e ↦ returns (x', p', s', buffered x', some e)
              | none ↦ and_then (show (pos n) x') (λ shown. returns (x', p', s', shown, none))
            ])
        go x' p' s' (some e) looped = (
          _,
          refl,
          record {
            sound = looped.sound;
            max_size = looped.max_size;
            done = looped.done;
            shows = refl;
          },
        )
        go x' p' s' none looped =
            let v = looped.sound.window in
            Ends-and_then (λ shown. Shows n x' shown none) (Peeked out n x) (show (pos n) x') _
              (Ends-if (λ shown. Shows n x' shown none) (leb (x'.r + n) (length (data_of x')))
                (λ inside. (
                  _,
                  refl,
                  (
                    slice-take (data_of x') x'.r x'.w n (omega (arith, looped.enough, v.ordered))
                        v.inside,
                    length-slice (data_of x') x'.r (x'.r + n) (omega arith) (leb→le _ _ inside)
                        ∙ omega arith,
                  ),
                ))
                (λ outside. absurd (ground (arith, outside, looped.enough, v.ordered, v.inside))))
              (λ shown shows. (
                _,
                refl,
                record {
                  sound = looped.sound;
                  max_size = looped.max_size;
                  done = looped.done;
                  shows = shows;
                },
              ))
