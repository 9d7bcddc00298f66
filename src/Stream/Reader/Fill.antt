-- ===== src/Stream/Reader/Fill.antt =====
-- Fill, and the stream of bytes that every call keeps.
use go_netx.Base.{
  ℕ, ◌+◌, ◌≡◌, refl, sym, subst, ap, ◌∙◌, List, ◌++◌, append_assoc, Option, none, some, returns,
  Ends, Ends-if, Ends-and_then, length,
}
use go_netx.Buf.{Pool}
use go_netx.Stream.Reader.{Reader, Error, Got, released, buffered, len, ensure, read_once, fill}
use go_netx.Stream.Reader.Window.{IsWindow, Owes, length-buffered}
use go_netx.Stream.Reader.Growth.{Moved, ensure_lem}
use go_netx.Stream.Reader.Rounds.{IsLog, Grows, read_once_lem}

module _ {A S : Type 0} (given : S → List A) (others : ℕ) where
  -- The bytes that the source gave are those that the caller has consumed and then those that are buffered.
  pub record Sound (out : List A) (x : Reader A) (p : Pool) (s : S) : Type 0 where
    pub window : IsWindow x
    pub owes : Owes others x.big p
    pub stream : given s ≡ out ++ buffered x

  pub record Filled (out : List A) (x : Reader A) (end : Reader A × Pool × S × Option Error)
      : Type 0 where
    pub sound : Sound out end.0 end.1 end.2
    pub max_size : end.0.max_size ≡ x.max_size
    pub done : end.0.done ≡ x.done
    pub grows : Grows (len x) (len end.0) end.3

  module _ (memory : ℕ → List A) (sized : (n : ℕ) → length (memory n) ≡ n)
      (read : ℕ → S → S × Got A) (log : IsLog read given) where
    pub read_after :
        (out : List A) (n : ℕ) (x : Reader A) (p : Pool) (s : S)
        (made : Reader A × Pool × Option Error)
        → Sound out x p s
        → Moved others n x made
        → let (x', s', e) = read_once read made.0 s in Filled out x (x', made.1, s', e)
    read_after out n x p s made sound m =
        let on = read_once_lem read given log made.0 s m.window in
        let a = on.advanced in
        let same_len : len made.0 ≡ len x =
          sym (length-buffered made.0 m.window)
          ∙ ap length m.kept.bytes
          ∙ length-buffered x sound.window in
        record {
          sound = record {
            window = a.window;
            owes = a.owes others made.1 m.owes;
            stream =
                on.logged
                ∙ ap (λ g. g ++ on.chunk) (sound.stream ∙ ap (λ b. out ++ b) (sym m.kept.bytes))
                ∙ append_assoc out (buffered made.0) on.chunk
                ∙ ap (λ b. out ++ b) (sym a.bytes);
          };
          max_size = a.max_size ∙ m.kept.max_size;
          done = a.done ∙ m.kept.done;
          grows =
              subst (λ k. Grows k (len (read_once read made.0 s).0) (read_once read made.0 s).2)
                same_len a.grows;
        }

    pub Moved-Filled :
        (out : List A) (n : ℕ) (x : Reader A) (p : Pool) (s : S) (x' : Reader A) (p' : Pool)
        (e : Error)
        → Sound out x p s
        → Moved others n x (x', p', some e)
        → Filled out x (x', p', s, some e)
    Moved-Filled out n x p s x' p' e sound m = record {
      sound = record {
        window = m.window;
        owes = m.owes;
        stream = sound.stream ∙ ap (λ b. out ++ b) (sym m.kept.bytes);
      };
      max_size = m.kept.max_size;
      done = m.kept.done;
      grows = tt;
    }

    -- Fill keeps the stream, and buffers more where it returns no error.
    pub fill_lem :
        (out : List A) (x : Reader A) (p : Pool) (s : S)
        → Sound out x p s
        → Ends (Filled out x) (fill read memory x p s)
    unfolding fill
    fill_lem out x p s sound =
        Ends-if (Filled out x) x.done
          (λ f. (
            (x, p, s, some released),
            refl,
            record { sound = sound; max_size = refl; done = refl; grows = tt },
          ))
          (λ f.
            Ends-and_then (Moved others (len x + 1) x) (Filled out x)
              (ensure memory (len x + 1) x p) _
              (ensure_lem memory sized others (len x + 1) x p sound.window f sound.owes)
              (λ made m. go made.0 made.1 made.2 m))
      where
        go :
            (x' : Reader A) (p' : Pool) (e : Option Error)
            → Moved others (len x + 1) x (x', p', e)
            → Ends (Filled out x) (elim e [
              | some e ↦ returns (x', p', s, some e)
              | none ↦ let (x'', s', e) = read_once read x' s in returns (x'', p', s', e)
            ])
        go x' p' (some e) m =
            ((x', p', s, some e), refl, Moved-Filled out (len x + 1) x p s x' p' e sound m)
        go x' p' none m = (_, refl, read_after out (len x + 1) x p s (x', p', none) sound m)
