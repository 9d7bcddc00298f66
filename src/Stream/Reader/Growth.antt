-- ===== src/Stream/Reader/Growth.antt =====
-- The reader's buffer as it grows: what ensure and grow promise.
use go_netx.Base.{
  ℕ, ◌+◌, ◌-◌, ◌≤◌, ◌<◌, ◌≡◌, refl, ap, ◌∙◌, min, max, true, false, List, Option, none, some,
  returns, and_then, Ends, Ends-and_then, Ends-if, arith, length, ltb, leb, ◌&&◌, ltb→lt, leb-false,
  ltb-false, if◌then◌else◌, overwrite, slice, length-overwrite, slice-copy,
}
use go_netx.Base.Int.{pos}
use go_netx.Buf.{Buf, Pool, capacity, get}
use go_netx.Buf.Owned.{release_buf-Holds, Holds-eq, Obtained, get-Obtained}
use go_netx.Buf.Classes.{le-capacity}
use go_netx.Stream.Reader.{
  Reader, Error, too_large, no_buffer, data_of, buffered, len, release_big, move_to, compact, grow,
  ensure,
}
use go_netx.Stream.Reader.Window.{
  IsWindow, cap_of, IsLive, Owes, Kept, Room, data_of_open, Owes-write_at, length-buffered,
  compact_lem, Kept-refl,
}

module _ {A : Type 0} where
  -- A buffer that is released leaves what the others hold.
  pub release_big-Owes :
      (others : ℕ) (o : Option (Buf A)) (p : Pool)
      → Owes others o p
      → Ends (Owes {A = A} others none) (release_big o p)
  release_big-Owes others none p w = (p, refl, w)
  release_big-Owes others (some b) p w =
      let (end, e, paid) = release_buf-Holds others b p w.valid w.holds w.live in
      (
        end.0,
        ap (λ done. and_then done (λ r. returns r.0)) e,
        record { valid = paid.0; holds = Holds-eq end.0.budget (omega arith) paid.1; live = tt },
      )

  -- Where the reader stands after a move: with room for n bytes, unless there was an error.
  abbrev pub RoomUnless : Option Error → ℕ → Reader A → Type 0
  RoomUnless none n x = Room n x
  RoomUnless (some e) n x = Unit

  pub record Moved (others n : ℕ) (x : Reader A) (end : Reader A × Pool × Option Error)
      : Type 0 where
    pub window : IsWindow end.0
    pub owes : Owes others end.0.big end.1
    pub kept : Kept x end.0
    pub room : RoomUnless end.2 n end.0

  Owes-compact :
      (others : ℕ) (x : Reader A) (p : Pool) → Owes others x.big p → Owes others (compact x).big p
  unfolding compact
  Owes-compact others x p w = Owes-write_at others 0 (buffered x) x.big p w

  unmoved :
      (others n : ℕ) (x : Reader A) (p : Pool) (e : Error)
      → IsWindow x
      → Owes others x.big p
      → Moved others n x (x, p, some e)
  unmoved others n x p e v w = record { window = v; owes = w; kept = Kept-refl x; room = tt }

  move_to_lem :
      (others n : ℕ) (b : Buf A) (x : Reader A) (p : Pool)
      → IsWindow x
      → x.done ≡ false
      → Owes (others + b.cap) x.big p
      → b.live ≡ true
      → len x < length b.bytes
      → n ≤ length b.bytes
      → length b.bytes ≤ x.max_size
      → Ends (Moved others n x) (move_to b x p)
  unfolding move_to buffered
  move_to_lem others n b x p v o w l small large_enough fits_max =
      let (p', e, paid) = release_big-Owes (others + b.cap) x.big p w in
      let bytes = buffered x in
      let count = length-buffered x v in
      let moved = record x {
        big = some (record b { bytes = overwrite b.bytes 0 bytes });
        r = 0;
        w = min (length b.bytes) (length bytes);
      } in
      let held = data_of_open moved o in
      let size = ap length held ∙ length-overwrite b.bytes 0 bytes in
      (
        (moved, p', none),
        ap (λ r. and_then r (λ pool. returns (moved, pool, none))) e,
        record {
          window = record {
            ordered = omega arith;
            inside = omega (arith, size);
            bounded = omega (arith, size);
            idle_fits = v.idle_fits;
          };
          owes = record {
            valid = paid.valid;
            holds = Holds-eq p'.budget (omega arith) paid.holds;
            live = l;
          };
          kept = record {
            bytes = ap (slice 0 moved.w) held ∙ slice-copy b.bytes bytes (omega (arith, count));
            last = refl;
            err = refl;
            max_size = refl;
            done = refl;
          };
          room = (omega (arith, count, size), omega (arith, size));
        },
      )

  module _ (memory : ℕ → List A) (sized : (n : ℕ) → length (memory n) ≡ n) where
    grown_lem :
        (others n size : ℕ) (x : Reader A) (p : Pool) (o : Option (Buf A))
        → IsWindow x
        → x.done ≡ false
        → IsLive x.big
        → n ≤ size
        → length (data_of x) < size
        → size ≤ x.max_size
        → Obtained (others + cap_of x.big) size memory (p, o)
        → Ends
            (Moved others n x)
            (elim o [ none ↦ returns (x, p, some no_buffer) | some b ↦ move_to b x p ])
    grown_lem others n size x p none v o w h l m got = (
      (x, p, some no_buffer),
      refl,
      unmoved others n x p no_buffer v (record { valid = got.valid; holds = got.taken; live = w }),
    )
    grown_lem others n size x p (some b) v o w h l m got =
        let count = ap length got.taken.2 ∙ sized size in
        move_to_lem others n b x p v o
          (record {
            valid = got.valid;
            holds = Holds-eq p.budget (omega arith) got.taken.0;
            live = w;
          })
          got.taken.1 (omega (arith, count, v.inside)) (omega (arith, count)) (omega (arith, count))

    grow_lem :
        (others n need : ℕ) (x : Reader A) (p : Pool)
        → IsWindow x
        → x.done ≡ false
        → Owes others x.big p
        → n ≤ max need (length (data_of x) + 1)
        → n ≤ x.max_size
        → Ends (Moved others n x) (grow memory need x p)
    unfolding grow
    grow_lem others n need x p v o w h m =
        let have = length (data_of x) in
        let size = min (capacity (max need (have + 1))) x.max_size in
        Ends-if (Moved others n x) (leb size have)
          (λ f. ((x, p, some too_large), refl, unmoved others n x p too_large v w))
          (λ f.
            Ends-and_then (Obtained (others + cap_of x.big) size memory) (Moved others n x)
              (get memory (pos size) p) _
              (get-Obtained memory (others + cap_of x.big) size p w.valid w.holds)
              (λ got obtained.
                grown_lem others n size x got.0 got.1 v o w.live
                  (omega (arith, h, m, leb-false size have f, le-capacity (max need (have + 1))))
                  (leb-false size have f) (omega arith) obtained))

    Moved-trans :
        (others n : ℕ) (x x' : Reader A) (end : Reader A × Pool × Option Error)
        → Kept x x'
        → Moved others n x' end
        → Moved others n x end
    Moved-trans others n x x' end k m = record {
      window = m.window;
      owes = m.owes;
      kept = record {
        bytes = m.kept.bytes ∙ k.bytes;
        last = m.kept.last ∙ k.last;
        err = m.kept.err ∙ k.err;
        max_size = m.kept.max_size ∙ k.max_size;
        done = m.kept.done ∙ k.done;
      };
      room = m.room;
    }

    compacted_lem :
        (others n : ℕ) (x : Reader A) (p : Pool)
        → IsWindow x
        → x.done ≡ false
        → Owes others x.big p
        → n ≤ length (data_of x)
        → n ≤ x.max_size
        → let have = length (data_of x) in
          let x' = compact x in
          Ends
            (Moved others n x)
            (if ltb x'.w have then returns (x', p, none) else grow memory (have + 1) x' p)
    compacted_lem others n x p v o w l m =
        let have = length (data_of x) in
        let x' = compact x in
        let (v', k, r_eq, w_eq, size) = compact_lem x v in
        let w' : Owes others x'.big p = Owes-compact others x p w in
        Ends-if (Moved others n x) (ltb x'.w have)
          (λ f. (
            (x', p, none),
            refl,
            record {
              window = v';
              owes = w';
              kept = k;
              room = (omega (arith, ltb→lt x'.w have f, size), omega (arith, size, r_eq));
            },
          ))
          (λ f.
            let (end, e, moved) =
              grow_lem others n (have + 1) x' p v' (k.done ∙ o) w' (omega arith)
                (omega (arith, k.max_size, m)) in
            (end, e, Moved-trans others n x x' end k moved))

    -- On an open reader whose window lies in its buffer and whose buffer the pool counts, ensure does not panic.
    -- Where it succeeds there is space to read into and room for n bytes in all, and in every case the buffered
    -- bytes are kept, the buffer is no larger than the maximum, and the pool counts the reader's buffer and no
    -- other of its own. The pool's memory gives as many bytes as it is asked for.
    pub ensure_lem :
        (others n : ℕ) (x : Reader A) (p : Pool)
        → IsWindow x
        → x.done ≡ false
        → Owes others x.big p
        → Ends (Moved others n x) (ensure memory n x p)
    unfolding ensure
    ensure_lem others n x p v o w =
        let have = length (data_of x) in
        let P = Moved others n x in
        Ends-if P (ltb x.max_size n)
          (λ f. ((x, p, some too_large), refl, unmoved others n x p too_large v w))
          (λ f.
            let m = ltb-false x.max_size n f in
            Ends-if P (ltb have n) (λ g. grow_lem others n n x p v o w (omega arith) m)
              (λ g.
                let l = ltb-false have n g in
                Ends-if P (ltb x.w have && leb n (have - x.r))
                  (λ h. (
                    (x, p, none),
                    refl,
                    record {
                      window = v;
                      owes = w;
                      kept = Kept-refl x;
                      room = (ground (arith, h), ground (arith, h));
                    },
                  ))
                  (λ h.
                    Ends-if P (ltb 0 x.r) (λ i. compacted_lem others n x p v o w l m)
                      (λ i. grow_lem others n (have + 1) x p v o w (omega arith) m))))
