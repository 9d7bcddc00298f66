-- ===== src/Stream/Writer.antt =====
-- stream/writer.go: buffers and shared slices that are sent together.
-- The destination is `write` and `write_buffers`: what its Write, and its WriteBuffers or net.Buffers' WriteTo, do in its
-- state, with the count and the error that they return.
pub mod Flushed
use go_netx.Base.{
  ℕ, zero, suc, ◌+◌, List, [], ◌∷◌, ◌++◌, Option, none, some, Outcome, returns, and_then, length,
}
use go_netx.Buf.{Buf, Pool, release_buf}

pub record Writer (A : Type 0) : Type 0 where
  pub held : List (Buf A)
  pub vec : List (List A)
  pub size : ℕ

module _ {A : Type 0} where
  abbrev pub new_writer : Writer A
  new_writer = record { held = []; vec = []; size = 0 }

  unfoldable pub add : Buf A → Writer A → Writer A
  add b w = record {
    held = w.held ++ (b ∷ []);
    vec = w.vec ++ (b.bytes ∷ []);
    size = w.size + length b.bytes;
  }

  unfoldable pub add_shared : List A → Writer A → Writer A
  add_shared [] w = w
  add_shared (x ∷ xs) w = record w {
    vec = w.vec ++ ((x ∷ xs) ∷ []);
    size = w.size + length (x ∷ xs);
  }

  unfoldable pub pending : Writer A → ℕ × ℕ
  pending w = (length w.vec, w.size)

  -- `b.Release()` for every held buffer, in their order.
  unfoldable pub release_all : List (Buf A) → Pool → Outcome Pool
  release_all [] p = returns p
  release_all (b ∷ bs) p = and_then (release_buf b p) (λ done. release_all bs done.0)

  unfoldable pub discard : Writer A → Pool → Outcome (Writer A × Pool)
  unfolding release_all
  discard w p = and_then (release_all w.held p) (λ p'. returns (new_writer, p'))

module _ {A S : Type 0} (write : List A → S → S × ℕ × Option ℕ)
    (write_buffers : List (List A) → S → S × ℕ × Option ℕ) where
  -- What Flush does to the destination.
  abbrev pub send : List (List A) → S → S × ℕ × Option ℕ
  send [] s = (s, 0, none)
  send (v ∷ []) s = write v s
  send (v ∷ u ∷ vs) s = write_buffers (v ∷ u ∷ vs) s

  unfoldable pub flush : Writer A → Pool → S → Outcome (Writer A × Pool × S × ℕ × Option ℕ)
  unfolding discard
  flush w p s = elim w.vec [
    | [] ↦ returns (w, p, s, 0, none)
    | v ∷ vs ↦
        let (s', n, e) = send (v ∷ vs) s in
        and_then (discard w p) (λ end. returns (end.0, end.1, s', n, e))
  ]
