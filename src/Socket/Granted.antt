-- ===== src/Socket/Granted.antt =====
-- Where options are applied without an error, the kernel has granted the sizes that were asked for.
use go_netx.Base.{
  ℕ, ◌≡◌, refl, ap, ◌∙◌, arith, Bool, true, false, not, ◌&&◌, ◌||◌, Option, none, some, ◌==◌,
  if◌then◌else◌, if-cases, Bool-cases, inl, inr,
}
use go_netx.Base.Int.{ℤ, pos, ltb_ℤ, ◌≤ℤ◌, ◌<ℤ◌}
use go_netx.Socket.{
  Options, Network, Error, Errno, short, sys, refused, unsupported, Sockopts, Result, BufferKind,
  sol_socket, ipproto_tcp, so_reuse_port, dialed_connections, tcp_fast_open, half,
  tcp_fast_open_opt, recv_buffer_kind, send_buffer_kind, and_next, result_of, with_size,
  read_buffer, settle, force_size, ensure_buffer, ensure_wanted, apply_buffers, apply_options,
  check_network, is_zero_options, control,
}
use go_netx.Socket.Frame.{
  OnNone, OnNone-none, OnNone-and_next, OnNone-pair, OnNone-all, ensure_wanted-Inv,
  apply_options-Inv, Keeps,
}

-- What never is.
abbrev Never : Type 0
Never = true ≡ false

module _ {K : Type 0} (ops : Sockopts K) where
  -- What `ensureBuffer` ends with: the size read back is large enough; or it is not, and the error says so; or a call
  -- on the socket has failed.
  abbrev pub IsEnsured : BufferKind → ℤ → Bool → Result K → Type 0
  IsEnsured k requested doubled (s, none) =
      (actual : ℤ) × (read_buffer ops k doubled s ≡ (actual, none)) × requested ≤ℤ actual
  IsEnsured k requested doubled (s, some (short name asked actual)) =
      (name ≡ k.name)
      × (asked ≡ requested)
      × (read_buffer ops k doubled s ≡ (actual, none))
      × actual <ℤ requested
  IsEnsured k requested doubled (s, some (sys e)) = Unit
  IsEnsured k requested doubled (s, some e) = Never

  settle-IsEnsured :
      (k : BufferKind) (requested : ℤ) (doubled : Bool) (actual : ℤ) (s : K)
      → read_buffer ops k doubled s ≡ (actual, none)
      → IsEnsured k requested doubled (settle k requested actual s)
  settle-IsEnsured k requested doubled actual s e = elim (Bool-cases (ltb_ℤ actual requested)) [
    | inl low ↦ rw low (refl, refl, e, ground arith)
    | inr high ↦ rw high (actual, e, ground arith)
  ]

  with_size-IsEnsured :
      (k : BufferKind) (requested : ℤ) (doubled : Bool) (s : K) (f : ℤ → Result K)
      → ((actual : ℤ)
          → read_buffer ops k doubled s ≡ (actual, none)
          → IsEnsured k requested doubled (f actual))
      → IsEnsured k requested doubled (with_size (read_buffer ops k doubled s) s f)
  with_size-IsEnsured k requested doubled s f next = go (read_buffer ops k doubled s) refl
    where
      go :
          (r : ℤ × Option Errno)
          → read_buffer ops k doubled s ≡ r
          → IsEnsured k requested doubled (with_size r s f)
      go (actual, none) e = next actual e
      go (actual, some x) e = tt

  -- Whatever the kernel does, ensureBuffer without an error leaves a size that is read back as no smaller than the
  -- requested one; and its BufferSizeError tells the requested size and the size that the socket really has, which
  -- is smaller. It fails with no other error than that of a call on the socket.
  pub ensure_buffer_lem :
      (k : BufferKind) (requested : ℤ) (doubled : Bool) (s : K)
      → IsEnsured k requested doubled (ensure_buffer ops k requested doubled s)
  unfolding ensure_buffer
  ensure_buffer_lem k requested doubled s = go (ops.set sol_socket k.opt requested s)
    where
      go :
          (r : K × Option Errno)
          → IsEnsured k requested doubled (
              and_next (result_of r) (λ s'. with_size (read_buffer ops k doubled s') s' (λ actual.
                if ltb_ℤ actual requested && not (k.force == 0)
                then force_size ops k requested doubled s'
                else settle k requested actual s')))
      go (s', some e) = tt
      go (s', none) = with_size-IsEnsured k requested doubled s' _ (λ actual e.
          if-cases (IsEnsured k requested doubled) (ltb_ℤ actual requested && not (k.force == 0))
            (λ _.
              let forced = (ops.set sol_socket k.force requested s').0 in
              with_size-IsEnsured k requested doubled forced _
                (λ actual' e'. settle-IsEnsured k requested doubled actual' forced e'))
            (λ _. settle-IsEnsured k requested doubled actual s' e))

-- A call with some level and option other than those of the buffer.
abbrev pub IsOther : BufferKind → ℕ → ℕ → Type 0
IsOther k level opt = (level == sol_socket && (opt == k.opt || opt == k.force)) ≡ false

module _ {K : Type 0} (ops : Sockopts K) where
  -- Other options do not change the size of the buffer.
  abbrev pub IsSeparate : BufferKind → Type 0
  IsSeparate k =
      (level opt : ℕ) (v : ℤ) (s : K)
      → IsOther k level opt
      → ops.get sol_socket k.opt (ops.set level opt v s).0 ≡ ops.get sol_socket k.opt s

  -- A size that is read back as no smaller than the wanted one.
  pub record IsGranted (k : BufferKind) (wanted : ℤ) (s : K) : Type 0 where
    pub actual : ℤ
    pub reads : read_buffer ops k true s ≡ (actual, none)
    pub enough : wanted ≤ℤ actual

  -- A size that is not positive is not asked for.
  abbrev GrantedIf : Bool → BufferKind → ℤ → K → Type 0
  GrantedIf true k wanted s = IsGranted k wanted s
  GrantedIf false k wanted s = Unit

  abbrev pub Granted : BufferKind → ℤ → K → Type 0
  Granted k wanted s = GrantedIf (ltb_ℤ (pos 0) wanted) k wanted s

  ensured-Granted :
      (k : BufferKind) (wanted : ℤ) (r : Result K)
      → IsEnsured ops k wanted true r
      → OnNone (IsGranted k wanted) r
  ensured-Granted k wanted (s, none) (actual, e, enough) = record {
    actual = actual;
    reads = e;
    enough = enough;
  }
  ensured-Granted k wanted (s, some e) h = tt

  ensure_wanted-Granted :
      (k : BufferKind) (wanted : ℤ) (s : K)
      → OnNone (Granted k wanted) (ensure_wanted ops k wanted s)
  ensure_wanted-Granted k wanted s = go (ltb_ℤ (pos 0) wanted)
    where
      go :
          (b : Bool)
          → OnNone
              (GrantedIf b k wanted)
              (if b then ensure_buffer ops k wanted true s else (s, none))
      go true = ensured-Granted k wanted _ (ensure_buffer_lem ops k wanted true s)
      go false = tt

  Granted-Keeps :
      (k : BufferKind) (wanted : ℤ) (level opt : ℕ)
      → IsSeparate k
      → IsOther k level opt
      → Keeps ops (Granted k wanted) level opt
  unfolding read_buffer
  Granted-Keeps k wanted level opt apart other v s = go (ltb_ℤ (pos 0) wanted)
    where
      same : read_buffer ops k true (ops.set level opt v s).0 ≡ read_buffer ops k true s
      same = ap (λ (r : ℤ × Option Errno). (half r.0, r.1)) (apart level opt v s other)

      go : (b : Bool) → GrantedIf b k wanted s → GrantedIf b k wanted (ops.set level opt v s).0
      go true h = record { actual = h.actual; reads = same ∙ h.reads; enough = h.enough }
      go false h = tt

  -- Both buffers.
  abbrev pub BothGranted : Options → K → Type 0
  BothGranted o s =
      Granted recv_buffer_kind o.recv_buffer s × Granted send_buffer_kind o.send_buffer s

  zero-Granted :
      (k : BufferKind) (wanted : ℤ) (s : K) → ltb_ℤ (pos 0) wanted ≡ false → Granted k wanted s
  zero-Granted k wanted s e = rw e tt

  zero-BothGranted : (o : Options) (s : K) → is_zero_options o ≡ true → BothGranted o s
  unfolding is_zero_options
  zero-BothGranted o s e = (
    zero-Granted recv_buffer_kind o.recv_buffer s (ground arith),
    zero-Granted send_buffer_kind o.send_buffer s (ground arith),
  )

  module _ (recv_apart : IsSeparate recv_buffer_kind) (send_apart : IsSeparate send_buffer_kind)
      (o : Options) where
    apply_buffers-BothGranted : (s : K) → OnNone (BothGranted o) (apply_buffers ops o s)
    unfolding apply_buffers
    apply_buffers-BothGranted s =
        OnNone-and_next (Granted recv_buffer_kind o.recv_buffer) (BothGranted o)
          (ensure_wanted ops recv_buffer_kind o.recv_buffer s)
          (ensure_wanted ops send_buffer_kind o.send_buffer)
          (ensure_wanted-Granted recv_buffer_kind o.recv_buffer s)
          (λ s' h.
            OnNone-pair (Granted recv_buffer_kind o.recv_buffer)
              (Granted send_buffer_kind o.send_buffer)
              (ensure_wanted ops send_buffer_kind o.send_buffer s')
              (ensure_wanted-Inv ops (Granted recv_buffer_kind o.recv_buffer) send_buffer_kind
                o.send_buffer s'
                (Granted-Keeps recv_buffer_kind o.recv_buffer sol_socket send_buffer_kind.opt
                  recv_apart refl)
                (Granted-Keeps recv_buffer_kind o.recv_buffer sol_socket send_buffer_kind.force
                  recv_apart refl)
                h)
              (ensure_wanted-Granted send_buffer_kind o.send_buffer s'))

    apply_both-BothGranted :
        (s : K) → OnNone (BothGranted o) (and_next (apply_buffers ops o s) (apply_options ops o))
    apply_both-BothGranted s =
        OnNone-and_next (BothGranted o) (BothGranted o) (apply_buffers ops o s)
          (apply_options ops o) (apply_buffers-BothGranted s)
          (λ s' h. OnNone-all (BothGranted o) (apply_options ops o s') (
            apply_options-Inv ops (Granted recv_buffer_kind o.recv_buffer) o s'
                (Granted-Keeps recv_buffer_kind o.recv_buffer sol_socket so_reuse_port recv_apart
                  refl)
                (λ _.
                  Granted-Keeps recv_buffer_kind o.recv_buffer ipproto_tcp tcp_fast_open_opt
                    recv_apart refl)
                h.0,
            apply_options-Inv ops (Granted send_buffer_kind o.send_buffer) o s'
                (Granted-Keeps send_buffer_kind o.send_buffer sol_socket so_reuse_port send_apart
                  refl)
                (λ _.
                  Granted-Keeps send_buffer_kind o.send_buffer ipproto_tcp tcp_fast_open_opt
                    send_apart refl)
                h.1,
          ))

    control-OnNone :
        (outbound : Bool) (n : Network) (raw : Option ℕ) (s : K)
        → OnNone (BothGranted o) (control ops o outbound n raw s)
    unfolding control
    control-OnNone outbound n raw s = checked (check_network n o)
      where
        run :
            (e : Option ℕ)
            → OnNone (BothGranted o) (elim e as (λ _. Result K) [
              | some e ↦ (s, some (refused e))
              | none ↦ and_next (apply_buffers ops o s) (apply_options ops o)
            ])
        run none = apply_both-BothGranted s
        run (some e) = tt

        checked :
            (c : Option Error)
            → OnNone (BothGranted o) (elim c as (λ _. Result K) [
              | some e ↦ (s, some e)
              | none ↦
                  if outbound && o.fast_open.enabled
                  then (s, some (unsupported tcp_fast_open dialed_connections))
                  else if is_zero_options o
                  then (s, none)
                  else elim raw [
                    | some e ↦ (s, some (refused e))
                    | none ↦ and_next (apply_buffers ops o s) (apply_options ops o)
                  ]
            ])
        checked (some e) = tt
        checked none =
            if-cases (OnNone (BothGranted o)) (outbound && o.fast_open.enabled) (λ _. tt)
              (λ _.
                if-cases (OnNone (BothGranted o)) (is_zero_options o) (λ e. zero-BothGranted o s e)
                  (λ _. run raw))

    -- Where the Control function that ListenConfig or Dialer installs gives no error, whatever the network and
    -- whatever else is set, each buffer whose size is wanted is read back, when all options are set, as no
    -- smaller than that size. The kernel's other options do not change the size of a buffer.
    pub control-granted :
        (outbound : Bool) (n : Network) (raw : Option ℕ) (s : K)
        → (control ops o outbound n raw s).1 ≡ none
        → BothGranted o (control ops o outbound n raw s).0
    control-granted outbound n raw s =
        OnNone-none (BothGranted o) (control ops o outbound n raw s)
          (control-OnNone outbound n raw s)
