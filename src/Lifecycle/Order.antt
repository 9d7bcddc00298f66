-- ===== src/Lifecycle/Order.antt =====
-- lifecycle.go: what a run of a server calls, in what order, and how often.
use go_netx.Base.{
  ◌≡◌, refl, sym, ap, subst, ◌∙◌, ◌⊎◌, inl, inr, Bool, true, false, List, [], ◌∷◌, ◌++◌, append-nil,
  Option, none, some, if◌then◌else◌, Bool-cases, Option-cases,
}
use go_netx.Lifecycle.{
  State, state_new, state_stopped, Place, start, serve, shutdown, stop, error_hook, Err,
  already_running, Server, Ending, Script, Action, calls, aborts, sets, reports, is_nil, protect,
  begin, finish, stop_hook, report, start_hook, give_up, cut_off, serve_error, serve_and_stop,
  run_service, loop_context, ignore_canceled,
}

-- The calls, the states and the reports of a run, each in order.
abbrev pub called : List Action → List Place
called [] = []
called (calls p ∷ acts) = p ∷ called acts
called (a ∷ acts) = called acts

abbrev pub visited : List Action → List State
visited [] = []
visited (sets st ∷ acts) = st ∷ visited acts
visited (a ∷ acts) = visited acts

abbrev pub reported : List Action → List (List Err)
reported [] = []
reported (reports e ∷ acts) = e ∷ reported acts
reported (a ∷ acts) = reported acts

called-append : (xs ys : List Action) → called (xs ++ ys) ≡ called xs ++ called ys
called-append [] ys = refl
called-append (calls p ∷ xs) ys = ap (◌∷◌ p) (called-append xs ys)
called-append (aborts ∷ xs) ys = called-append xs ys
called-append (sets st ∷ xs) ys = called-append xs ys
called-append (reports e ∷ xs) ys = called-append xs ys

reported-append : (xs ys : List Action) → reported (xs ++ ys) ≡ reported xs ++ reported ys
reported-append [] ys = refl
reported-append (calls p ∷ xs) ys = reported-append xs ys
reported-append (aborts ∷ xs) ys = reported-append xs ys
reported-append (sets st ∷ xs) ys = reported-append xs ys
reported-append (reports e ∷ xs) ys = ap (◌∷◌ e) (reported-append xs ys)

-- A server that has run does not run again: whatever its service and hooks would do, the second call of
-- LoopContext gives ErrAlreadyRunning, calls nothing and leaves the server stopped with its first result.
pub runs_once :
    (x y : Script) (s : Server)
    → s.has_service ≡ true
    → s.state ≡ state_new
    → let (s', r, acts) = loop_context x s in
      (s'.state ≡ state_stopped)
      × (s'.done ≡ true)
      × (s'.result ≡ r)
      × (loop_context y s' ≡ (s', already_running ∷ [], []))
unfolding loop_context begin finish
runs_once x y s service fresh = rw (service, fresh, loop_context) (refl, refl, refl, refl)

-- The hooks that are there.
abbrev pub if_set : Option Ending → Place → List Place
if_set none p = []
if_set (some h) p = p ∷ []

-- Whether OnStart lets the server go on.
abbrev pub starts : Script → Bool
starts x = is_nil (start_hook x).0

stop_hook-called : (x : Script) → called (stop_hook x).1 ≡ if_set x.on_stop stop
unfolding stop_hook
stop_hook-called x = elim (Option-cases x.on_stop) [
  | inl e ↦ rw (e, stop_hook) refl
  | inr (h, e) ↦ rw (e, stop_hook) refl
]

start_hook-called : (x : Script) → called (start_hook x).1 ≡ if_set x.on_start start
unfolding start_hook
start_hook-called x = elim (Option-cases x.on_start) [
  | inl e ↦ rw (e, start_hook) refl
  | inr (h, e) ↦ rw (e, start_hook) refl
]

report-called : (x : Script) (e : List Err) → called (report x e).1 ≡ []
unfolding report
report-called x [] = refl
report-called x (a ∷ e) = elim (Option-cases x.on_error) [
  | inl none_set ↦ rw (none_set, report) refl
  | inr (h, set) ↦ rw (set, report) refl
]

tail-called :
    (x : Script) (e : List Err) → called ((stop_hook x).1 ++ (report x e).1) ≡ if_set x.on_stop stop
tail-called x e =
    called-append (stop_hook x).1 (report x e).1
    ∙ rw (stop_hook-called x, report-called x e) (append-nil (if_set x.on_stop stop))

give_up-called :
    (x : Script) (e : List Err) → called (give_up x e).1 ≡ shutdown ∷ if_set x.on_stop stop
unfolding give_up
give_up-called x e = ap (◌∷◌ shutdown) (tail-called x _)

-- The errors of a run that has served, joined.
abbrev final_error : Script → List Err
final_error x =
    serve_error x ++ ignore_canceled (protect shutdown x.shutdown_ends) ++ (stop_hook x).0

cut_off-called : (x : Script) → called (cut_off x) ≡ []
cut_off-called x = elim (Bool-cases x.serve_first) [ inl e ↦ rw e refl | inr e ↦ rw e refl ]

serve_and_stop-called :
    (x : Script) → called (serve_and_stop x).1 ≡ serve ∷ shutdown ∷ if_set x.on_stop stop
unfolding serve_and_stop
serve_and_stop-called x =
    ap (λ ps. serve ∷ shutdown ∷ ps)
      (called-append (cut_off x) ((stop_hook x).1 ++ (report x (final_error x)).1)
        ∙ rw (cut_off-called x) (tail-called x (final_error x)))

-- A run calls OnStart, if it is set; then Serve, exactly if OnStart gave no error; then Shutdown, always and
-- once; and then OnStop, if it is set.
pub calls_in_order :
    (x : Script)
    → called (run_service x).1
      ≡ if_set x.on_start start
        ++ (if starts x
            then serve ∷ shutdown ∷ if_set x.on_stop stop
            else shutdown ∷ if_set x.on_stop stop)
unfolding run_service
calls_in_order x = elim (Bool-cases (starts x)) [
  | inl e ↦
      rw (e, run_service)
        (called-append (start_hook x).1 (serve_and_stop x).1
          ∙ rw (start_hook-called x, serve_and_stop-called x) refl)
  | inr e ↦
      rw (e, run_service)
        (called-append (start_hook x).1 (give_up x (start_hook x).0).1
          ∙ rw (start_hook-called x, give_up-called x (start_hook x).0) refl)
]

stop_hook-reported : (x : Script) → reported (stop_hook x).1 ≡ []
unfolding stop_hook
stop_hook-reported x = elim (Option-cases x.on_stop) [
  | inl e ↦ rw (e, stop_hook) refl
  | inr (h, e) ↦ rw (e, stop_hook) refl
]

start_hook-reported : (x : Script) → reported (start_hook x).1 ≡ []
unfolding start_hook
start_hook-reported x = elim (Option-cases x.on_start) [
  | inl e ↦ rw (e, start_hook) refl
  | inr (h, e) ↦ rw (e, start_hook) refl
]

cut_off-reported : (x : Script) → reported (cut_off x) ≡ []
cut_off-reported x = elim (Bool-cases x.serve_first) [ inl e ↦ rw e refl | inr e ↦ rw e refl ]

-- What OnError saw of a run that ended with `r`: nothing, and there was no error; or one error, to which a
-- panic of OnError itself is appended.
abbrev pub SeenOnce : Ending → List Err → List (List Err) → Type 0
SeenOnce h r seen =
    ((seen ≡ []) × (r ≡ []))
    ⊎ ((e : List Err) × (is_nil e ≡ false) × (seen ≡ e ∷ []) × (r ≡ e ++ protect error_hook h))

report-SeenOnce :
    (x : Script) (h : Ending) (e : List Err)
    → x.on_error ≡ some h
    → SeenOnce h (report x e).0 (reported (report x e).1)
unfolding report
report-SeenOnce x h [] set = inl (refl, refl)
report-SeenOnce x h (a ∷ e) set = rw (set, report) (inr (a ∷ e, refl, refl, refl))

tail-reported :
    (x : Script) (e : List Err)
    → reported ((stop_hook x).1 ++ (report x e).1) ≡ reported (report x e).1
tail-reported x e = reported-append (stop_hook x).1 (report x e).1 ∙ rw (stop_hook-reported x) refl

-- The errors of a run that has not served, joined.
abbrev given_up : Script → List Err → List Err
given_up x e = e ++ protect shutdown x.shutdown_ends ++ (stop_hook x).0

give_up-SeenOnce :
    (x : Script) (h : Ending) (e : List Err)
    → x.on_error ≡ some h
    → SeenOnce h (give_up x e).0 (reported (give_up x e).1)
unfolding give_up
give_up-SeenOnce x h e set =
    subst (SeenOnce h (give_up x e).0) (sym (tail-reported x (given_up x e)))
      (report-SeenOnce x h (given_up x e) set)

serve_and_stop-SeenOnce :
    (x : Script) (h : Ending)
    → x.on_error ≡ some h
    → SeenOnce h (serve_and_stop x).0 (reported (serve_and_stop x).1)
unfolding serve_and_stop
serve_and_stop-SeenOnce x h set =
    subst (SeenOnce h (serve_and_stop x).0)
      (sym (
        reported-append (cut_off x) ((stop_hook x).1 ++ (report x (final_error x)).1)
        ∙ rw (cut_off-reported x) (tail-reported x (final_error x))))
      (report-SeenOnce x h (final_error x) set)

-- On every path of a run, a failed OnStart included, OnError sees the final error exactly once if there is
-- one, and is not called if there is none. The run returns that error, with OnError's own panic after it.
pub failure-SeenOnce :
    (x : Script) (h : Ending)
    → x.on_error ≡ some h
    → SeenOnce h (run_service x).0 (reported (run_service x).1)
unfolding run_service
failure-SeenOnce x h set = elim (Bool-cases (starts x)) [
  | inl e ↦
      rw (e, run_service)
        (subst (SeenOnce h (serve_and_stop x).0)
          (sym (
            reported-append (start_hook x).1 (serve_and_stop x).1
            ∙ rw (start_hook-reported x) refl))
          (serve_and_stop-SeenOnce x h set))
  | inr e ↦
      rw (e, run_service)
        (subst (SeenOnce h (give_up x (start_hook x).0).0)
          (sym (
            reported-append (start_hook x).1 (give_up x (start_hook x).0).1
            ∙ rw (start_hook-reported x) refl))
          (give_up-SeenOnce x h (start_hook x).0 set))
]
