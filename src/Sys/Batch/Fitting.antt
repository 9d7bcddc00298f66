-- ===== src/Sys/Batch/Fitting.antt =====
-- What every Read keeps: the control data has a part for each slot, and the names of scopes stay.
use go_netx.Base.{
  ℕ, suc, ◌*◌, ◌≤◌, ◌≡◌, refl, ap, sym, ◌∙◌, List, [], ◌∷◌, Option, none, some, map, length, All,
  arith,
}
use go_netx.Sys.{Errno}
use go_netx.Sys.Batch.{
  Slot, Zone, BatchReader, Reply, Call, reset, Received, got, waits, calling, call_loop, recv, Poll,
  fails, ready, ReadResult, blocked, poll_failed, call_failed, count, result_of, poll_loop,
  after_call, CallEnd, call_end, interrupted, would_block, over,
}

abbrev pub Within : ℕ → List Slot → Type 0
Within size slots = All (λ s. s.controllen ≤ size) slots

-- The control data has a part for each slot, and no slot's is longer.
abbrev pub Fits : BatchReader → Type 0
Fits r = (length r.oob ≡ length r.slots * r.oob_size) × Within r.oob_size r.slots

-- A call that keeps the slots and the control data in place, writes no more control data than a slot has room for,
-- and counts no more datagrams than there are slots.
abbrev pub IsCall : Call → Type 0
IsCall c =
    (slots : List Slot) (oob : List ℕ)
    → (length (c slots oob).slots ≡ length slots)
      × (length (c slots oob).oob ≡ length oob)
      × ((c slots oob).n ≤ length slots)
      × ((size : ℕ) → Within size slots → Within size (c slots oob).slots)

abbrev pub IsPoll : Poll → Type 0
IsPoll (fails e) = Unit
IsPoll (ready cs) = All IsCall cs

abbrev pub Counted : ReadResult → BatchReader → Type 0
Counted blocked r = Unit
Counted (poll_failed e) r = Unit
Counted (call_failed e) r = Unit
Counted (count n) r = n ≤ length r.slots

-- The names stay those of the cache before.
abbrev Fitting : List (ℕ × Zone) → Received → Type 0
Fitting zones (got r) = Fits r × (r.n ≤ length r.slots) × (r.zones ≡ zones)
Fitting zones (waits r) = Fits r × (r.zones ≡ zones)
Fitting zones (calling r) = Fits r × (r.zones ≡ zones)

reset-Within : (size : ℕ) (slots : List Slot) → Within size (map (reset size) slots)
reset-Within size [] = tt
reset-Within size (s ∷ slots) = (omega arith, reset-Within size slots)

length-map-reset : (size : ℕ) (slots : List Slot) → length (map (reset size) slots) ≡ length slots
length-map-reset size [] = refl
length-map-reset size (s ∷ slots) = ap suc (length-map-reset size slots)

after_call-Fits :
    (c : Call) (r : BatchReader) → IsCall c → Fits r → Fits (after_call (c r.slots r.oob) r)
after_call-Fits c r ok (size, within) =
    let (slots, oob, n, keeps) = ok r.slots r.oob in
    (oob ∙ size ∙ ap (λ k. k * r.oob_size) (sym slots), keeps r.oob_size within)

call_loop-Fitting :
    (cs : List Call) (r : BatchReader) → All IsCall cs → Fits r → Fitting r.zones (call_loop cs r)
unfolding call_loop
call_loop-Fitting [] r ok fits = (fits, refl)
call_loop-Fitting (c ∷ cs) r (ok, oks) fits =
    go (call_end a.errno) (call_loop-Fitting cs (after_call a r) oks after)
  where
    a : Reply
    a = c r.slots r.oob

    after : Fits (after_call a r)
    after = after_call-Fits c r ok fits

    go :
        (k : CallEnd)
        → Fitting r.zones (call_loop cs (after_call a r))
        → Fitting r.zones (elim k as (λ _. Received) [
          | interrupted ↦ call_loop cs (after_call a r)
          | would_block ↦ waits (after_call a r)
          | over ↦ got (record (after_call a r) { n = a.n; errno = a.errno })
        ])
    go interrupted rest = rest
    go would_block rest = (after, refl)
    go over rest = (after, omega (arith, (ok r.slots r.oob).0, (ok r.slots r.oob).2), refl)

recv-Fitting :
    (cs : List Call) (r : BatchReader) → All IsCall cs → Fits r → Fitting r.zones (recv cs r)
unfolding recv
recv-Fitting cs r ok (size, within) =
    call_loop-Fitting cs (record r { slots = map (reset r.oob_size) r.slots }) ok
      (
        size ∙ ap (λ k. k * r.oob_size) (sym (length-map-reset r.oob_size r.slots)),
        reset-Within r.oob_size r.slots,
      )

result-Counted :
    (e : Option Errno) (r : BatchReader) → r.n ≤ length r.slots → Counted (result_of e r.n) r
result-Counted none r h = h
result-Counted (some e) r h = tt

pub poll_loop-Fits :
    (ps : List Poll) (r : BatchReader)
    → All IsPoll ps
    → Fits r
    → Fits (poll_loop ps r).1
      × Counted (poll_loop ps r).0 (poll_loop ps r).1
      × ((poll_loop ps r).1.zones ≡ r.zones)
unfolding poll_loop
poll_loop-Fits [] r ok fits = (fits, tt, refl)
poll_loop-Fits (fails e ∷ ps) r ok fits = (fits, tt, refl)
poll_loop-Fits (ready cs ∷ ps) r (ok, oks) fits =
    next (recv cs r) (recv-Fitting cs r ok fits) (λ r' fits'. poll_loop-Fits ps r' oks fits')
  where
    next :
        (k : Received)
        → Fitting r.zones k
        → ((r' : BatchReader)
            → Fits r'
            → Fits (poll_loop ps r').1
              × Counted (poll_loop ps r').0 (poll_loop ps r').1
              × ((poll_loop ps r').1.zones ≡ r'.zones))
        → let q : ReadResult × BatchReader = elim k as (λ _. ReadResult × BatchReader) [
          | got r' ↦ (result_of r'.errno r'.n, r')
          | waits r' ↦ poll_loop ps r'
          | calling r' ↦ (blocked, r')
        ] in
          Fits q.1 × Counted q.0 q.1 × (q.1.zones ≡ r.zones)
    next (got r') (fits', n, kept) go = (fits', result-Counted r'.errno r' n, kept)
    next (waits r') (fits', kept) go =
        let (fits_end, counted, kept_end) = go r' fits' in (fits_end, counted, kept_end ∙ kept)
    next (calling r') (fits', kept) go = (fits', tt, kept)
