-- ===== src/Cli/Watched.antt =====
-- What the watch loop of crates/cli/src/main.rs makes of the bytes that are appended to the file.
use logdive.Prelude.{
  ◌+◌, ◌++◌, Bool, List, [], ap, arith, false, if◌then◌else◌, refl, suc, true, ◌∷◌, ◌≡◌, ℕ,
}
use logdive.Cli.Account.{Accounts, dark_lines}
use logdive.Follow.Tailer.{Answers, Outcome, FileTailer}
use logdive.Bytes.{Bytes}
use logdive.Cli.Ingest.{Ingested, Progress}
use logdive.Cli.Watch.{Round, Watching, event, ingested, tail, timed, timeout, Watched, watch_then}
use logdive.Prelude.Result.{err, ok, ok_eq, out_of_fuel}
use logdive.Bytes.White.{is_blank}

-- How many lines are not blank.
unfoldable pub dark_count : List Bytes → ℕ
dark_count [] = 0
dark_count (line ∷ lines) = let more = dark_count lines in if is_blank line then more else more + 1

pub dark_count-append : (xs ys : List Bytes) → dark_count (xs ++ ys) ≡ dark_count xs + dark_count ys
unfolding dark_count
dark_count-append [] ys = omega arith
dark_count-append (x ∷ xs) ys = ground (arith, dark_count-append xs ys)

pub dark_lines-timed :
    (times : ℕ → Bytes) (lines : List Bytes) → dark_lines (timed times lines) ≡ dark_count lines
unfolding dark_lines timed dark_count
dark_lines-timed times [] = refl
dark_lines-timed times (line ∷ lines) = rw (dark_lines-timed (λ n. times (suc n)) lines) refl

-- The rounds that read, and what the system answers in them.
abbrev pub is_quiet : Round → Bool
is_quiet (event _ _) = true
is_quiet (timeout _ _) = true
is_quiet _ = false

abbrev pub calls_of : List Round → List Answers
calls_of [] = []
calls_of (event a _ ∷ more) = a ∷ calls_of more
calls_of (timeout a _ ∷ more) = a ∷ calls_of more
calls_of (_ ∷ more) = calls_of more

pub tail-ok :
    (o : Outcome (List Bytes)) (w : Watching) {lines : List Bytes}
    → o.0 ≡ ok lines
    → tail o w ≡ (ok lines, record w { tailer = o.1 })
unfolding tail
tail-ok (ok found, t) w h = ap (λ l. (ok l, record w { tailer = t })) (ok_eq h)
tail-ok (err e, t) w h = cc h
tail-ok (out_of_fuel, t) w h = cc h

pub ingested-ok :
    (r : Ingested) (w : Watching)
    → r.0 ≡ ok tt
    → ingested r w ≡ (ok tt, record w { progress = r.1 })
unfolding ingested
ingested-ok (ok _, p) w h = refl
ingested-ok (err e, p) w h = cc h
ingested-ok (out_of_fuel, p) w h = cc h

-- Between calls nothing waits in the batch, and so many lines have been accounted for.
pub record Ingests (p : Progress) (n : ℕ) (q : Progress) : Type 0 where
  pub accounts : Accounts p n q
  pub no_batch : q.batch ≡ []

Ingests-then : {p q r : Progress} (m n : ℕ) → Ingests p m q → Ingests q n r → Ingests p (m + n) r
Ingests-then m n h k = record {
  accounts = record {
    counts = omega (arith, h.accounts.counts, k.accounts.counts);
    adds = omega (arith, h.accounts.adds, k.accounts.adds);
  };
  no_batch = k.no_batch;
}

pub Ingests-nothing : (p : Progress) → p.batch ≡ [] → Ingests p 0 p
Ingests-nothing p h = record {
  accounts = record { counts = omega arith; adds = omega arith };
  no_batch = h;
}

-- A step that goes well, having accounted for so many lines, and leaves this tailer.
pub record Steps {A : Type 0} (a : A) (t : FileTailer) (n : ℕ) (p : Progress) (r : Watched A)
    : Type 0 where
  pub is_ok : r.0 ≡ ok a
  pub tailer_is : r.1.tailer ≡ t
  pub ingests : Ingests p n r.1.progress

pub Steps-counted :
    (t : FileTailer) (n : ℕ) (p : Progress) (r : Watched Unit)
    → Steps tt t n p r
    → Steps tt t n p (watch_then r λ _ w'. (ok tt, record w' { event_count = w'.event_count + 1 }))
Steps-counted t n p (ok _, w') h = record {
  is_ok = refl;
  tailer_is = h.tailer_is;
  ingests = h.ingests;
}
Steps-counted t n p (err e, w') h = cc h.is_ok
Steps-counted t n p (out_of_fuel, w') h = cc h.is_ok

pub Steps-then :
    {B : Type 0} {b : B} {t u : FileTailer} (m n : ℕ) (p : Progress) (r : Watched Unit)
    (more : Watching → Watched B)
    → Steps tt t m p r
    → ((w' : Watching) → w'.tailer ≡ t → w'.progress.batch ≡ [] → Steps b u n w'.progress (more w'))
    → Steps b u (m + n) p (watch_then r (λ _. more))
Steps-then m n p (ok _, w') more h k =
    let rest = k w' h.tailer_is h.ingests.no_batch in
    record {
      is_ok = rest.is_ok;
      tailer_is = rest.tailer_is;
      ingests = Ingests-then m n h.ingests rest.ingests;
    }
Steps-then m n p (err e, w') more h k = cc h.is_ok
Steps-then m n p (out_of_fuel, w') more h k = cc h.is_ok
