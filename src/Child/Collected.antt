-- ===== src/Child/Collected.antt =====
-- When `collect` of src/child.rs gives a result, and when the deadline passes first.
use tpm2_autoenroll.Base.{
  ◌==◌, Bool-cases, length, any, ℕ, ◌≡◌, refl, sym, ◌∙◌, inl, inr, Bool, true, false, not, ◌&&◌,
  ◌||◌, Option, none, some, List, [], ◌∷◌, arith,
}
use tpm2_autoenroll.Base.Results.{Result, ok, err, map_err, Holds, bind-Holds, Holds-eq}
use tpm2_autoenroll.Child.{
  stderr_cap, Pipe, Collecting, drain, drain_ready, probe, fill, wake, is_done, collect_loop,
  collect, no_pidfd,
}
use tpm2_autoenroll.Os.{
  Command, ReadEvent, got, interrupted, read_error, Wakeup, polled, poll_interrupted, poll_failed,
  Life,
}
use tpm2_autoenroll.Child.Bounds.{IsBounded, wake-Holds}

-- What a wake-up tells of the child and of its pipes, whoever reads them.
pub exits : Wakeup → Bool
exits (polled ended out err_) = ended
exits _ = false

pub at_end : Option ReadEvent → Bool
at_end (some (got [])) = true
at_end _ = false

pub ends_stdout : Wakeup → Bool
ends_stdout (polled ended out err_) = at_end out
ends_stdout _ = false

pub ends_stderr : Wakeup → Bool
ends_stderr (polled ended out err_) = at_end err_
ends_stderr _ = false

-- Among the wake-ups the child exits, and each pipe that it has reaches its end.
pub in_time : Command → List Wakeup → Bool
in_time cmd ws =
    any exits ws
    && (not cmd.stdout_piped || any ends_stdout ws)
    && (not cmd.stderr_piped || any ends_stderr ws)

-- The same from a point in between.
in_time_from : Collecting → List Wakeup → Bool
in_time_from c ws =
    (c.exited || any exits ws)
    && (not c.stdout.is_open || any ends_stdout ws)
    && (not c.stderr.is_open || any ends_stderr ws)

-- What `collect` may give: when the deadline passes first, the child was not done in time; otherwise it
-- was, and what is kept is bounded.
pub Complete : ℕ → Command → List Wakeup → Option Collecting → Type 0
Complete cap cmd ws none = in_time cmd ws ≡ false
Complete cap cmd ws (some c) = (in_time cmd ws ≡ true) × IsBounded cap c

From : ℕ → Collecting → List Wakeup → Option Collecting → Type 0
From cap c ws none = in_time_from c ws ≡ false
From cap c ws (some c') = (in_time_from c ws ≡ true) × IsBounded cap c'

-- Whether a pipe is open after a read that gave `read`.
IsAfter : Option ReadEvent → Pipe → Pipe → Type 0
IsAfter read p q = q.is_open ≡ (p.is_open && not (at_end read))

probe-IsAfter :
    (cap : ℕ) (read : ReadEvent) (p : Pipe) → Holds (IsAfter (some read) p) (probe cap read p)
unfolding probe at_end IsAfter
probe-IsAfter cap (got []) p = ground arith
probe-IsAfter cap (got (b ∷ bs)) p = tt
probe-IsAfter cap interrupted p = ground arith
probe-IsAfter cap (read_error e) p = tt

fill-IsAfter :
    (cap : ℕ) (read : ReadEvent) (p : Pipe) → Holds (IsAfter (some read) p) (fill cap read p)
unfolding fill at_end IsAfter
fill-IsAfter cap (got []) p = ground arith
fill-IsAfter cap (got (b ∷ bs)) p = ground arith
fill-IsAfter cap interrupted p = ground arith
fill-IsAfter cap (read_error e) p = tt

drain_ready-IsAfter :
    (cap : ℕ) (read : Option ReadEvent) (p : Pipe) → Holds (IsAfter read p) (drain_ready cap read p)
unfolding drain_ready drain at_end IsAfter
drain_ready-IsAfter cap none p = ground arith
drain_ready-IsAfter cap (some read) p = elim (Bool-cases (not p.is_open)) [
  | inl e ↦ rw e (ground (arith, e))
  | inr e ↦ elim (Bool-cases (length p.into == cap)) [
    | inl full ↦ rw (e, full) (probe-IsAfter cap read p)
    | inr room ↦ rw (e, room) (fill-IsAfter cap read p)
  ]
]

-- How far the child is after a wake-up.
record IsAwake (w : Wakeup) (c c' : Collecting) : Type 0 where
  exited : c'.exited ≡ (c.exited || exits w)
  stdout : c'.stdout.is_open ≡ (c.stdout.is_open && not (ends_stdout w))
  stderr : c'.stderr.is_open ≡ (c.stderr.is_open && not (ends_stderr w))

wake-IsAwake : (cap : ℕ) (w : Wakeup) (c : Collecting) → Holds (IsAwake w c) (wake cap w c)
unfolding wake exits ends_stdout ends_stderr IsAfter
wake-IsAwake cap (polled ended out err_) c = bind-Holds _ (drain_ready cap out c.stdout) _ (λ p e.
    bind-Holds _ (drain_ready stderr_cap err_ c.stderr) _ (λ q e'. (record {
      exited = refl;
      stdout = Holds-eq _ _ (drain_ready-IsAfter cap out c.stdout) e;
      stderr = Holds-eq _ _ (drain_ready-IsAfter stderr_cap err_ c.stderr) e';
    })))
wake-IsAwake cap poll_interrupted c = record {
  exited = ground arith;
  stdout = ground arith;
  stderr = ground arith;
}
wake-IsAwake cap (poll_failed e) c = tt

or_later : (a b x : Bool) → ((a || b) || x) ≡ (a || (b || x))
or_later a b x = ground arith

closed_later : (o b x : Bool) → (not (o && not b) || x) ≡ (not o || (b || x))
closed_later o b x = ground arith

in_time_step :
    (w : Wakeup) (ws : List Wakeup) (c c' : Collecting)
    → IsAwake w c c'
    → in_time_from c' ws ≡ in_time_from c (w ∷ ws)
unfolding in_time_from
in_time_step w ws c c' a =
    rw (a.exited, a.stdout, a.stderr)
      (rw
        (
          or_later c.exited (exits w) (any exits ws),
          closed_later c.stdout.is_open (ends_stdout w) (any ends_stdout ws),
          closed_later c.stderr.is_open (ends_stderr w) (any ends_stderr ws),
        )
        refl)

done_in_time : (c : Collecting) (ws : List Wakeup) → is_done c ≡ true → in_time_from c ws ≡ true
unfolding is_done in_time_from
done_in_time c ws h = ground arith

not_in_time : (c : Collecting) → is_done c ≡ false → in_time_from c [] ≡ false
unfolding is_done in_time_from
not_in_time c h = ground arith

From-step :
    (cap : ℕ) (w : Wakeup) (ws : List Wakeup) (c c' : Collecting) (o : Option Collecting)
    → IsAwake w c c'
    → From cap c' ws o
    → From cap c (w ∷ ws) o
unfolding From
From-step cap w ws c c' none a h = sym (in_time_step w ws c c' a) ∙ h
From-step cap w ws c c' (some d) a h = (sym (in_time_step w ws c c' a) ∙ h.0, h.1)

Holds-map :
    {E A : Type 0} (P Q : A → Type 0) (r : Result E A)
    → ((a : A) → P a → Q a)
    → Holds P r
    → Holds Q r
Holds-map P Q (ok a) h x = h a x
Holds-map P Q (err e) h x = tt

collect_loop-Holds :
    (cap : ℕ) (ws : List Wakeup) (c : Collecting)
    → IsBounded cap c
    → Holds (From cap c ws) (collect_loop cap ws c)
unfolding collect_loop From
collect_loop-Holds cap [] c h = elim (Bool-cases (is_done c)) [
  | inl e ↦ rw e ((done_in_time c [] e, h))
  | inr e ↦ rw e (not_in_time c e)
]
collect_loop-Holds cap (w ∷ ws) c h = elim (Bool-cases (is_done c)) [
  | inl e ↦ rw (e, collect_loop) ((done_in_time c (w ∷ ws) e, h))
  | inr e ↦
      rw (e, collect_loop)
        (bind-Holds (From cap c (w ∷ ws)) (wake cap w c) _ (λ c' e'.
          Holds-map (From cap c' ws) (From cap c (w ∷ ws)) (collect_loop cap ws c')
            (λ o. From-step cap w ws c c' o (Holds-eq _ _ (wake-IsAwake cap w c) e'))
            (collect_loop-Holds cap ws c' (Holds-eq _ _ (wake-Holds cap w c h) e'))))
]

abbrev started : Command → Collecting
started cmd = record {
  exited = false;
  stdout = record { is_open = cmd.stdout_piped; into = [] };
  stderr = record { is_open = cmd.stderr_piped; into = [] };
}

-- Whatever the reads: when `collect` succeeds without a result, then among the wake-ups before the
-- deadline the child did not exit or a pipe of it did not reach its end; when it succeeds with one, the
-- child exited and all its pipes reached their ends in time, and at most the capacity asked for is
-- kept of its standard output and 64 KiB of its standard error.
pub collect-Complete :
    (cmd : Command) (cap : ℕ) (life : Life) (outcome : Option Collecting)
    → collect cmd cap life ≡ ok outcome
    → Complete cap cmd life.wakeups outcome
unfolding collect From Complete in_time in_time_from
collect-Complete cmd cap life none h =
    Holds-eq (From cap (started cmd) life.wakeups) _
      (bind-Holds (From cap (started cmd) life.wakeups) (map_err no_pidfd life.pidfd) _
        (λ fd e. collect_loop-Holds cap life.wakeups (started cmd) (omega arith, omega arith)))
      h
collect-Complete cmd cap life (some c) h =
    Holds-eq (From cap (started cmd) life.wakeups) _
      (bind-Holds (From cap (started cmd) life.wakeups) (map_err no_pidfd life.pidfd) _
        (λ fd e. collect_loop-Holds cap life.wakeups (started cmd) (omega arith, omega arith)))
      h
